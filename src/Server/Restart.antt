-- ===== src/Server/Restart.antt =====
-- `load_user_persistence` of server/user_persistence.cpp: how the users come back from disk. The
-- states of the users over the runs of the server, each started from what the one before left on
-- disk when all of its updates were written and all files opened.
pub mod Kept
pub mod Loading
pub mod Mirror
pub mod Restored
pub mod Runs
pub mod Serving
pub mod Service
pub mod Step
use inf.Server.Persistence
use inf.Base.{List, Str, [], empty_map, eq_str, eq_ℕ, some, ℕ, ◌+◌, ◌<◌, ◌^◌, ◌≡◌, ◌≢◌}
use inf.Server.Connections.{eq_address}
use inf.Server.Disk.{DiskOperationsManagment, load_and_update_persistent_data, update_users_on_disk}
use inf.Server.Disk.Directory.{IsFileName}
use inf.Server.Notification.{Notification, PendingNotification}
use inf.Server.Persistence.{
  UserPersistence, UserPersistentData, add_follow, add_or_update_user, add_pending_notification,
  drain_pending_notifications, new_user_persistence,
}

-- The users that are loaded, and the manager after it; its queue is empty.
unfoldable pub load_user_persistence :
    DiskOperationsManagment → UserPersistence × DiskOperationsManagment
load_user_persistence s =
    let loaded = load_and_update_persistent_data s in
    (new_user_persistence loaded.0 (some []), loaded.1)

-- No files, and no names.
abbrev pub empty_folder : DiskOperationsManagment
empty_folder = record { user_directory = []; files = empty_map }

-- With so few ids given out, files are shorter than 2^32 bytes.
abbrev pub user_limit : ℕ
user_limit = 2 ^ 30

-- The folder as a run of the server found it, and its users now. In the queue of the users are all
-- the updates of this run.
pub data History : DiskOperationsManagment → UserPersistence → Type 0 where
  first_run : History empty_folder (load_user_persistence empty_folder).0
  logged_in :
      {s : DiskOperationsManagment} {p : UserPersistence} (username : Str)
      → History s p
      → IsFileName username
      → p.last_user_id + 4 < user_limit
      → History s (add_or_update_user p username).1
  followed :
      {s : DiskOperationsManagment} {p : UserPersistence} (u f : ℕ)
      → History s p
      → u ≢ f
      → History s (add_follow p u f)
  notified :
      {s : DiskOperationsManagment} {p : UserPersistence} (u : ℕ) (n : Notification)
      → History s p
      → History s (Persistence.add_notification p u n)
  made_wait :
      {s : DiskOperationsManagment} {p : UserPersistence} (u : ℕ) (n : PendingNotification)
      → History s p
      → History s (add_pending_notification p u n)
  collected :
      {s : DiskOperationsManagment} {p : UserPersistence} (u : ℕ)
      → History s p
      → History s (drain_pending_notifications p u).1
  restarted :
      {s : DiskOperationsManagment} {p : UserPersistence} (queue : List UserPersistentData)
      → History s p
      → p.disk_managment ≡ some queue
      → History
          (load_user_persistence (update_users_on_disk s queue)).1
          (load_user_persistence (update_users_on_disk s queue)).0
