-- ===== src/Server/Restart/Runs.antt =====
-- Every run of the server starts with the users that the one before left.
use inf.Server.Persistence
use inf.Base.{
  List, Str, [], arith, contains, empty_map, eq_str, eq_ℕ, inl, refl, some, subst, sym, ℕ, ◌∷◌, ◌≡◌,
}
use inf.Server.Connections.{eq_address}
use inf.Server.Disk.{DiskOperationsManagment, load_and_update_persistent_data, update_users_on_disk}
use inf.Server.Disk.Directory.{IsListed, load_and_update_persistent_data_lem}
use inf.Server.Persistence.{
  UserPersistence, UserPersistentData, load_user, load_users, new_user_persistence,
}
use inf.Server.Persistence.Invariant.{IsWellFormed, empty-IsWellFormed}
use inf.Server.Persistence.Pending.{
  add_notification-SameUsers, add_pending_notification-SameUsers,
  drain_pending_notifications-SameUsers, persistent_of,
}
use inf.Server.Restart.{
  History, collected, empty_folder, first_run, followed, load_user_persistence, logged_in,
  made_wait, notified, restarted,
}
use inf.Server.Restart.Kept.{same-IsKept}
use inf.Server.Restart.Mirror.{IsKept, IsMirrored}
use inf.Server.Restart.Restored.{restored_id, restored_last, restored_name}
use inf.Server.Restart.Step.{add_follow-IsKept, add_or_update_user-IsKept}
use inf.Shared.Ids.{invalid_user_id}

-- The same users, whatever waits to be written.
pub record IsRestored (p r : UserPersistence) : Type 0 where
  same_last : r.last_user_id ≡ p.last_user_id
  same_names : (n : Str) → r.username_to_id n ≡ p.username_to_id n
  same_data : (u : ℕ) → persistent_of (r.id_to_user u) ≡ persistent_of (p.id_to_user u)

pub mirrored_again :
    (t : DiskOperationsManagment) (p : UserPersistence)
    → IsWellFormed p
    → IsMirrored t p
    → IsRestored p (load_user_persistence t).0
mirrored_again t p v m = record {
  same_last = restored_last t p v m;
  same_names = restored_name t p v m;
  same_data = restored_id t p v m;
}

restored_folder : (t : DiskOperationsManagment) → IsListed t → (load_user_persistence t).1 ≡ t
unfolding load_user_persistence
restored_folder t h = rw (load_and_update_persistent_data_lem t h) refl

load_users-queue :
    (p : UserPersistence) (ds : List UserPersistentData)
    → (load_users p ds).disk_managment ≡ p.disk_managment
unfolding load_users load_user
load_users-queue p [] = refl
load_users-queue p (d ∷ ds) = load_users-queue (load_user p d) ds

restored_queue :
    (t : DiskOperationsManagment) → (load_user_persistence t).0.disk_managment ≡ some []
unfolding load_user_persistence new_user_persistence
restored_queue t =
    load_users-queue
      (record {
        last_user_id = invalid_user_id;
        id_to_user = empty_map;
        username_to_id = empty_map;
        disk_managment = some [];
      })
      (load_and_update_persistent_data t).0

-- The users with all of their updates written.
abbrev written : UserPersistence → UserPersistence
written p = record p { disk_managment = some [] }

written-IsKept :
    (s : DiskOperationsManagment) (p : UserPersistence) (k : IsKept s p)
    → IsKept (update_users_on_disk s k.queue) (written p)
unfolding update_users_on_disk Persistence.user_id_exists
written-IsKept s p k = record {
  sound = record { data_ok = k.sound.data_ok; named = k.sound.named; small = k.sound.small };
  few = k.few;
  queue = [];
  queued = refl;
  mirrored = record {
    listed = k.mirrored.listed;
    stored = k.mirrored.stored;
    names = k.mirrored.names;
    last = k.mirrored.last;
  };
}

-- What is read again is kept in the folder that it was read from.
restart-IsKept :
    (s : DiskOperationsManagment) (p : UserPersistence) (k : IsKept s p)
    → let t = update_users_on_disk s k.queue in
      IsKept (load_user_persistence t).1 (load_user_persistence t).0
restart-IsKept s p k =
    let t = update_users_on_disk s k.queue in
    let r = (load_user_persistence t).0 in
    let again = mirrored_again t p k.sound k.mirrored in
    subst (λ (s' : DiskOperationsManagment). IsKept s' r)
      (sym (restored_folder t k.mirrored.listed))
      (same-IsKept t (written p) (written-IsKept s p k) r (record {
        same_last = again.same_last;
        same_names = again.same_names;
        same_queue = restored_queue t;
        same_data = again.same_data;
      }))

empty-IsKept : IsKept empty_folder (new_user_persistence [] (some []))
unfolding update_users_on_disk new_user_persistence contains
empty-IsKept = record {
  sound = empty-IsWellFormed (some []);
  few = omega arith;
  queue = [];
  queued = refl;
  mirrored = record {
    listed = record { valid = tt; listed = refl };
    stored = λ n other. refl;
    names = λ n u h. absurd cc;
    last = inl refl;
  };
}

first-IsKept : IsKept empty_folder (load_user_persistence empty_folder).0
unfolding load_user_persistence
first-IsKept =
    rw (load_and_update_persistent_data_lem empty_folder (record { valid = tt; listed = refl }))
      empty-IsKept

pub History-IsKept : (s : DiskOperationsManagment) (p : UserPersistence) → History s p → IsKept s p
History-IsKept s p first_run = first-IsKept
History-IsKept s p (logged_in {p = q} username h name_ok room) =
    add_or_update_user-IsKept s q (History-IsKept s q h) username name_ok room
History-IsKept s p (followed {p = q} u f h other) =
    add_follow-IsKept s q (History-IsKept s q h) u f other
History-IsKept s p (notified {p = q} u n h) =
    same-IsKept s q (History-IsKept s q h) p (add_notification-SameUsers q u n)
History-IsKept s p (made_wait {p = q} u n h) =
    same-IsKept s q (History-IsKept s q h) p (add_pending_notification-SameUsers q u n)
History-IsKept s p (collected {p = q} u h) =
    same-IsKept s q (History-IsKept s q h) p (drain_pending_notifications-SameUsers q u)
History-IsKept s p (restarted {s = s'} {p = q} queue h e) =
    let k = History-IsKept s' q h in
    let same : k.queue ≡ queue = cc in
    subst
      (λ (l : List UserPersistentData).
        IsKept (load_user_persistence (update_users_on_disk s' l)).1
          (load_user_persistence (update_users_on_disk s' l)).0)
      same (restart-IsKept s' q k)

-- From an empty folder, over any number of runs of the server, in which users with valid names (no
-- slash, not the directory's name) log in while the last id is below 2^30 - 4, ids follow others
-- than themselves, and notifications come and go: if the updates of a run are all written, in
-- order, to a folder in which all files open, the next run starts with the same names, the same id,
-- name and followers of each user, and the same last id.
pub restart_lem :
    (s : DiskOperationsManagment) (p : UserPersistence) (queue : List UserPersistentData)
    → History s p
    → p.disk_managment ≡ some queue
    → IsRestored p (load_user_persistence (update_users_on_disk s queue)).0
restart_lem s p queue h e =
    let k = History-IsKept s p h in
    let same : k.queue ≡ queue = cc in
    subst
      (λ (l : List UserPersistentData).
        IsRestored p (load_user_persistence (update_users_on_disk s l)).0)
      same (mirrored_again (update_users_on_disk s k.queue) p k.sound k.mirrored)
