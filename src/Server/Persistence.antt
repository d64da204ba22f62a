-- ===== src/Server/Persistence.antt =====
-- server/user_persistence.h, server/user_persistence.cpp: the users, their followers and the
-- notifications that wait for them. The disk manager is seen from here as the queue of user data
-- that is to be written (`none` for a null pointer).
pub mod Invariant
pub mod Pending
pub mod Users
pub mod Followers
use inf.Base.{
  Bool, List, Map, Option, Str, [], contains, empty_map, eq_str, eq_ℕ, if◌then◌else◌, insert,
  is_some, nat_eq, none, not, some, ℕ, ◌++◌, ◌∷◌,
}
use inf.Server.Connections.{eq_address}
use inf.Server.Notification.{Notification, PendingNotification}
use inf.Shared.Ids.{increment, int_ltb, invalid_user_id}

pub record UserPersistentData : Type 0 where
  pub user_id : ℕ
  pub username : Str
  pub followed_by : List ℕ

abbrev pub DiskQueue : Type 0
DiskQueue = Option (List UserPersistentData)

pub record UserData : Type 0 where
  pub persistent_data : UserPersistentData
  pub notification_list : List Notification
  pub pending_notifications : List PendingNotification

pub record UserPersistence : Type 0 where
  pub last_user_id : ℕ
  pub id_to_user : Map ℕ UserData
  pub username_to_id : Map Str ℕ
  pub disk_managment : DiskQueue

-- `user_data_update_queue.push`, unless the disk manager is null.
abbrev pub push_update : DiskQueue → UserPersistentData → DiskQueue
push_update none persistent_data = none
push_update (some queue) persistent_data = some (queue ++ persistent_data ∷ [])

abbrev pub new_user_data : UserPersistentData → UserData
new_user_data persistent_data = record {
  persistent_data = persistent_data;
  notification_list = [];
  pending_notifications = [];
}

-- The follower is appended unless it follows already; the new data goes to the disk queue.
unfoldable pub add_followed_by : UserPersistentData → ℕ → DiskQueue → UserPersistentData × DiskQueue
add_followed_by d new_follower disk_managment =
    if contains new_follower d.followed_by
    then (d, disk_managment)
    else let d' = record d { followed_by = d.followed_by ++ new_follower ∷ [] } in
      (d', push_update disk_managment d')

-- One round of the constructor's loop. `biggest` is the largest id so far, as an `int`.
unfoldable pub load_user : UserPersistence → UserPersistentData → UserPersistence
load_user p persistent_data = record p {
  username_to_id = insert p.username_to_id persistent_data.username persistent_data.user_id;
  id_to_user = insert p.id_to_user persistent_data.user_id (new_user_data persistent_data);
  last_user_id =
      if int_ltb p.last_user_id persistent_data.user_id
      then persistent_data.user_id
      else p.last_user_id;
}

unfoldable pub load_users : UserPersistence → List UserPersistentData → UserPersistence
unfolding load_user
load_users p [] = p
load_users p (persistent_data ∷ rest) = load_users (load_user p persistent_data) rest

unfoldable pub new_user_persistence : List UserPersistentData → DiskQueue → UserPersistence
unfolding load_users
new_user_persistence persistent_data_vector disk_managment =
    load_users
      (record {
        last_user_id = invalid_user_id;
        id_to_user = empty_map;
        username_to_id = empty_map;
        disk_managment = disk_managment;
      })
      persistent_data_vector

unfoldable pub user_id_exists : UserPersistence → ℕ → Bool
user_id_exists p user_id = is_some (p.id_to_user user_id)

unfoldable pub get_user_id_from_username : UserPersistence → Str → ℕ
get_user_id_from_username p username = elim (p.username_to_id username) [
  | none ↦ invalid_user_id
  | some user_id ↦ user_id
]

unfoldable pub add_user : UserPersistence → Str → ℕ × UserPersistence
add_user p username =
    let user_id = increment p.last_user_id in
    let persistent_data : UserPersistentData = record {
      user_id = user_id;
      username = username;
      followed_by = [];
    } in
    (
      user_id,
      record {
        last_user_id = user_id;
        id_to_user = insert p.id_to_user user_id (new_user_data persistent_data);
        username_to_id = insert p.username_to_id username user_id;
        disk_managment = push_update p.disk_managment persistent_data;
      },
    )

unfoldable pub add_or_update_user : UserPersistence → Str → ℕ × UserPersistence
unfolding add_user get_user_id_from_username
add_or_update_user p username =
    let user_id = get_user_id_from_username p username in
    if not (nat_eq user_id invalid_user_id) then (user_id, p) else add_user p username

-- The follower is added to the data of a user that exists.
unfoldable pub follow_user : UserPersistence → ℕ → UserData → ℕ → UserPersistence
unfolding add_followed_by
follow_user p followed_id user_data follower_id =
    let added = add_followed_by user_data.persistent_data follower_id p.disk_managment in
    record p {
      id_to_user = insert p.id_to_user followed_id (record user_data { persistent_data = added.0 });
      disk_managment = added.1;
    }

unfoldable pub add_follow : UserPersistence → ℕ → ℕ → UserPersistence
unfolding follow_user user_id_exists
add_follow p followed_id follower_id = elim (p.id_to_user followed_id) [
  | none ↦ p
  | some user_data ↦
      if not (user_id_exists p follower_id)
      then p
      else follow_user p followed_id user_data follower_id
]

unfoldable pub add_notification : UserPersistence → ℕ → Notification → UserPersistence
add_notification p user_id notification = elim (p.id_to_user user_id) [
  | none ↦ p
  | some user_data ↦ record p {
    id_to_user =
        insert p.id_to_user user_id (record user_data {
          notification_list = user_data.notification_list ++ notification ∷ [];
        });
  }
]

unfoldable pub get_notifications : UserPersistence → ℕ → List Notification
get_notifications p user_id = elim (p.id_to_user user_id) [
  | none ↦ []
  | some user_data ↦ user_data.notification_list
]

unfoldable pub get_followers : UserPersistence → ℕ → List ℕ
get_followers p user_id = elim (p.id_to_user user_id) [
  | none ↦ []
  | some user_data ↦ user_data.persistent_data.followed_by
]

unfoldable pub get_username_from_user_id : UserPersistence → ℕ → Str
get_username_from_user_id p user_id = elim (p.id_to_user user_id) [
  | none ↦ []
  | some user_data ↦ user_data.persistent_data.username
]

unfoldable pub add_pending_notification :
    UserPersistence → ℕ → PendingNotification → UserPersistence
add_pending_notification p user_id pending_notification = elim (p.id_to_user user_id) [
  | none ↦ p
  | some user_data ↦ record p {
    id_to_user = insert p.id_to_user user_id (record user_data {
      pending_notifications = user_data.pending_notifications ++ pending_notification ∷ [];
    });
  }
]

-- The list behind the pointer that the source returns, `none` for null.
unfoldable pub get_pending_notifications : UserPersistence → ℕ → Option (List PendingNotification)
get_pending_notifications p user_id = elim (p.id_to_user user_id) [
  | none ↦ none
  | some user_data ↦ some user_data.pending_notifications
]

unfoldable pub drain_pending_notifications :
    UserPersistence → ℕ → List PendingNotification × UserPersistence
drain_pending_notifications p user_id = elim (p.id_to_user user_id) [
  | none ↦ ([], p)
  | some user_data ↦ (
    user_data.pending_notifications,
    record p {
      id_to_user = insert p.id_to_user user_id (record user_data { pending_notifications = [] });
    },
  )
]
