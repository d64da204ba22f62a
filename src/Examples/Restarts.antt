-- ===== src/Examples/Restarts.antt =====
-- A first run of the server, in which two users log in and one follows the other.
use inf.Server.Connections
use inf.Base.{List, Returns, [], arith, eq_str, eq_ℕ, refl, some, total, ℕ, ◌+◌, ◌<◌, ◌∷◌, ◌≡◌}
use inf.Examples.{alice, alice_address, alice_data, bobby, datagram_json, sized, uninitialised}
use inf.Examples.Disk.{alice-IsFileName, bobby-IsFileName}
use inf.Server.Connections.{eq_address, new_connection_manager}
use inf.Server.Connections.Invariant.{new_connection_manager-IsConsistent}
use inf.Server.Disk.{
  lines_from, load_and_update_persistent_data, load_files, update_users_on_disk, valid_usernames,
}
use inf.Server.Handler.{ClientMessageHandler}
use inf.Server.Loop.{Datagram, serve}
use inf.Server.Loop.Invariant.{CanServe}
use inf.Server.NotificationManager.{new_notification_manager}
use inf.Server.NotificationManager.Counts.{references}
use inf.Server.Persistence.{
  UserPersistence, UserPersistentData, add_follow, add_or_update_user, new_user_persistence,
}
use inf.Server.Restart.{
  History, empty_folder, first_run, followed, load_user_persistence, logged_in, user_limit,
}
use inf.Server.Restart.Runs.{History-IsKept, IsRestored, restart_lem}
use inf.Server.Restart.Service.{IsRestorable, IsStorableDatagram, serve-IsRestorable}
use inf.Shared.Json.{int, string}
use inf.Shared.Memory.{c_string}

abbrev first_users : UserPersistence
first_users = (load_user_persistence empty_folder).0

abbrev with_alice : UserPersistence
with_alice = (add_or_update_user first_users alice).1

abbrev with_bobby : UserPersistence
with_bobby = (add_or_update_user with_alice bobby).1

abbrev bobby_follows_alice : UserPersistence
bobby_follows_alice = add_follow with_bobby 1 2

first-History : History empty_folder bobby_follows_alice
unfolding load_user_persistence load_and_update_persistent_data new_user_persistence
    add_or_update_user lines_from valid_usernames load_files
first-History =
    followed 1 2
      (logged_in bobby (logged_in alice first_run alice-IsFileName (omega arith)) bobby-IsFileName
        (omega arith))
      (omega arith)

abbrev all_updates : List UserPersistentData
all_updates =
    record { user_id = 1; username = alice; followed_by = [] }
    ∷ record { user_id = 2; username = bobby; followed_by = [] }
    ∷ alice_data
    ∷ []

queued_updates : bobby_follows_alice.disk_managment ≡ some all_updates
unfolding load_user_persistence load_and_update_persistent_data new_user_persistence
    add_or_update_user lines_from valid_usernames load_files add_follow inf.Base.str_eq
    inf.Base.contains
queued_updates = refl

restart_lem_example :
    IsRestored bobby_follows_alice
      (load_user_persistence (update_users_on_disk empty_folder all_updates)).0
restart_lem_example =
    restart_lem empty_folder bobby_follows_alice all_updates first-History queued_updates

-- The server at its very first start, and a login of alice.
abbrev first_handler : ClientMessageHandler
first_handler = record {
  user_persistence = first_users;
  connection_manager = new_connection_manager;
  notification_manager = new_notification_manager;
}

first_references : (id : ℕ) → references first_users id ≡ 0
unfolding references load_user_persistence load_and_update_persistent_data new_user_persistence
    lines_from valid_usernames load_files total
first_references id = refl

first-CanServe : CanServe datagram_json uninitialised sized first_handler 1
unfolding load_user_persistence load_and_update_persistent_data new_user_persistence lines_from
    valid_usernames load_files Connections.user_id_exists
first-CanServe = record {
  sound = record {
    users = (History-IsKept empty_folder first_users first_run).sound;
    sessions = new_connection_manager-IsConsistent;
    counts = record {
      counted = λ id. omega (arith, first_references id);
      bounded = λ id h. refl;
      id_small = omega arith;
    };
    linked = λ u on. absurd cc;
  };
  user_room = omega arith;
  notification_room = omega arith;
}

abbrev alice_logs_in : Datagram datagram_json uninitialised
alice_logs_in = record {
  value = ("msg_id", int 0) ∷ ("msg_type", int 0) ∷ ("username", string alice) ∷ [];
  address = alice_address;
  now = 1000;
}

alice_logs_in-IsStorableDatagram :
    IsStorableDatagram datagram_json uninitialised sized empty_folder alice_logs_in
unfolding c_string
alice_logs_in-IsStorableDatagram = (
  (
    record { id_read = tt; type_read = tt; username_read = omega arith; send_read = tt },
    omega arith,
  ),
  λ valid. alice-IsFileName,
)

few_at_first : first_users.last_user_id + 1 + 3 < user_limit
unfolding load_user_persistence load_and_update_persistent_data new_user_persistence lines_from
    valid_usernames load_files
few_at_first = omega arith

serve-IsRestorable_example :
    Returns
      (serve datagram_json uninitialised (first_handler, []) (alice_logs_in ∷ []))
      λ t. IsRestorable datagram_json uninitialised sized empty_folder t.0.user_persistence
serve-IsRestorable_example =
    serve-IsRestorable datagram_json uninitialised sized empty_folder (first_handler, [])
      (alice_logs_in ∷ []) first_run first-CanServe few_at_first
      (alice_logs_in-IsStorableDatagram, tt)
