-- ===== src/Examples.antt =====
-- A server with two users, loaded from the disk: alice, who is logged in, and bobby, who follows
-- alice. The witnesses start from it.
pub mod Clients
pub mod Disk
pub mod Handlers
pub mod Managers
pub mod Notifications
pub mod Queues
pub mod Readers
pub mod Restarts
pub mod Sessions
pub mod Workers
use inf.Server.Connections
use inf.Server.Persistence
use inf.Base.{
  Bool-cases, Option, Outcome, Returns, Str, [], ap, arith, contains, crash, eq_str, eq_ℕ, false,
  inl, inr, json_error, length, nat_eq, nat_eq_iff, none, ok, refl, replicate, some, str_eq,
  str_eq_iff, subst, total, true, ℕ, ◌%◌, ◌^◌, ◌∷◌, ◌≡◌,
}
use inf.Server.Connections.{
  Address, UserConnectionManager, add_or_update_user_address, eq_address, new_connection_manager,
}
use inf.Server.Connections.Invariant.{
  IsConsistent, add_or_update_user_address-IsConsistent, new_connection_manager-IsConsistent,
}
use inf.Server.Connections.Sessions.{owner}
use inf.Server.Handler.{ClientMessageHandler, Handled}
use inf.Server.Handler.Datagram.{IsReadable}
use inf.Server.Handler.Invariant.{HasRoom, IsSound}
use inf.Server.Handler.LoginAnswer.{user_id}
use inf.Server.Message.{ServerMsgPayload, payload_size}
use inf.Server.NotificationManager.{new_notification_manager}
use inf.Server.NotificationManager.Counts.{references}
use inf.Server.Persistence.{
  UserPersistence, UserPersistentData, get_followers, new_user_persistence,
}
use inf.Server.Persistence.Invariant.{IsPersistent, IsUser, IsUserData, IsWellFormed}
use inf.Shared.Atomic.Readers.{counted}
use inf.Shared.Atomic.Var.{write}
use inf.Shared.Json.{Field, Json, Members, RoundTrips, int, member, string}
use inf.Shared.Memory.{c_string}
use inf.Shared.Validation.{is_valid_ascii, is_valid_message, is_valid_username}

-- The texts that the run uses, as bytes.
abbrev pub alice : Str
alice = 97 ∷ 108 ∷ 105 ∷ 99 ∷ 101 ∷ []

abbrev pub bobby : Str
bobby = 98 ∷ 111 ∷ 98 ∷ 98 ∷ 121 ∷ []

abbrev pub hello : Str
hello = 104 ∷ 101 ∷ 108 ∷ 108 ∷ 111 ∷ []

abbrev pub alice_address : Address
alice_address = record { sin_port = 4000; sin_addr = 1 }

abbrev pub bobby_address : Address
bobby_address = record { sin_port = 4001; sin_addr = 1 }

abbrev pub uninitialised : ServerMsgPayload
uninitialised = replicate payload_size 7

pub sized : length uninitialised ≡ payload_size
sized = refl

-- The effect of a run that ended well.
abbrev pub handled : Outcome Handled → Handled → Handled
handled (ok t) s = t
handled (crash c) s = s

pub handled-ok :
    (m : Outcome Handled) (s : Handled) (P : Handled → Type 0) → Returns m P → m ≡ ok (handled m s)
handled-ok (ok t) s P r = refl
handled-ok (crash c) s P r = absurd r

pub handled-Returns :
    (m : Outcome Handled) (s : Handled) (P : Handled → Type 0) → Returns m P → P (handled m s)
handled-Returns (ok t) s P r = r
handled-Returns (crash c) s P r = absurd r

abbrev pub alice_data : UserPersistentData
alice_data = record { user_id = 1; username = alice; followed_by = 2 ∷ [] }

abbrev pub bobby_data : UserPersistentData
bobby_data = record { user_id = 2; username = bobby; followed_by = [] }

abbrev pub users : UserPersistence
unfolding new_user_persistence
users = new_user_persistence (alice_data ∷ bobby_data ∷ []) (some [])

alice-IsPersistent : IsPersistent users 1 alice_data
unfolding new_user_persistence Persistence.user_id_exists is_valid_username is_valid_ascii contains
    str_eq
alice-IsPersistent = (omega arith, omega arith, refl, refl, refl, (refl, tt), refl, (refl, tt))

bobby-IsPersistent : IsPersistent users 2 bobby_data
unfolding new_user_persistence Persistence.user_id_exists is_valid_username is_valid_ascii contains
    str_eq
bobby-IsPersistent = (omega arith, omega arith, refl, refl, refl, tt, refl, tt)

users_data : (u : ℕ) → IsUserData users u (users.id_to_user u)
unfolding new_user_persistence
users_data u = elim (Bool-cases (nat_eq 2 u)) [
  | inl second ↦
      subst (λ (w : ℕ). IsUserData users w (users.id_to_user w)) ((nat_eq_iff 2 u).0 second)
        bobby-IsPersistent
  | inr other ↦ elim (Bool-cases (nat_eq 1 u)) [
    | inl same ↦
        subst (λ (w : ℕ). IsUserData users w (users.id_to_user w)) ((nat_eq_iff 1 u).0 same)
          alice-IsPersistent
    | inr neither ↦ ground arith
  ]
]

pub users-IsWellFormed : IsWellFormed users
unfolding new_user_persistence
users-IsWellFormed = record {
  data_ok = users_data;
  named = λ n u h. ground (arith, str_eq_iff alice n, str_eq_iff bobby n);
  small = omega arith;
}

abbrev pub connections : UserConnectionManager
connections = add_or_update_user_address new_connection_manager 1 alice_address

pub connections-IsConsistent : IsConsistent connections
connections-IsConsistent =
    add_or_update_user_address-IsConsistent new_connection_manager
      new_connection_manager-IsConsistent 1 alice_address (omega arith) (inl refl)

abbrev pub started : ClientMessageHandler
started = record {
  user_persistence = users;
  connection_manager = connections;
  notification_manager = new_notification_manager;
}

pub no_references : (id : ℕ) → references users id ≡ 0
unfolding references new_user_persistence total
no_references id = refl

pub started-IsSound : IsSound started
started-IsSound = record {
  users = users-IsWellFormed;
  sessions = connections-IsConsistent;
  counts = record {
    counted = λ id. omega (arith, no_references id);
    bounded = λ id h. refl;
    id_small = omega arith;
  };
  linked = λ u on.
      unfold Connections.user_id_exists add_or_update_user_address Persistence.user_id_exists
        new_user_persistence in
      ground arith;
}

pub started-HasRoom : HasRoom started
unfolding new_user_persistence
started-HasRoom = record { user_room = omega arith; notification_room = omega arith }

pub bobby_follows : contains 2 (get_followers users 1) ≡ true
unfolding contains get_followers new_user_persistence
bobby_follows = refl

pub bobby_offline : Connections.user_id_exists connections 2 ≡ false
unfolding Connections.user_id_exists add_or_update_user_address
bobby_offline = refl

pub bobby_address_free : owner connections bobby_address ≡ none
unfolding add_or_update_user_address
bobby_address_free = refl

pub alice_is_user : IsUser users 1
unfolding Persistence.user_id_exists new_user_persistence
alice_is_user = refl

pub bobby_is_user : IsUser users 2
unfolding Persistence.user_id_exists new_user_persistence
bobby_is_user = refl

-- An object's members stand for a JSON value; a missing one reads as 0 or as the empty text.
abbrev as_int : Option Field → Outcome ℕ
as_int none = ok 0
as_int (some (int n)) = ok (n % 2 ^ 32)
as_int (some (string s)) = crash json_error

abbrev as_string : Option Field → Outcome Str
as_string none = ok []
as_string (some (int n)) = crash json_error
as_string (some (string s)) = ok s

abbrev pub datagram_json : Json
datagram_json = record {
  Value = Members;
  Text = Members;
  bytes = λ text. replicate (length text) 32;
  as_int = λ v key. as_int (member v key);
  as_string = λ v key. as_string (member v key);
  write = λ ms. ms;
  parse = λ text behind. some text;
}

pub datagram_json-RoundTrips : RoundTrips datagram_json
datagram_json-RoundTrips = record {
  parsed = λ ms. ms;
  parse_write = λ ms behind plain. refl;
  int_member = λ ms key n plain e. ap as_int e;
  text_member = λ ms key s plain e. ap as_string e;
}

-- Alice's message.
abbrev pub send_value : Members
send_value = ("msg_id", int 1) ∷ ("msg_type", int 2) ∷ ("send", string hello) ∷ []

pub send_value-IsReadable : IsReadable datagram_json send_value
unfolding c_string
send_value-IsReadable = record {
  id_read = tt;
  type_read = tt;
  username_read = omega arith;
  send_read = tt;
}

pub hello-valid : is_valid_message hello ≡ true
unfolding is_valid_message is_valid_ascii
hello-valid = refl

-- What stands for `ctime`.
abbrev pub no_time : ℕ → Str
no_time t = []
