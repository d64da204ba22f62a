-- ===== src/Server/Connections.antt =====
-- server/user_connection.h, server/user_connection.cpp and server/hashing.cpp: which addresses are
-- logged in for which user, two sessions at most. A session pointer is an optional address: every
-- pointer of the source owns its own copy of the address.
pub mod Invariant
pub mod Sessions
use inf.Base.{
  Bool, Eq, Map, Option, Outcome, arith, empty_map, eq_str, eq_ℕ, erase, false, if◌then◌else◌,
  insert, is_some, nat_eq, none, not, ok, or_crash, out_of_range, some, true, ℕ, ◌&&◌, ◌==◌, ◌>>=◌,
  ◌||◌, ◌↔◌, ◌≡◌,
}
use inf.Shared.Ids.{increment, invalid_user_id}

pub record Address : Type 0 where
  pub sin_port : ℕ
  pub sin_addr : ℕ

-- `operator==` of hashing.cpp.
abbrev pub address_eq : Address → Address → Bool
address_eq lhs rhs = nat_eq lhs.sin_port rhs.sin_port && nat_eq lhs.sin_addr rhs.sin_addr

pub address_eq_iff : (a b : Address) → (address_eq a b ≡ true) ↔ (a ≡ b)
address_eq_iff a b = ground arith

instance abbrev pub eq_address : Eq Address
eq_address = record { beq = address_eq; beq_iff = address_eq_iff }

pub record UserConnectionData : Type 0 where
  pub user_id : ℕ
  pub session_one : Option Address
  pub session_two : Option Address
  pub last_msg_id : ℕ

pub record UserConnectionManager : Type 0 where
  pub user_id_to_connection_data : Map ℕ UserConnectionData
  pub address_to_user_id : Map Address ℕ

abbrev pub new_connection_manager : UserConnectionManager
new_connection_manager = record {
  user_id_to_connection_data = empty_map;
  address_to_user_id = empty_map;
}

-- The session pointer is not null and its address is the given one.
abbrev pub session_is : Option Address → Address → Bool
session_is none a = false
session_is (some b) a = b == a

unfoldable pub user_id_exists : UserConnectionManager → ℕ → Bool
user_id_exists m user_id = is_some (m.user_id_to_connection_data user_id)

unfoldable pub session_available : UserConnectionManager → ℕ → Bool
session_available m user_id = elim (m.user_id_to_connection_data user_id) [
  | none ↦ false
  | some connection_data ↦
      not (is_some connection_data.session_one) || not (is_some connection_data.session_two)
]

unfoldable pub address_exists : UserConnectionManager → Address → Bool
address_exists m address = is_some (m.address_to_user_id address)

-- The tail of `add_or_update_user_address`, for a user that has connection data.
unfoldable pub add_session :
    UserConnectionManager → ℕ → UserConnectionData → Address → UserConnectionManager
add_session m user_id connection_data new_address =
    if session_is connection_data.session_one new_address
      || session_is connection_data.session_two new_address
    then m
    else if is_some connection_data.session_one && is_some connection_data.session_two
    then m
    else record {
      user_id_to_connection_data = insert m.user_id_to_connection_data user_id (
          if not (is_some connection_data.session_one)
          then record connection_data { session_one = some new_address }
          else record connection_data { session_two = some new_address });
      address_to_user_id = insert m.address_to_user_id new_address user_id;
    }

unfoldable pub add_or_update_user_address :
    UserConnectionManager → ℕ → Address → UserConnectionManager
unfolding add_session
add_or_update_user_address m user_id new_address = elim (m.user_id_to_connection_data user_id) [
  | none ↦ record {
    user_id_to_connection_data = insert m.user_id_to_connection_data user_id (record {
      user_id = user_id;
      session_one = some new_address;
      session_two = none;
      last_msg_id = 0;
    });
    address_to_user_id = insert m.address_to_user_id new_address user_id;
  }
  | some connection_data ↦ add_session m user_id connection_data new_address
]

-- The end of `remove_address`: the address is forgotten, and the user with its last session.
unfoldable pub drop_session :
    UserConnectionManager → ℕ → UserConnectionData → Address → UserConnectionManager
drop_session m user_id connection_data address = record {
  user_id_to_connection_data =
      if not (is_some connection_data.session_one) && not (is_some connection_data.session_two)
      then erase m.user_id_to_connection_data user_id
      else insert m.user_id_to_connection_data user_id connection_data;
  address_to_user_id = erase m.address_to_user_id address;
}

-- The middle of `remove_address`: find the session that holds the address.
unfoldable pub close_session :
    UserConnectionManager → ℕ → UserConnectionData → Address → UserConnectionManager
unfolding drop_session
close_session m user_id connection_data address =
    if session_is connection_data.session_one address
    then drop_session m user_id (record connection_data { session_one = none }) address
    else if session_is connection_data.session_two address
    then drop_session m user_id (record connection_data { session_two = none }) address
    else m

-- `at` throws where a known address belongs to a user without connection data.
unfoldable pub remove_address : UserConnectionManager → Address → Outcome UserConnectionManager
unfolding close_session
remove_address m address = elim (m.address_to_user_id address) [
  | none ↦ ok m
  | some user_id ↦
      or_crash (m.user_id_to_connection_data user_id) out_of_range >>= λ connection_data.
      ok (close_session m user_id connection_data address)
]

unfoldable pub get_next_msg_id : UserConnectionManager → ℕ → ℕ × UserConnectionManager
get_next_msg_id m user_id = elim (m.user_id_to_connection_data user_id) [
  | none ↦ (0, m)
  | some connection_data ↦ (
    increment connection_data.last_msg_id,
    record m {
      user_id_to_connection_data =
          insert m.user_id_to_connection_data user_id
            (record connection_data { last_msg_id = increment connection_data.last_msg_id });
    },
  )
]

unfoldable pub get_address_from_user : UserConnectionManager → ℕ → Option Address × Option Address
get_address_from_user m user_id = elim (m.user_id_to_connection_data user_id) [
  | none ↦ (none, none)
  | some connection_data ↦ (connection_data.session_one, connection_data.session_two)
]

unfoldable pub get_user_id_from_address : UserConnectionManager → Address → ℕ
get_user_id_from_address m address = elim (m.address_to_user_id address) [
  | none ↦ invalid_user_id
  | some user_id ↦ user_id
]
