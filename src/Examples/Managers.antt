-- ===== src/Examples/Managers.antt =====
-- The managers' theorems at the example server.
use inf.Server.Connections
use inf.Base.{Returns, arith, eq_str, eq_ℕ, if◌then◌else◌, inl, nat_eq, refl, true, ◌+◌, ◌<◌, ◌≡◌}
use inf.Examples.{
  alice_address, bobby, bobby_address, bobby_address_free, connections, connections-IsConsistent,
  users, users-IsWellFormed,
}
use inf.Server.Connections.{
  add_or_update_user_address, eq_address, get_user_id_from_address, remove_address,
}
use inf.Server.Connections.Invariant.{
  IsConsistent, add_or_update_user_address-IsConsistent, remove_address-IsConsistent,
}
use inf.Server.Loop.{dispatch_action}
use inf.Server.Loop.Dispatch.{sent_to, sent_to-dispatch_action}
use inf.Server.Message.{ServerMessageData, action_message_user, login_success, zero_payload}
use inf.Server.Persistence.{add_or_update_user, new_user_persistence}
use inf.Server.Persistence.Invariant.{IsWellFormed, add_or_update_user-IsWellFormed}
use inf.Shared.Ids.{int_limit}
use inf.Shared.Validation.{is_valid_ascii, is_valid_username}

add_or_update_user_address-IsConsistent_example :
    IsConsistent (add_or_update_user_address connections 2 bobby_address)
add_or_update_user_address-IsConsistent_example =
    add_or_update_user_address-IsConsistent connections connections-IsConsistent 2 bobby_address
      (omega arith) (inl bobby_address_free)

remove_address-IsConsistent_example :
    Returns (remove_address connections alice_address) IsConsistent
remove_address-IsConsistent_example =
    remove_address-IsConsistent connections connections-IsConsistent alice_address

alice_connected : Connections.user_id_exists connections 1 ≡ true
unfolding add_or_update_user_address Connections.user_id_exists
alice_connected = refl

abbrev greeting : ServerMessageData
greeting = record { msg_id = 1; msg_type = login_success; payload = zero_payload }

sent_to-dispatch_action_example :
    sent_to alice_address (dispatch_action connections (action_message_user 1 greeting))
    ≡ (if nat_eq (get_user_id_from_address connections alice_address) 1 then 1 else 0)
sent_to-dispatch_action_example =
    sent_to-dispatch_action connections connections-IsConsistent 1 greeting alice_address
      (omega arith)

bobby-valid : is_valid_username bobby ≡ true
unfolding is_valid_username is_valid_ascii
bobby-valid = refl

few_users : users.last_user_id + 1 < int_limit
unfolding new_user_persistence
few_users = omega arith

add_or_update_user-IsWellFormed_example : IsWellFormed (add_or_update_user users bobby).1
add_or_update_user-IsWellFormed_example =
    add_or_update_user-IsWellFormed users users-IsWellFormed bobby bobby-valid few_users
