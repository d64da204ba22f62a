-- ===== src/Server/Handler.antt =====
-- server/client_message_handler.h, server/client_message_handler.cpp: what a client's datagram does
-- to the three managers, and the actions that it asks for. `pending_actions` is appended to. A run
-- ends in a crash where an accessor of jsoncpp throws or a copy leaves its payload. The clock and
-- the contents of uninitialised payloads are arguments.
pub mod Delivery
pub mod Invariant
pub mod LoginUsers
pub mod Login
pub mod LoginAnswer
pub mod Follow
pub mod Publish
pub mod Send
pub mod Datagram
pub mod FirstLogin
pub mod OfflineMessage
use inf.Server.Persistence
use inf.Server.Connections
use inf.Server.NotificationManager
use inf.Base.{
  List, Option, Outcome, Str, [], eq_str, eq_ℕ, if◌then◌else◌, nat_eq, none, not, null, ok, some,
  str_eq, ℕ, ◌&&◌, ◌++◌, ◌>>=◌, ◌∷◌,
}
use inf.Server.Connections.{
  Address, UserConnectionManager, add_or_update_user_address, address_exists, eq_address,
  get_next_msg_id, get_user_id_from_address, remove_address, session_available,
}
use inf.Server.Message.{
  ServerAction, ServerMsgPayload, ServerMsgType, action_message_address, action_message_user,
  follow_command_fail, follow_command_success, login_fail_already_connected_to_different_user,
  login_fail_invalid_username, login_fail_too_many_sessions, login_success, message_payload,
  send_command_fail, send_command_success, server_send_command, username_payload, zero_payload,
}
use inf.Server.Notification.{Notification, PendingNotification, get_message, get_timestamp}
use inf.Server.NotificationManager.{
  NotificationManager, decrement_pending_users_from, get_notification,
}
use inf.Server.Persistence.{
  UserPersistence, add_or_update_user, drain_pending_notifications, get_followers,
}
use inf.Shared.Ids.{invalid_user_id}
use inf.Shared.Json.{Json}
use inf.Shared.Validation.{is_valid_message, is_valid_username}

pub record ClientMessageHandler : Type 0 where
  pub user_persistence : UserPersistence
  pub connection_manager : UserConnectionManager
  pub notification_manager : NotificationManager

-- A handler's effect: the managers and the pending actions after it.
abbrev pub Handled : Type 0
Handled = ClientMessageHandler × List ServerAction

abbrev pub message_user : ℕ → ℕ → ServerMsgType → ServerMsgPayload → ServerAction
message_user user_id msg_id msg_type payload =
    action_message_user user_id (record { msg_id = msg_id; msg_type = msg_type; payload = payload })

abbrev pub message_address : Address → ℕ → ServerMsgType → ServerAction
message_address address msg_id msg_type =
    action_message_address address
      (record { msg_id = msg_id; msg_type = msg_type; payload = zero_payload })

-- The decision of `handle_follow_command`: the new users, and the type of the response.
unfoldable pub follow : UserPersistence → ℕ → Str → UserPersistence × ServerMsgType
follow p follower_user_id username =
    let followed_user_id = Persistence.get_user_id_from_username p username in
    if nat_eq followed_user_id invalid_user_id
    then (p, follow_command_fail)
    else if str_eq (Persistence.get_username_from_user_id p follower_user_id) username
    then (p, follow_command_fail)
    else (Persistence.add_follow p followed_user_id follower_user_id, follow_command_success)

-- A login's checks, in the source's order; `none` if it may go on.
unfoldable pub login_refusal : UserConnectionManager → ℕ → Address → Option ServerMsgType
login_refusal c user_id client_address =
    let address_linked_user_id = get_user_id_from_address c client_address in
    if Connections.user_id_exists c user_id && not (session_available c user_id)
    then some login_fail_too_many_sessions
    else if not (nat_eq address_linked_user_id invalid_user_id)
        && not (nat_eq address_linked_user_id user_id)
    then some login_fail_already_connected_to_different_user
    else none

module _ (uninitialised : ServerMsgPayload) where
  -- The body of the login's loop for a stored message that is found.
  unfoldable pub send_stored : ℕ → PendingNotification → Notification → Handled → Outcome Handled
  send_stored user_id pending_notification notification (h, pending_actions) =
      message_payload uninitialised
        (Persistence.get_username_from_user_id h.user_persistence pending_notification.user_id)
        (get_message notification) (get_timestamp notification)
      >>= λ payload.
          let next = get_next_msg_id h.connection_manager user_id in
          ok (
            record h {
              connection_manager = next.1;
              notification_manager =
                  decrement_pending_users_from h.notification_manager
                    pending_notification.notification_id;
            },
            pending_actions ++ message_user user_id next.0 server_send_command payload ∷ [],
          )

  unfoldable pub deliver_one : ℕ → Handled → PendingNotification → Outcome Handled
  unfolding send_stored
  deliver_one user_id s pending_notification =
      elim (get_notification s.0.notification_manager pending_notification.notification_id) [
        | none ↦ ok s
        | some notification ↦ send_stored user_id pending_notification notification s
      ]

  unfoldable pub deliver : ℕ → Handled → List PendingNotification → Outcome Handled
  unfolding deliver_one
  deliver user_id s [] = ok s
  deliver user_id s (pending_notification ∷ rest) =
      deliver_one user_id s pending_notification >>= λ s'. deliver user_id s' rest

  -- `handle_login` from the point at which the login has succeeded.
  unfoldable pub complete_login :
      ClientMessageHandler → List ServerAction → ℕ → Address → Outcome Handled
  unfolding deliver
  complete_login h pending_actions user_id client_address =
      let had_previous_session = Connections.user_id_exists h.connection_manager user_id in
      let next =
        get_next_msg_id (add_or_update_user_address h.connection_manager user_id client_address)
          user_id in
      let answered = pending_actions ++ message_address client_address next.0 login_success ∷ [] in
      let drained = drain_pending_notifications h.user_persistence user_id in
      if had_previous_session
      then ok (record h { connection_manager = next.1 }, answered)
      else deliver user_id
          (record h { connection_manager = next.1; user_persistence = drained.1 }, answered)
          drained.0

  -- A refused login is answered at the address, under the message id 0; any other goes through.
  unfoldable pub answer_login :
      ClientMessageHandler
      → List ServerAction
      → ℕ
      → Address
      → Option ServerMsgType
      → Outcome Handled
  unfolding complete_login
  answer_login h pending_actions user_id client_address (some response_type) =
      ok (h, pending_actions ++ message_address client_address 0 response_type ∷ [])
  answer_login h pending_actions user_id client_address none =
      complete_login h pending_actions user_id client_address

  -- `handle_login` for a valid username.
  unfoldable pub login_user :
      ClientMessageHandler → List ServerAction → Str → Address → Outcome Handled
  unfolding answer_login
  login_user h pending_actions username client_address =
      let added = add_or_update_user h.user_persistence username in
      answer_login (record h { user_persistence = added.1 }) pending_actions added.0 client_address
        (login_refusal h.connection_manager added.0 client_address)

  unfoldable pub login : ClientMessageHandler → List ServerAction → Str → Address → Outcome Handled
  unfolding login_user
  login h pending_actions username client_address =
      if not (is_valid_username username)
      then ok
          (h, pending_actions ++ message_address client_address 0 login_fail_invalid_username ∷ [])
      else login_user h pending_actions username client_address

  -- `handle_send_command` for a user's valid message: its followers are notified, if any.
  unfoldable pub publish : ClientMessageHandler → List ServerAction → ℕ → ℕ → Str → Outcome Handled
  publish h pending_actions now user_id sent =
      let followers = get_followers h.user_persistence user_id in
      if null followers
      then ok (h, pending_actions)
      else NotificationManager.add_notification uninitialised h.user_persistence
          h.connection_manager h.notification_manager pending_actions user_id now followers sent
        >>= λ r. ok (
          record { user_persistence = r.0; connection_manager = r.1; notification_manager = r.2 },
          r.3,
        )

  -- `handle_send_command` for a logged-in user. The reply's message id is taken first, and the
  -- reply is pushed last.
  unfoldable pub send_message :
      ClientMessageHandler → List ServerAction → ℕ → ℕ → Str → Outcome Handled
  unfolding publish
  send_message h pending_actions now user_id sent =
      let next = get_next_msg_id h.connection_manager user_id in
      let h' : ClientMessageHandler = record h { connection_manager = next.1 } in
      if not (is_valid_message sent)
      then ok
          (h', pending_actions ++ message_user user_id next.0 send_command_fail zero_payload ∷ [])
      else publish h' pending_actions now user_id sent >>= λ s.
          ok (s.0, s.1 ++ message_user user_id next.0 send_command_success zero_payload ∷ [])

  -- `handle_follow_command` for a logged-in user.
  unfoldable pub follow_username :
      ClientMessageHandler → List ServerAction → ℕ → Str → Outcome Handled
  unfolding follow
  follow_username h pending_actions follower_user_id username =
      let next = get_next_msg_id h.connection_manager follower_user_id in
      let followed = follow h.user_persistence follower_user_id username in
      username_payload uninitialised username >>= λ payload. ok (
        record h { connection_manager = next.1; user_persistence = followed.0 },
        pending_actions ++ message_user follower_user_id next.0 followed.1 payload ∷ [],
      )

unfoldable pub handle_logout : ClientMessageHandler → List ServerAction → Address → Outcome Handled
handle_logout h pending_actions client_address =
    if not (address_exists h.connection_manager client_address)
    then ok (h, pending_actions)
    else remove_address h.connection_manager client_address >>= λ c.
        ok (record h { connection_manager = c }, pending_actions)

-- The handlers that read the datagram, and the switch on its type.
module _ (J : Json) (uninitialised : ServerMsgPayload) where
  unfoldable pub handle_login :
      ClientMessageHandler → List ServerAction → J.Value → Address → Outcome Handled
  handle_login h pending_actions message_value client_address = do
    username ← J.as_string message_value "username"
    login uninitialised h pending_actions username client_address

  unfoldable pub handle_send_command :
      ClientMessageHandler → List ServerAction → ℕ → J.Value → Address → Outcome Handled
  handle_send_command h pending_actions now message_value client_address =
      let user_id = get_user_id_from_address h.connection_manager client_address in
      if nat_eq user_id invalid_user_id
      then ok (h, pending_actions)
      else J.as_string message_value "send" >>= λ sent.
          send_message uninitialised h pending_actions now user_id sent

  unfoldable pub handle_follow_command :
      ClientMessageHandler → List ServerAction → J.Value → Address → Outcome Handled
  handle_follow_command h pending_actions message_value client_address =
      let follower_user_id = get_user_id_from_address h.connection_manager client_address in
      if nat_eq follower_user_id invalid_user_id
      then ok (h, pending_actions)
      else J.as_string message_value "username" >>= λ username.
          follow_username uninitialised h pending_actions follower_user_id username

  -- `client_msg_id` is read first: its accessor may throw.
  unfoldable pub handle_incoming_datagram :
      ClientMessageHandler → List ServerAction → ℕ → J.Value → Address → Outcome Handled
  unfolding handle_login handle_send_command handle_follow_command
  handle_incoming_datagram h pending_actions now message_value client_address =
      J.as_int message_value "msg_id" >>= λ client_msg_id.
      J.as_int message_value "msg_type" >>= λ client_msg_type.
      if nat_eq client_msg_type 0
      then handle_login h pending_actions message_value client_address
      else if nat_eq client_msg_type 1
      then handle_logout h pending_actions client_address
      else if nat_eq client_msg_type 2
      then handle_send_command h pending_actions now message_value client_address
      else if nat_eq client_msg_type 3
      then handle_follow_command h pending_actions message_value client_address
      else ok (h, pending_actions)
