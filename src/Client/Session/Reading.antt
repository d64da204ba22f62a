-- ===== src/Client/Session/Reading.antt =====
-- What the client reads of the messages that the server serializes.
use inf.Base.{Bool, Str, eq_str, eq_ℕ, false, ok, refl, some, true, ℕ, ◌%◌, ◌^◌, ◌≡◌}
use inf.Client.Session.{
  ServerLine, follow_rejected, follow_successful, invalid_server_type, read_server_message,
  read_typed, received_message, send_rejected, send_successful,
}
use inf.Server.Connections.{eq_address}
use inf.Server.Handler.{login}
use inf.Server.Message.{
  ServerMessageData, ServerMsgPayload, ServerMsgType, follow_command_fail, follow_command_success,
  login_fail_already_connected_to_different_user, login_fail_invalid_username,
  login_fail_too_many_sessions, login_success, members, payload_body, payload_members,
  payload_timestap, payload_username, send_command_fail, send_command_success, serialize,
  server_send_command, type_number,
}
use inf.Shared.Json.{IsPlain, Json, RoundTrips}

-- What a message of the server means to the client: the line for it, and whether it ends the program,
-- as a reply to a login does.
abbrev pub meant : (ℕ → Str) → ServerMsgType → ServerMsgPayload → ServerLine × Bool
meant ctime server_send_command p =
    (received_message (payload_username p) (payload_body p) (ctime (payload_timestap p)), false)
meant ctime follow_command_fail p = (follow_rejected (payload_username p), false)
meant ctime follow_command_success p = (follow_successful (payload_username p), false)
meant ctime send_command_fail p = (send_rejected, false)
meant ctime send_command_success p = (send_successful, false)
meant ctime login p = (invalid_server_type (type_number login), true)

module _ (J : Json) (R : RoundTrips J) (ctime : ℕ → Str) where
  abbrev message : ℕ → ServerMsgType → ServerMsgPayload → ServerMessageData
  message i ty p = record { msg_id = i; msg_type = ty; payload = p }

  abbrev value_of : ℕ → ServerMsgType → ServerMsgPayload → J.Value
  value_of i ty p = RoundTrips.parsed R (members ctime (message i ty p))

  abbrev IsPlainMessage : ℕ → ServerMsgType → ServerMsgPayload → Type 0
  IsPlainMessage i ty p = IsPlain (members ctime (message i ty p))

  id_lem :
      (i : ℕ) (ty : ServerMsgType) (p : ServerMsgPayload)
      → IsPlainMessage i ty p
      → J.as_int (value_of i ty p) "msg_id" ≡ ok (i % 2 ^ 32)
  unfolding members payload_members
  id_lem i server_send_command p plain = R.int_member _ "msg_id" i plain refl
  id_lem i follow_command_fail p plain = R.int_member _ "msg_id" i plain refl
  id_lem i follow_command_success p plain = R.int_member _ "msg_id" i plain refl
  id_lem i send_command_fail p plain = R.int_member _ "msg_id" i plain refl
  id_lem i send_command_success p plain = R.int_member _ "msg_id" i plain refl
  id_lem i login_success p plain = R.int_member _ "msg_id" i plain refl
  id_lem i login_fail_invalid_username p plain = R.int_member _ "msg_id" i plain refl
  id_lem i login_fail_too_many_sessions p plain = R.int_member _ "msg_id" i plain refl
  id_lem i login_fail_already_connected_to_different_user p plain =
      R.int_member _ "msg_id" i plain refl

  pub type_lem :
      (i : ℕ) (ty : ServerMsgType) (p : ServerMsgPayload)
      → IsPlainMessage i ty p
      → J.as_int (value_of i ty p) "msg_type" ≡ ok (type_number ty)
  unfolding members payload_members
  type_lem i server_send_command p plain =
      R.int_member _ "msg_type" (type_number server_send_command) plain refl
  type_lem i follow_command_fail p plain =
      R.int_member _ "msg_type" (type_number follow_command_fail) plain refl
  type_lem i follow_command_success p plain =
      R.int_member _ "msg_type" (type_number follow_command_success) plain refl
  type_lem i send_command_fail p plain =
      R.int_member _ "msg_type" (type_number send_command_fail) plain refl
  type_lem i send_command_success p plain =
      R.int_member _ "msg_type" (type_number send_command_success) plain refl
  type_lem i login_success p plain =
      R.int_member _ "msg_type" (type_number login_success) plain refl
  type_lem i login_fail_invalid_username p plain =
      R.int_member _ "msg_type" (type_number login_fail_invalid_username) plain refl
  type_lem i login_fail_too_many_sessions p plain =
      R.int_member _ "msg_type" (type_number login_fail_too_many_sessions) plain refl
  type_lem i login_fail_already_connected_to_different_user p plain =
      R.int_member _ "msg_type" (type_number login_fail_already_connected_to_different_user) plain
        refl

  typed_lem :
      (i : ℕ) (ty : ServerMsgType) (p : ServerMsgPayload)
      → IsPlainMessage i ty p
      → read_typed J (type_number ty) (value_of i ty p) ≡ ok (meant ctime ty p)
  unfolding read_typed members payload_members
  typed_lem i server_send_command p plain =
      rw (R.text_member _ "username" (payload_username p) plain refl) (
        rw (R.text_member _ "body" (payload_body p) plain refl)
          (rw (R.text_member _ "time" (ctime (payload_timestap p)) plain refl) refl))
  typed_lem i follow_command_fail p plain =
      rw (R.text_member _ "username" (payload_username p) plain refl) refl
  typed_lem i follow_command_success p plain =
      rw (R.text_member _ "username" (payload_username p) plain refl) refl
  typed_lem i send_command_fail p plain = refl
  typed_lem i send_command_success p plain = refl
  typed_lem i login_success p plain = refl
  typed_lem i login_fail_invalid_username p plain = refl
  typed_lem i login_fail_too_many_sessions p plain = refl
  typed_lem i login_fail_already_connected_to_different_user p plain = refl

  -- If jsoncpp reads back the ASCII that it writes, and the texts of a message that the server
  -- serializes are ASCII, what it writes is parsed, whatever stands behind it in the buffer, and
  -- the client reads from it the names, texts and times of its payload, as its type says; a reply
  -- to a login ends the client.
  pub read_server_message_lem :
      (m : ServerMessageData)
      → IsPlain (members ctime m)
      → (v : J.Value) × ((behind : Str) → J.parse (serialize J ctime m) behind ≡ some v)
        × (read_server_message J v ≡ ok (meant ctime m.msg_type m.payload))
  unfolding read_server_message
  read_server_message_lem m plain = (
    value_of m.msg_id m.msg_type m.payload,
    λ behind. R.parse_write (members ctime m) behind plain,
    rw (id_lem m.msg_id m.msg_type m.payload plain) (
        rw (type_lem m.msg_id m.msg_type m.payload plain)
          (typed_lem m.msg_id m.msg_type m.payload plain)),
  )
