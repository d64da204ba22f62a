-- ===== src/Server/Message.antt =====
-- shared/shared_server_msg.h, server/server_message.h, server/server_message.cpp and
-- server/server_action.h: messages for clients, and the actions that handlers ask of the server.
-- A payload is the memory of the source's union, written by `strcpy` and read by `serialize`.
pub mod Payload
use Prim.Native.String.{String}
use inf.Base.{List, Outcome, Str, [], drop, eq_str, eq_ℕ, ok, replicate, take, ℕ, ◌>>=◌, ◌∷◌}
use inf.Server.Connections.{Address, eq_address}
use inf.Shared.Json.{Json, Members, int, string}
use inf.Shared.Memory.{of_bytes, read_c_string, strcpy, to_bytes, write_at}

pub data ServerMsgType : Type 0 where
  login_success login_fail_invalid_username login_fail_too_many_sessions : ServerMsgType
  login_fail_already_connected_to_different_user server_send_command : ServerMsgType
  follow_command_fail follow_command_success send_command_fail send_command_success : ServerMsgType

-- The enumerator's number, as it is sent.
abbrev pub type_number : ServerMsgType → ℕ
type_number login_success = 0
type_number login_fail_invalid_username = 1
type_number login_fail_too_many_sessions = 2
type_number login_fail_already_connected_to_different_user = 3
type_number server_send_command = 4
type_number follow_command_fail = 5
type_number follow_command_success = 6
type_number send_command_fail = 7
type_number send_command_success = 8

-- `ServerMsgPayload`: `username` of 20 bytes, or `message` with `username` (20 bytes), `body` (128
-- bytes), 4 bytes of padding and `timestap` (8 bytes).
abbrev pub ServerMsgPayload : Type 0
ServerMsgPayload = List ℕ

abbrev pub payload_size : ℕ
payload_size = 160

abbrev pub body_offset : ℕ
body_offset = 20

abbrev pub timestap_offset : ℕ
timestap_offset = 152

-- `ServerMessageData{msg_id, type}`: the payload that is not given is zero.
unfoldable pub zero_payload : ServerMsgPayload
zero_payload = replicate payload_size 0

pub record ServerMessageData : Type 0 where
  pub msg_id : ℕ
  pub msg_type : ServerMsgType
  pub payload : ServerMsgPayload

pub data ServerAction : Type 0 where
  action_message_user : (user_id : ℕ) → (message : ServerMessageData) → ServerAction
  action_message_address : (address : Address) → (message : ServerMessageData) → ServerAction

-- `payload.username` and `payload.message` of an uninitialised payload, filled as the handlers do.
unfoldable pub username_payload : ServerMsgPayload → Str → Outcome ServerMsgPayload
username_payload uninitialised username = strcpy uninitialised 0 username

unfoldable pub message_payload : ServerMsgPayload → Str → Str → ℕ → Outcome ServerMsgPayload
message_payload uninitialised username body timestamp = do
  named ← strcpy uninitialised 0 username
  filled ← strcpy named body_offset body
  ok (write_at filled timestap_offset (to_bytes 8 timestamp))

-- What `serialize` reads of a payload.
abbrev pub payload_username : ServerMsgPayload → Str
payload_username payload = read_c_string payload 0

abbrev pub payload_body : ServerMsgPayload → Str
payload_body payload = read_c_string payload body_offset

abbrev pub payload_timestap : ServerMsgPayload → ℕ
payload_timestap payload = of_bytes (take 8 (drop timestap_offset payload))

-- The members that `serialize` sets after the id and the type. `ctime` is the C library's.
unfoldable pub payload_members : (ℕ → Str) → ServerMsgType → ServerMsgPayload → Members
payload_members ctime server_send_command payload =
    ("username", string (payload_username payload))
    ∷ ("body", string (payload_body payload))
    ∷ ("time", string (ctime (payload_timestap payload)))
    ∷ []
payload_members ctime follow_command_fail payload =
    ("username", string (payload_username payload)) ∷ []
payload_members ctime follow_command_success payload =
    ("username", string (payload_username payload)) ∷ []
payload_members ctime _ payload = []

unfoldable pub members : (ℕ → Str) → ServerMessageData → Members
unfolding payload_members
members ctime message =
    ("msg_id", int message.msg_id)
    ∷ ("msg_type", int (type_number message.msg_type))
    ∷ payload_members ctime message.msg_type message.payload

abbrev pub serialize : (J : Json) → (ℕ → Str) → ServerMessageData → J.Text
serialize J ctime message = J.write (members ctime message)
