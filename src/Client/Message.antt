-- ===== src/Client/Message.antt =====
-- shared/client_message.h, shared/client_message.cpp: what a client sends. A payload is the memory of
-- the source's union of 128 bytes.
use inf.Base.{List, [], eq_str, eq_ℕ, ℕ, ◌∷◌}
use inf.Server.Connections.{eq_address}
use inf.Shared.Json.{Json, Members, int, string}
use inf.Shared.Memory.{read_c_string}

pub data ClientMsgType : Type 0 where
  client_login client_logout client_send client_follow : ClientMsgType

-- The enumerator's number, as it is sent.
abbrev pub client_type_number : ClientMsgType → ℕ
client_type_number client_login = 0
client_type_number client_logout = 1
client_type_number client_send = 2
client_type_number client_follow = 3

abbrev pub ClientMsgPayload : Type 0
ClientMsgPayload = List ℕ

abbrev pub client_payload_size : ℕ
client_payload_size = 128

pub record ClientMessageData : Type 0 where
  pub msg_id : ℕ
  pub msg_type : ClientMsgType
  pub payload : ClientMsgPayload

-- The members that `serialize` sets after the id and the type.
unfoldable pub client_payload_members : ClientMsgType → ClientMsgPayload → Members
client_payload_members client_logout payload = []
client_payload_members client_login payload = ("username", string (read_c_string payload 0)) ∷ []
client_payload_members client_follow payload = ("username", string (read_c_string payload 0)) ∷ []
client_payload_members client_send payload = ("send", string (read_c_string payload 0)) ∷ []

unfoldable pub client_members : ClientMessageData → Members
client_members message =
    ("msg_id", int message.msg_id)
    ∷ ("msg_type", int (client_type_number message.msg_type))
    ∷ client_payload_members message.msg_type message.payload

abbrev pub serialize_client_message : (J : Json) → ClientMessageData → J.Text
serialize_client_message J message = J.write (client_members message)
