-- ===== src/Client/Login.antt =====
-- client/login.cpp: the login request, and the reaction to the server's reply.
pub mod Answer
pub mod Reply
use inf.Base.{
  Bool, List, Option, Outcome, Str, eq_str, eq_ℕ, false, if◌then◌else◌, nat_eq, none, ok, some,
  true, ℕ, ◌>>=◌,
}
use inf.Client.Input.{request}
use inf.Client.Message.{
  ClientMessageData, ClientMsgPayload, ClientMsgType, serialize_client_message,
}
use inf.Server.Connections.{eq_address}
use inf.Shared.Buffer.{parse_buffer}
use inf.Shared.Json.{Json}
use inf.Shared.Memory.{strcpy}

-- The line that is printed of a reply.
pub data LoginLine : Type 0 where
  parse_error : LoginLine
  invalid_username : LoginLine
  too_many_sessions : LoginLine
  already_connected : LoginLine
  login_successful : LoginLine
  invalid_type : ℕ → LoginLine

-- The switch on the type of the reply, and what `try_login` returns.
unfoldable pub login_reaction : ℕ → Bool × LoginLine
login_reaction server_msg_type =
    if nat_eq server_msg_type 1
    then (false, invalid_username)
    else if nat_eq server_msg_type 2
    then (false, too_many_sessions)
    else if nat_eq server_msg_type 3
    then (false, already_connected)
    else if nat_eq server_msg_type 0
    then (true, login_successful)
    else (false, invalid_type server_msg_type)

module _ (J : Json) where
  -- What follows the write of a text and a read into `buffer`: `none` where either fails, which ends
  -- the process.
  unfoldable pub read_reply : List ℕ → Option J.Text → Outcome (Option (Bool × LoginLine))
  read_reply buffer none = ok none
  read_reply buffer (some datagram) =
      parse_buffer J buffer datagram >>= λ (parsed : Option J.Value).
      elim parsed as (λ _. Outcome (Option (Bool × LoginLine))) [
        | none ↦ ok (some (false, parse_error))
        | some message_value ↦ J.as_int message_value "msg_type" >>= λ server_msg_type.
            ok (some (login_reaction server_msg_type))
      ]

module _ (uninitialised : ClientMsgPayload) where
  unfoldable pub login_request : ClientMsgType → Str → Outcome ClientMessageData
  login_request msg_type username = strcpy uninitialised 0 username >>= λ payload.
      ok (record { msg_id = 0; msg_type = msg_type; payload = payload })

module _ (J : Json) (uninitialised : ClientMsgPayload) where
  -- The connection answers a text that is written with a text that is read, if neither fails.
  unfoldable pub try_login :
      ClientMsgType → Str → List ℕ → (J.Text → Option J.Text) → Outcome (Option (Bool × LoginLine))
  unfolding login_request read_reply
  try_login msg_type username buffer connection =
      login_request uninitialised msg_type username >>= λ request.
      read_reply J buffer (connection (serialize_client_message J request))
