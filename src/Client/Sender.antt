-- ===== src/Client/Sender.antt =====
-- `fn_client_sender` of client/client_sender.cpp. A write that fails ends the process; the runs here
-- are those in which none does.
pub mod Order
use inf.Base.{Bool, List, [], eq_str, eq_ℕ, false, if◌then◌else◌, true, ◌++◌, ◌||◌, ◌∷◌}
use inf.Client.Message.{ClientMessageData, ClientMsgType, client_logout, serialize_client_message}
use inf.Server.Connections.{eq_address}
use inf.Shared.Json.{Json}

abbrev pub is_logout : ClientMsgType → Bool
is_logout client_logout = true
is_logout _ = false

-- What was written, and `must_terminate`.
pub record SenderState (J : Json) : Type 0 where
  pub written : List J.Text
  pub must_terminate : Bool

module _ (J : Json) where
  abbrev pub new_sender : SenderState J
  new_sender = record { written = []; must_terminate = false }

  -- The loop over what was drained.
  unfoldable pub send_batch : SenderState J → List ClientMessageData → SenderState J
  send_batch s [] = s
  send_batch s (message ∷ message_queue) =
      send_batch
        (record {
          written = s.written ++ serialize_client_message J message ∷ [];
          must_terminate = s.must_terminate || is_logout message.msg_type;
        })
        message_queue

  -- The thread, over what its drains return one after the other: its state, and whether it is left.
  unfoldable pub fn_client_sender :
      SenderState J → List (List ClientMessageData) → SenderState J × Bool
  unfolding send_batch
  fn_client_sender s [] = (s, false)
  fn_client_sender s (message_queue ∷ drains) =
      let t = send_batch s message_queue in
      let rest = fn_client_sender t drains in if t.must_terminate then (t, true) else rest
