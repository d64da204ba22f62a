-- ===== src/Server/Sender.antt =====
-- server/server_sender.cpp: what the sender does with a message; its loop is in Server/Worker.
use inf.Base.{List, Str, [], eq_str, eq_ℕ, ℕ, ◌∷◌}
use inf.Server.Connections.{Address, eq_address}
use inf.Server.Loop.{ServerMessage}
use inf.Server.Message.{serialize}
use inf.Shared.Json.{Json}

module _ (J : Json) (ctime : ℕ → Str) where
  -- The datagram that `send_to_client` sends: where to, and its text.
  abbrev pub sent_datagram : ServerMessage → Address × J.Text
  sent_datagram message = (message.address, serialize J ctime message.message)

  -- The datagrams of a list of messages, in order. One that cannot be sent is passed over, which the
  -- sender only prints.
  unfoldable pub send_to_clients : List ServerMessage → List (Address × J.Text)
  send_to_clients [] = []
  send_to_clients (message ∷ message_queue) = sent_datagram message ∷ send_to_clients message_queue
