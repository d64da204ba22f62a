-- ===== src/Server/Receiver.antt =====
-- `fn_server_listener` of server/server_receiver.cpp. What the system answers in a round is an
-- argument, a round after the other.
pub mod Order
use inf.Base.{Bool, List, [], eq_str, eq_ℕ, false, if◌then◌else◌, none, some, true, ◌++◌, ◌∷◌}
use inf.Server.Connections.{Address, eq_address}
use inf.Shared.Json.{Json}

module _ (J : Json) where
  -- What `recvfrom` and `getnameinfo` answer. The datagram is shorter than the buffer, which was
  -- cleared, so that nothing stands behind it.
  pub data Reception : Type 0 where
    recvfrom_fails : Reception
    getnameinfo_fails : (buffer : J.Text) → Reception
    received : (buffer : J.Text) (client_address : Address) → Reception

  -- A round: `must_terminate` as it is read at its start, and what is received if it goes on.
  pub record ReceiverRound : Type 0 where
    pub must_terminate : Bool
    pub reception : Reception

  abbrev pub ValueAddress : Type 0
  ValueAddress = J.Value × Address

  -- What a reception pushes to the receive queue.
  unfoldable pub push_received : List ValueAddress → Reception → List ValueAddress
  push_received receive_queue recvfrom_fails = receive_queue
  push_received receive_queue (getnameinfo_fails buffer) = receive_queue
  push_received receive_queue (received buffer client_address) = elim (J.parse buffer []) [
    | none ↦ receive_queue
    | some message_value ↦ receive_queue ++ (message_value, client_address) ∷ []
  ]

  -- The loop: all that is pushed, and whether the thread is left.
  unfoldable pub fn_server_listener :
      List ValueAddress → List ReceiverRound → List ValueAddress × Bool
  unfolding push_received
  fn_server_listener receive_queue [] = (receive_queue, false)
  fn_server_listener receive_queue (r ∷ rounds) =
      let rest = fn_server_listener (push_received receive_queue r.reception) rounds in
      if r.must_terminate then (receive_queue, true) else rest
