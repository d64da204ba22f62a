-- ===== src/Server/Loop.antt =====
-- server/server.cpp: the main loop, which handles the datagrams that were received and puts a message
-- into the send queue for each action. A round's datagrams are those that one drain of the receive
-- queue returns; the clock's value at each is part of it.
pub mod Dispatch
pub mod Invariant
use inf.Base.{List, Option, Outcome, [], eq_str, eq_ℕ, none, ok, some, ℕ, ◌++◌, ◌>>=◌, ◌∷◌}
use inf.Server.Connections.{Address, UserConnectionManager, eq_address, get_address_from_user}
use inf.Server.Handler.{ClientMessageHandler, handle_incoming_datagram}
use inf.Server.Message.{
  ServerAction, ServerMessageData, ServerMsgPayload, action_message_address, action_message_user,
}
use inf.Shared.Json.{Json}

pub record ServerMessage : Type 0 where
  pub address : Address
  pub message : ServerMessageData

-- The push for a session, unless its pointer is null.
abbrev pub to_session : Option Address → ServerMessageData → List ServerMessage
to_session none message = []
to_session (some session) message = record { address = session; message = message } ∷ []

-- The switch on an action's type: what is pushed for it.
unfoldable pub dispatch_action : UserConnectionManager → ServerAction → List ServerMessage
dispatch_action c (action_message_user user_id message) =
    let address_tuple = get_address_from_user c user_id in
    to_session address_tuple.0 message ++ to_session address_tuple.1 message
dispatch_action c (action_message_address address message) =
    record { address = address; message = message } ∷ []

unfoldable pub dispatch :
    UserConnectionManager → List ServerMessage → List ServerAction → List ServerMessage
unfolding dispatch_action
dispatch c send_queue [] = send_queue
dispatch c send_queue (server_action ∷ pending_actions) =
    dispatch c (send_queue ++ dispatch_action c server_action) pending_actions

-- The managers, and the queue of the sender.
abbrev pub Served : Type 0
Served = ClientMessageHandler × List ServerMessage

module _ (J : Json) (uninitialised : ServerMsgPayload) where
  -- `ValueAddressTuple`, with the time at which it is handled.
  pub record Datagram : Type 0 where
    pub value : J.Value
    pub address : Address
    pub now : ℕ

  -- A datagram's round: the pending actions are empty before it, and cleared after it.
  unfoldable pub serve_datagram : Served → Datagram → Outcome Served
  unfolding dispatch
  serve_datagram s d =
      handle_incoming_datagram J uninitialised s.0 [] d.now d.value d.address >>= λ t.
      ok (t.0, dispatch t.0.connection_manager s.1 t.1)

  unfoldable pub serve : Served → List Datagram → Outcome Served
  unfolding serve_datagram
  serve s [] = ok s
  serve s (d ∷ rest) = serve_datagram s d >>= λ t. serve t rest
