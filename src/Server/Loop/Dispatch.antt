-- ===== src/Server/Loop/Dispatch.antt =====
-- The main loop's switch: where the messages of an action go.
use inf.Base.{
  List, [], append-nil, append_assoc, arith, count, eq_str, eq_ℕ, if◌then◌else◌, nat_eq, sym, ℕ,
  ◌++◌, ◌∙◌, ◌∷◌, ◌≡◌, ◌≢◌,
}
use inf.Server.Connections.{
  Address, UserConnectionManager, eq_address, get_address_from_user, get_user_id_from_address,
}
use inf.Server.Connections.Invariant.{IsConsistent}
use inf.Server.Loop.{ServerMessage, dispatch, dispatch_action}
use inf.Server.Message.{ServerAction, ServerMessageData, action_message_user}
use inf.Shared.Ids.{invalid_user_id}

abbrev addresses : List ServerMessage → List Address
addresses [] = []
addresses (x ∷ xs) = x.address ∷ addresses xs

-- How often an address is among those that a list of messages goes to.
abbrev pub sent_to : Address → List ServerMessage → ℕ
sent_to a xs = count a (addresses xs)

module _ (c : UserConnectionManager) (v : IsConsistent c) where
  -- In a consistent state, a message for a proper user id goes once to each address whose lookup
  -- gives that user, and to no other.
  pub sent_to-dispatch_action :
      (u : ℕ) (message : ServerMessageData) (a : Address)
      → u ≢ invalid_user_id
      → sent_to a (dispatch_action c (action_message_user u message))
        ≡ (if nat_eq (get_user_id_from_address c a) u then 1 else 0)
  unfolding dispatch_action get_address_from_user get_user_id_from_address count
  sent_to-dispatch_action u message a proper = ground (arith, v.held a u, v.known a u, v.alive u)

-- What a list of actions is to send, in order.
abbrev pub messages : UserConnectionManager → List ServerAction → List ServerMessage
messages c [] = []
messages c (x ∷ xs) = dispatch_action c x ++ messages c xs

-- The send queue keeps what it has, and receives the messages of the actions in their order.
pub dispatch_lem :
    (c : UserConnectionManager) (q : List ServerMessage) (actions : List ServerAction)
    → dispatch c q actions ≡ q ++ messages c actions
unfolding dispatch
dispatch_lem c q [] = sym (append-nil q)
dispatch_lem c q (x ∷ xs) =
    dispatch_lem c (q ++ dispatch_action c x) xs
    ∙ append_assoc q (dispatch_action c x) (messages c xs)
