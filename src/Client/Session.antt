-- ===== src/Client/Session.antt =====
-- The main loop of client/client.cpp: the typed commands and the server's messages, round by round,
-- and the clean-up. `user_command` is reset where it is read, so that a round's command is an
-- argument; the messages of a round are what one drain of the receive queue returns.
pub mod Delivered
pub mod Texts
pub mod Reading
pub mod Requests
use inf.Base.{
  Bool, List, Option, Outcome, Str, [], eq_str, eq_ℕ, false, if◌then◌else◌, nat_eq, none, ok, some,
  true, ℕ, ◌++◌, ◌>>=◌, ◌||◌, ◌∷◌,
}
use inf.Client.Input.{UserInput, handle_user_input}
use inf.Client.Message.{ClientMessageData, client_logout}
use inf.Server.Connections.{eq_address}
use inf.Shared.Ids.{MsgIdManager, new_msg_id_manager, next_msg_id}
use inf.Shared.Json.{Json}

-- What is printed of a message of the server.
pub data ServerLine : Type 0 where
  received_message : (username body time : Str) → ServerLine
  follow_rejected : (username : Str) → ServerLine
  follow_successful : (username : Str) → ServerLine
  send_rejected : ServerLine
  send_successful : ServerLine
  invalid_server_type : (server_msg_type : ℕ) → ServerLine

module _ (J : Json) where
  -- The switch on the type of the server's message: what is printed, and whether the program is to
  -- finish for it.
  unfoldable pub read_typed : ℕ → J.Value → Outcome (ServerLine × Bool)
  read_typed server_msg_type message_value =
      if nat_eq server_msg_type 4
      then (do
        username ← J.as_string message_value "username"
        body ← J.as_string message_value "body"
        time ← J.as_string message_value "time"
        ok (received_message username body time, false))
      else if nat_eq server_msg_type 5
      then (do
        username ← J.as_string message_value "username"
        ok (follow_rejected username, false))
      else if nat_eq server_msg_type 6
      then (do
        username ← J.as_string message_value "username"
        ok (follow_successful username, false))
      else if nat_eq server_msg_type 7
      then ok (send_rejected, false)
      else if nat_eq server_msg_type 8
      then ok (send_successful, false)
      else ok (invalid_server_type server_msg_type, true)

  unfoldable pub read_server_message : J.Value → Outcome (ServerLine × Bool)
  unfolding read_typed
  read_server_message message_value = J.as_int message_value "msg_id" >>= λ server_msg_id.
      J.as_int message_value "msg_type" >>= λ server_msg_type.
      read_typed server_msg_type message_value

  -- The loop over the drained messages: what is printed, and `finish_program` after it.
  unfoldable pub read_server_messages :
      List J.Value → List ServerLine → Bool → Outcome (List ServerLine × Bool)
  unfolding read_server_message
  read_server_messages [] lines finish_program = ok (lines, finish_program)
  read_server_messages (message_value ∷ rest) lines finish_program =
      read_server_message message_value >>= λ r.
      read_server_messages rest (lines ++ r.0 ∷ []) (finish_program || r.1)

-- The locals of `main`, all that it pushed to the send queue, and what it printed.
pub record ClientMain : Type 0 where
  pub msg_id_manager : MsgIdManager
  pub send_queue : List ClientMessageData
  pub finish_program : Bool
  pub lines : List ServerLine

abbrev pub new_client_main : ClientMain
new_client_main = record {
  msg_id_manager = new_msg_id_manager;
  send_queue = [];
  finish_program = false;
  lines = [];
}

abbrev pub push_message : List ClientMessageData → Option ClientMessageData → List ClientMessageData
push_message send_queue none = send_queue
push_message send_queue (some message) = send_queue ++ message ∷ []

module _ (J : Json) (uninitialised_text uninitialised : List ℕ) where
  -- A round's command and messages.
  pub record Round : Type 0 where
    pub user_input : UserInput
    pub server_messages : List J.Value

  unfoldable pub main_round : ClientMain → Round → Outcome ClientMain
  unfolding handle_user_input read_server_messages
  main_round c r =
      handle_user_input uninitialised_text uninitialised r.user_input c.msg_id_manager >>= λ t.
      read_server_messages J r.server_messages c.lines (c.finish_program || t.2) >>= λ s.
      ok (record {
        msg_id_manager = t.1;
        send_queue = push_message c.send_queue t.0;
        finish_program = s.1;
        lines = s.0;
      })

  -- The loop, over the rounds that the user and the server make; it is left when the program is to
  -- finish, or where the rounds end in an interruption.
  unfoldable pub main_loop : ClientMain → List Round → Outcome ClientMain
  unfolding main_round
  main_loop c [] = ok c
  main_loop c (r ∷ rest) =
      let next = main_round c r >>= λ c'. main_loop c' rest in
      if c.finish_program then ok c else next

  -- The clean-up's last message.
  unfoldable pub clean_up : ClientMain → ClientMain
  clean_up c = record c {
    msg_id_manager = (next_msg_id c.msg_id_manager).1;
    send_queue =
        c.send_queue
        ++ record {
          msg_id = (next_msg_id c.msg_id_manager).0;
          msg_type = client_logout;
          payload = uninitialised;
        }
          ∷ [];
  }
