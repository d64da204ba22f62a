-- ===== src/Examples/Sessions.antt =====
-- A client's session, and its login at a server.
use inf.Base.{
  All, List, Returns, Str, [], arith, eq_str, eq_ℕ, false, none, ok, refl, replicate, some, true, ℕ,
  ◌++◌, ◌∷◌, ◌≡◌,
}
use inf.Client.Input.{UserInput, follow_word, input_follow, input_quit, input_send, send_word}
use inf.Client.Login.{login_request}
use inf.Client.Login.Answer.{IsServed, try_login_lem}
use inf.Client.Message.{client_login, client_payload_size}
use inf.Client.Receiver.{fn_client_listener, fn_client_listener_lem, goes_on, reads}
use inf.Client.Session.{Round, clean_up, main_loop, new_client_main, read_server_message}
use inf.Client.Session.Reading.{meant, read_server_message_lem}
use inf.Client.Session.Requests.{IsFinished, IsRound, session_lem}
use inf.Client.Typing.{InputRound, fn_user_input}
use inf.Client.Typing.Lines.{IsInput, fn_user_input_lem}
use inf.Client.UserCommand.{
  CommandReach, CommandReach-IsAccounted, IsAccounted, UserCommand, no_commands, one_more,
  write_command,
}
use inf.Examples.{
  alice_address, bobby, bobby_address, datagram_json, datagram_json-RoundTrips, hello, no_time,
  send_value, sized, started, started-HasRoom, started-IsSound, uninitialised,
}
use inf.Server.Connections.{eq_address}
use inf.Server.Message.{
  ServerMessageData, follow_command_success, members, payload_members, send_command_success,
  serialize,
}
use inf.Server.Receiver.{ReceiverRound, received}
use inf.Shared.Json.{IsPlain, Members, int}
use inf.Shared.Memory.{c_string}

abbrev client_memory : List ℕ
client_memory = replicate client_payload_size 7

try_login_lem_example : Returns (login_request client_memory client_login bobby) (
    IsServed datagram_json datagram_json-RoundTrips no_time
      (replicate 511 7)
      refl
      (λ i ty. omega arith)
      client_memory
      refl
      uninitialised
      sized
      started
      started-IsSound
      started-HasRoom
      1000
      bobby_address
      bobby)
unfolding c_string
try_login_lem_example =
    try_login_lem datagram_json datagram_json-RoundTrips no_time (replicate 511 7) refl
      (λ i ty. omega arith) client_memory refl uninitialised sized started started-IsSound
      started-HasRoom 1000 bobby_address bobby (omega arith) (ground arith) (omega arith)

abbrev follow_reply : ServerMessageData
follow_reply = record { msg_id = 3; msg_type = follow_command_success; payload = bobby ++ 0 ∷ [] }

follow_reply-IsPlain : IsPlain (members no_time follow_reply)
unfolding members payload_members c_string
follow_reply-IsPlain = ground arith

read_server_message_lem_example :
    (v : Members) × ((behind : Str)
      → datagram_json.parse (serialize datagram_json no_time follow_reply) behind ≡ some v)
    × (read_server_message datagram_json v
        ≡ ok (meant no_time follow_command_success (bobby ++ 0 ∷ [])))
read_server_message_lem_example =
    read_server_message_lem datagram_json datagram_json-RoundTrips no_time follow_reply
      follow_reply-IsPlain

-- A reply, and then a shorter one.
abbrev short_reply : ServerMessageData
short_reply = record { msg_id = 4; msg_type = send_command_success; payload = uninitialised }

fn_client_listener_lem_example :
    fn_client_listener datagram_json (replicate 511 7 ++ 0 ∷ []) [] (
      reads datagram_json (
        serialize datagram_json no_time follow_reply
        ∷ serialize datagram_json no_time short_reply
        ∷ []))
    ≡ ok (members no_time follow_reply ∷ members no_time short_reply ∷ [], goes_on)
unfolding members payload_members
fn_client_listener_lem_example =
    fn_client_listener_lem datagram_json (replicate 511 7) []
      (serialize datagram_json no_time follow_reply
        ∷ serialize datagram_json no_time short_reply
        ∷ [])
      (members no_time follow_reply ∷ members no_time short_reply ∷ []) refl
      (omega arith, λ behind. refl, (omega arith, λ behind. refl, tt))

-- Somebody sends a message, follows bobby, tries to follow without a name, and leaves.
abbrev typed_rounds : List InputRound
typed_rounds =
    record { told_before = false; line = some (send_word ++ 32 ∷ hello); told_after = false }
    ∷ record {
      told_before = false;
      line = some (follow_word ++ 32 ∷ 64 ∷ bobby);
      told_after = false;
    }
    ∷ record { told_before = false; line = some follow_word; told_after = false }
    ∷ record { told_before = false; line = none; told_after = false }
    ∷ []

fn_user_input_lem_example :
    Returns (fn_user_input client_memory hello typed_rounds) λ t. IsInput hello t.0 t.1
fn_user_input_lem_example =
    fn_user_input_lem client_memory refl hello typed_rounds
      (omega arith, (omega arith, (omega arith, (tt, tt))))

-- A message is sent and confirmed, and then the user leaves.
abbrev session_rounds : List (Round datagram_json client_memory client_memory)
session_rounds =
    record { user_input = input_send (hello ++ 0 ∷ []); server_messages = [] }
    ∷ record {
      user_input = input_quit;
      server_messages = (("msg_id", int 1) ∷ ("msg_type", int 8) ∷ []) ∷ [];
    }
    ∷ []

session_rounds-IsRound :
    All (IsRound datagram_json client_memory client_memory refl refl) session_rounds
unfolding read_server_message c_string
session_rounds-IsRound = ((omega arith, tt), ((tt, (tt, tt)), tt))

session_lem_example :
    Returns
      (main_loop datagram_json client_memory client_memory new_client_main session_rounds)
      λ c.
        IsFinished datagram_json client_memory client_memory refl refl
          (clean_up datagram_json client_memory client_memory c)
session_lem_example =
    session_lem datagram_json client_memory client_memory refl refl session_rounds
      session_rounds-IsRound

-- One datagram before the listener is told to end, and one after it.
abbrev listener_rounds : List (ReceiverRound datagram_json)
listener_rounds =
    record { must_terminate = false; reception = received send_value alice_address }
    ∷ record { must_terminate = true; reception = received send_value bobby_address }
    ∷ []

-- The second command is written before the main loop has taken the first.
abbrev hello_typed : UserInput
hello_typed = input_send (hello ++ 0 ∷ [])

abbrev bobby_typed : UserInput
bobby_typed = input_follow (bobby ++ 0 ∷ [])

abbrev typed_twice : UserCommand
typed_twice = record {
  user_command = bobby_typed;
  quit_seen = false;
  written = hello_typed ∷ bobby_typed ∷ [];
  taken = [];
  replaced = hello_typed ∷ [];
}

typed_twice-CommandReach : CommandReach typed_twice
typed_twice-CommandReach =
    one_more (one_more no_commands (write_command hello_typed refl refl refl))
      (write_command bobby_typed refl refl refl)

CommandReach-IsAccounted_example : IsAccounted typed_twice
CommandReach-IsAccounted_example = CommandReach-IsAccounted typed_twice typed_twice-CommandReach
