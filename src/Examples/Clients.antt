-- ===== src/Examples/Clients.antt =====
-- The theorems on typed lines and on what comes of them at the server.
use inf.Base.{
  List, Returns, Str, [], arith, crash, eq_str, eq_ℕ, false, length, overrun, refl, replicate, some,
  str_eq, true, ℕ, ◌++◌, ◌∷◌, ◌≡◌,
}
use inf.Client.Arrival.{client_message_lem, handled_as}
use inf.Client.Commands.{
  Sends, follow_line_lem, follow_line_overruns, send_line_lem, send_line_overruns, typed_line,
}
use inf.Client.Input.{follow_word, send_word}
use inf.Client.Message.{
  ClientMessageData, client_follow, client_members, client_payload_members, client_payload_size,
  client_send, serialize_client_message,
}
use inf.Examples.{
  alice, alice_address, bobby, datagram_json, datagram_json-RoundTrips, hello, hello-valid, started,
  uninitialised,
}
use inf.Server.Connections.{eq_address}
use inf.Server.Handler.{handle_incoming_datagram}
use inf.Shared.Ids.{MsgIdManager, new_msg_id_manager}
use inf.Shared.Json.{IsPlain, Members, string}
use inf.Shared.Memory.{c_string, read_c_string}
use inf.Shared.Validation.{is_valid_ascii, is_valid_message, is_valid_username}

abbrev memory : List ℕ
memory = replicate client_payload_size 7

memory_size : length memory ≡ client_payload_size
memory_size = refl

abbrev first_ids : MsgIdManager
first_ids = new_msg_id_manager

send_line_lem_example :
    Returns
      (typed_line memory memory memory memory_size memory_size memory_size alice
        (send_word ++ 32 ∷ hello)
        first_ids)
      (Sends memory memory memory memory_size memory_size memory_size first_ids client_send
        (("send", string hello) ∷ []))
send_line_lem_example =
    send_line_lem memory memory memory memory_size memory_size memory_size alice hello first_ids
      hello-valid (omega arith)

abbrev long_text : Str
long_text = replicate 128 97

long_text-valid : is_valid_message long_text ≡ true
unfolding is_valid_message is_valid_ascii
long_text-valid = refl

send_line_overruns_example :
    typed_line memory memory memory memory_size memory_size memory_size alice
      (send_word ++ 32 ∷ long_text)
      first_ids
    ≡ crash overrun
send_line_overruns_example =
    send_line_overruns memory memory memory memory_size memory_size memory_size alice long_text
      first_ids long_text-valid refl

bobby-valid : is_valid_username bobby ≡ true
unfolding is_valid_username is_valid_ascii
bobby-valid = refl

bobby-other : str_eq bobby alice ≡ false
unfolding str_eq
bobby-other = refl

follow_line_lem_example :
    Returns
      (typed_line memory memory memory memory_size memory_size memory_size alice
        (follow_word ++ 32 ∷ 64 ∷ bobby)
        first_ids)
      (Sends memory memory memory memory_size memory_size memory_size first_ids client_follow
        (("username", string bobby) ∷ []))
follow_line_lem_example =
    follow_line_lem memory memory memory memory_size memory_size memory_size alice bobby first_ids
      bobby-valid bobby-other (omega arith)

abbrev full_name : Str
full_name = replicate 20 97

full_name-valid : is_valid_username full_name ≡ true
unfolding is_valid_username is_valid_ascii
full_name-valid = refl

full_name-other : str_eq full_name alice ≡ false
unfolding str_eq
full_name-other = refl

follow_line_overruns_example :
    typed_line memory memory memory memory_size memory_size memory_size alice
      (follow_word ++ 32 ∷ 64 ∷ full_name)
      first_ids
    ≡ crash overrun
follow_line_overruns_example =
    follow_line_overruns memory memory memory memory_size memory_size memory_size alice full_name
      first_ids full_name-valid full_name-other refl

-- Alice's message, with its text in memory.
abbrev hello_message : ClientMessageData
hello_message = record { msg_id = 1; msg_type = client_send; payload = hello ++ 0 ∷ [] }

hello_message-IsPlain : IsPlain (client_members hello_message)
unfolding client_members client_payload_members c_string
hello_message-IsPlain = ground arith

client_message_lem_example :
    (v : Members) × ((behind : Str)
      → datagram_json.parse (serialize_client_message datagram_json hello_message) behind ≡ some v)
    × (handle_incoming_datagram datagram_json uninitialised started [] 1000 v alice_address
        ≡ handled_as datagram_json datagram_json-RoundTrips uninitialised client_send
            (read_c_string (hello ++ 0 ∷ []) 0)
            started
            []
            1000
            alice_address)
client_message_lem_example =
    client_message_lem datagram_json datagram_json-RoundTrips uninitialised hello_message
      hello_message-IsPlain started [] 1000 alice_address
