-- ===== src/Examples/Handlers.antt =====
-- The handlers' and the main loop's theorems at the example server.
use inf.Base.{
  Returns, Str, [], arith, contains, crash, eq_str, eq_ℕ, if◌then◌else◌, nat_eq, none, not, ok,
  overrun, refl, replicate, ◌&&◌, ◌++◌, ◌==◌, ◌∙◌, ◌∷◌, ◌≡◌,
}
use inf.Client.Session.Delivered.{IsPrintedAt, offline_follower_reads}
use inf.Examples.{
  alice_address, alice_is_user, bobby, bobby_address, bobby_address_free, bobby_follows,
  bobby_is_user, bobby_offline, connections, datagram_json, datagram_json-RoundTrips, handled,
  handled-Returns, handled-ok, hello, hello-valid, no_time, send_value, send_value-IsReadable,
  sized, started, started-HasRoom, started-IsSound, uninitialised, users, users-IsWellFormed,
}
use inf.Server.Connections.{Address, eq_address, get_next_msg_id}
use inf.Server.Connections.Sessions.{owner}
use inf.Server.Handler.{
  ClientMessageHandler, Handled, follow, follow_username, handle_incoming_datagram, handle_logout,
  login, message_user, send_message,
}
use inf.Server.Handler.Datagram.{handle_incoming_datagram-IsSound, handle_logout_lem}
use inf.Server.Handler.FirstLogin.{IsWelcomed, first_login}
use inf.Server.Handler.Follow.{
  contains-follow, follow_username_lem, follow_username_overruns, is_success,
}
use inf.Server.Handler.Invariant.{IsNext, IsSound}
use inf.Server.Handler.Send.{IsSent, send_message_lem}
use inf.Server.Loop.{serve}
use inf.Server.Loop.Invariant.{serve-IsSound}
use inf.Server.Message.{ServerMsgPayload, payload_username}
use inf.Server.Persistence.{get_followers, get_user_id_from_username, get_username_from_user_id}
use inf.Shared.Ids.{invalid_user_id}
use inf.Shared.Memory.{c_string}

serve-IsSound_example :
    Returns
      (serve datagram_json uninitialised
        (started, [])
        (record { value = send_value; address = alice_address; now = 1000 } ∷ []))
      λ t. IsSound t.0
serve-IsSound_example =
    serve-IsSound datagram_json uninitialised sized (started, [])
      (record { value = send_value; address = alice_address; now = 1000 } ∷ [])
      (record {
        sound = started-IsSound;
        user_room = started-HasRoom.user_room;
        notification_room = started-HasRoom.notification_room;
      })
      ((send_value-IsReadable, omega arith), tt)

handle_incoming_datagram-IsSound_example :
    Returns
      (handle_incoming_datagram datagram_json uninitialised started [] 1000 send_value
        alice_address)
      λ t. IsNext started t.0
handle_incoming_datagram-IsSound_example =
    handle_incoming_datagram-IsSound datagram_json uninitialised sized started started-IsSound
      started-HasRoom 1000 (omega arith) [] send_value alice_address send_value-IsReadable

send_message_lem_example :
    Returns
      (send_message uninitialised started [] 1000 1 hello)
      (IsSent uninitialised sized started started-IsSound [] 1000 1 hello)
send_message_lem_example =
    send_message_lem uninitialised sized started started-IsSound [] 1000 1 hello started-HasRoom
      (omega arith) hello-valid

abbrev after_hello : Handled
after_hello = handled (send_message uninitialised started [] 1000 1 hello) (started, [])

after_hello-ok : send_message uninitialised started [] 1000 1 hello ≡ ok after_hello
after_hello-ok =
    handled-ok (send_message uninitialised started [] 1000 1 hello) (started, [])
      (IsSent uninitialised sized started started-IsSound [] 1000 1 hello)
      (send_message_lem uninitialised sized started started-IsSound [] 1000 1 hello started-HasRoom
        (omega arith) hello-valid)

after_hello-IsSent : IsSent uninitialised sized started started-IsSound [] 1000 1 hello after_hello
after_hello-IsSent =
    handled-Returns (send_message uninitialised started [] 1000 1 hello) (started, [])
      (IsSent uninitialised sized started started-IsSound [] 1000 1 hello)
      (send_message_lem uninitialised sized started started-IsSound [] 1000 1 hello started-HasRoom
        (omega arith) hello-valid)

offline_follower_reads_example :
    Returns
      (login uninitialised after_hello.0 [] (get_username_from_user_id users 2) bobby_address)
      (IsPrintedAt datagram_json datagram_json-RoundTrips no_time uninitialised sized started
        started-IsSound started-HasRoom [] 1000 1
        (omega arith)
        hello
        hello-valid
        2
        bobby_follows
        bobby_offline
        after_hello
        after_hello-ok
        (replicate 511 7)
        refl
        tt
        (λ i. omega arith)
        bobby_address)
offline_follower_reads_example =
    offline_follower_reads datagram_json datagram_json-RoundTrips no_time uninitialised sized
      started started-IsSound started-HasRoom [] 1000 1 (omega arith) hello hello-valid 2
      bobby_follows bobby_offline after_hello after_hello-ok (replicate 511 7) refl tt
      (λ i. omega arith) bobby_address
      (after_hello-IsSent.same_sessions.same_owner bobby_address ∙ bobby_address_free)

first_login_example :
    Returns (login uninitialised started [] (get_username_from_user_id users 2) bobby_address) (
      IsWelcomed uninitialised sized started started-IsSound [] 2 bobby_is_user bobby_address
        bobby_offline bobby_address_free)
first_login_example =
    first_login uninitialised sized started started-IsSound [] 2 bobby_is_user bobby_address
      bobby_offline bobby_address_free

follow_username_lem_example : Returns (follow_username uninitialised started [] 1 bobby) λ t.
    IsNext started t.0
    × (t.0.user_persistence ≡ (follow users 1 bobby).0)
    × (payload : ServerMsgPayload) × (t.1
        ≡ []
          ++ message_user 1 (get_next_msg_id connections 1).0 (follow users 1 bobby).1 payload ∷ [])
    × (payload_username payload ≡ c_string bobby)
unfolding c_string
follow_username_lem_example =
    follow_username_lem uninitialised sized started started-IsSound [] 1 alice_is_user bobby
      (omega arith)

abbrev long_name : Str
long_name = replicate 160 97

follow_username_overruns_example :
    follow_username uninitialised started [] 1 long_name ≡ crash overrun
unfolding c_string
follow_username_overruns_example =
    follow_username_overruns uninitialised sized started started-IsSound [] 1 alice_is_user
      long_name (omega arith)

contains-follow_example :
    (is_success (follow users 1 bobby).1 ≡ (
      not (nat_eq (get_user_id_from_username users bobby) invalid_user_id)
      && not (nat_eq (get_user_id_from_username users bobby) 1)))
    × (contains 1 (get_followers (follow users 1 bobby).0 2) ≡ (
        if nat_eq 2 (get_user_id_from_username users bobby) && nat_eq 1 1
        then is_success (follow users 1 bobby).1
        else contains 1 (get_followers users 2)))
contains-follow_example = contains-follow users users-IsWellFormed 1 alice_is_user bobby 2 1

handle_logout_lem_example : Returns (handle_logout started [] alice_address) λ t.
    IsNext started t.0
    × (t.1 ≡ [])
    × ((b : Address)
        → owner t.0.connection_manager b
          ≡ (if alice_address == b then none else owner connections b))
handle_logout_lem_example = handle_logout_lem started started-IsSound [] alice_address

abbrev after_refusal : ClientMessageHandler
after_refusal = record started { connection_manager = (get_next_msg_id connections 1).1 }
