-- ===== src/Examples/Notifications.antt =====
-- The theorems on texts, payloads and stored messages at the example server.
use inf.Base.{
  Returns, [], arith, empty_map, eq_str, eq_ℕ, if◌then◌else◌, insert, length, nat_eq, ◌++◌, ◌∷◌,
  ◌≡◌,
}
use inf.Examples.{
  alice, alice_is_user, bobby_is_user, connections, connections-IsConsistent, hello, hello-valid,
  no_references, sized, started-IsSound, uninitialised, users, users-IsWellFormed,
}
use inf.Server.Connections.{eq_address}
use inf.Server.Handler.{ClientMessageHandler, deliver}
use inf.Server.Handler.Delivery.{Delivered, deliver_lem}
use inf.Server.Message.{
  message_payload, payload_body, payload_size, payload_timestap, payload_username,
}
use inf.Server.Message.Payload.{message_payload_lem}
use inf.Server.Notification.{PendingNotification}
use inf.Server.NotificationManager.{
  NotificationManager, decrement_pending_users_from, fan_out, new_notification_manager,
  store_notification,
}
use inf.Server.NotificationManager.Counts.{IsCounted}
use inf.Server.NotificationManager.Fan.{Fanned, fan_out_lem}
use inf.Server.NotificationManager.Keeps.{decrement-IsCounted, store_notification-IsCounted}
use inf.Shared.Memory.{NoNul, of_bytes, of_bytes-to_bytes, to_bytes}

alice-NoNul : NoNul alice
alice-NoNul = ground arith

hello-NoNul : NoNul hello
hello-NoNul = ground arith

message_payload_lem_example : Returns (message_payload uninitialised alice hello 1000) λ p.
    (payload_username p ≡ (if nat_eq (length alice) 20 then alice ++ hello else alice))
    × (payload_body p ≡ hello)
    × (payload_timestap p ≡ 1000)
    × (length p ≡ payload_size)
message_payload_lem_example =
    message_payload_lem uninitialised sized alice hello 1000 alice-NoNul hello-NoNul (omega arith)
      (omega arith) (omega arith)

fan_out_lem_example :
    Returns
      (fan_out uninitialised users alice 1000 hello
        (record { connections = connections; pending_actions = []; offline_users = [] })
        (1 ∷ 2 ∷ []))
      (Fanned uninitialised sized users alice hello 1000 alice-NoNul
        (omega arith)
        hello-valid
        (omega arith)
        (record { connections = connections; pending_actions = []; offline_users = [] })
        (1 ∷ 2 ∷ []))
fan_out_lem_example =
    fan_out_lem uninitialised sized users alice hello 1000 alice-NoNul (omega arith) hello-valid
      (omega arith) (record { connections = connections; pending_actions = []; offline_users = [] })
      (1 ∷ 2 ∷ []) connections-IsConsistent (alice_is_user, (bobby_is_user, tt))

-- Alice's message, stored for one user.
abbrev pending_hello : PendingNotification
pending_hello = record { user_id = 1; notification_id = 1 }

abbrev stored_hello : NotificationManager
stored_hello = record {
  notification_id = 1;
  notification_id_to_notification = insert empty_map 1 (record {
    notification_id = 1;
    author = 1;
    timestamp = 1000;
    message_length = 5;
    pending_users = 1;
    message = hello;
  });
}

stored_hello-IsCounted : IsCounted users stored_hello (pending_hello ∷ [])
stored_hello-IsCounted = record {
  counted = λ id. ground (arith, no_references id, hello-valid);
  bounded = λ id h. ground arith;
  id_small = omega arith;
}

decrement-IsCounted_example : IsCounted users (decrement_pending_users_from stored_hello 1) []
decrement-IsCounted_example =
    decrement-IsCounted users stored_hello pending_hello [] stored_hello-IsCounted

abbrev waiting_for_hello : ClientMessageHandler
waiting_for_hello = record {
  user_persistence = users;
  connection_manager = connections;
  notification_manager = stored_hello;
}

deliver_lem_example :
    Returns
      (deliver uninitialised 1 (waiting_for_hello, []) (pending_hello ∷ []))
      (Delivered uninitialised sized 1 (waiting_for_hello, []) (pending_hello ∷ []))
deliver_lem_example =
    deliver_lem uninitialised sized 1 (waiting_for_hello, []) (pending_hello ∷ [])
      users-IsWellFormed connections-IsConsistent stored_hello-IsCounted

store_notification-IsCounted_example :
    IsCounted
      (store_notification users new_notification_manager 1 1000 hello (2 ∷ [])).0
      (store_notification users new_notification_manager 1 1000 hello (2 ∷ [])).1
      []
store_notification-IsCounted_example =
    store_notification-IsCounted users new_notification_manager 1 1000 hello (2 ∷ [])
      users-IsWellFormed (bobby_is_user, tt) (omega arith) (omega arith) hello-valid (omega arith)
      started-IsSound.counts

of_bytes-to_bytes_example : of_bytes (to_bytes 8 1000) ≡ 1000
of_bytes-to_bytes_example = of_bytes-to_bytes 8 1000 (omega arith)
