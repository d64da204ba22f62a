-- ===== src/Server/NotificationManager.antt =====
-- `NotificationManager` of server/notification.h and server/notification.cpp: stored messages, each
-- kept until the last of its offline receivers has logged in. The source's manager points to the
-- other two managers, which are passed here and returned.
pub mod Counts
pub mod Fan
pub mod Stored
pub mod Keeps
use inf.Server.Persistence
use inf.Server.Connections
use inf.Base.{
  Bool, List, Map, Option, Outcome, Str, [], empty_map, eq_str, eq_ℕ, erase, if◌then◌else◌, insert,
  is_some, length, nat_eq, none, not, ok, some, ℕ, ◌%◌, ◌++◌, ◌>>=◌, ◌∷◌,
}
use inf.Server.Connections.{UserConnectionManager, eq_address, get_next_msg_id}
use inf.Server.Message.{
  ServerAction, ServerMsgPayload, action_message_user, message_payload, server_send_command,
}
use inf.Server.Notification.{Notification, PendingNotification, decrement_pending_users}
use inf.Server.Persistence.{UserPersistence}
use inf.Shared.Ids.{increment, invalid_notification_id, word_values}

pub record NotificationManager : Type 0 where
  pub notification_id : ℕ
  pub notification_id_to_notification : Map ℕ Notification

abbrev pub new_notification_manager : NotificationManager
new_notification_manager = record {
  notification_id = invalid_notification_id;
  notification_id_to_notification = empty_map;
}

unfoldable pub notification_exists : NotificationManager → ℕ → Bool
notification_exists n id = is_some (n.notification_id_to_notification id)

unfoldable pub get_notification : NotificationManager → ℕ → Option Notification
get_notification n id = n.notification_id_to_notification id

unfoldable pub remove_notification : NotificationManager → ℕ → NotificationManager
unfolding notification_exists
remove_notification n id =
    if not (notification_exists n id)
    then n
    else record n { notification_id_to_notification = erase n.notification_id_to_notification id }

-- The decremented notification is written back to the table before it may be removed.
unfoldable pub decrement_pending_users_from : NotificationManager → ℕ → NotificationManager
unfolding remove_notification decrement_pending_users
decrement_pending_users_from n id = elim (n.notification_id_to_notification id) [
  | none ↦ n
  | some notification ↦
      let d = decrement_pending_users notification in
      let n' : NotificationManager = record n {
        notification_id_to_notification = insert n.notification_id_to_notification id d.1;
      } in
      if nat_eq d.0 0 then remove_notification n' id else n'
]

unfoldable pub add_pending_to_all : UserPersistence → List ℕ → PendingNotification → UserPersistence
add_pending_to_all p [] pending_notification = p
add_pending_to_all p (follower ∷ followers) pending_notification =
    add_pending_to_all (Persistence.add_pending_notification p follower pending_notification)
      followers pending_notification

-- The end of `add_notification`: one stored message for all the followers that are offline.
unfoldable pub store_notification :
    UserPersistence
    → NotificationManager
    → ℕ
    → ℕ
    → Str
    → List ℕ
    → UserPersistence × NotificationManager
unfolding add_pending_to_all
store_notification p n author timestamp message [] = (p, n)
store_notification p n author timestamp message (follower ∷ followers) =
    let offline_users = follower ∷ followers in
    let id = increment n.notification_id in
    (
      add_pending_to_all p offline_users (record { user_id = author; notification_id = id }),
      record {
        notification_id = id;
        notification_id_to_notification = insert n.notification_id_to_notification id (record {
          notification_id = id;
          author = author;
          timestamp = timestamp;
          message_length = length message % word_values;
          pending_users = length offline_users % word_values;
          message = message;
        });
      },
    )

-- The variables of the loop of `add_notification` over the followers.
pub record FanOut : Type 0 where
  pub connections : UserConnectionManager
  pub pending_actions : List ServerAction
  pub offline_users : List ℕ

module _ (uninitialised : ServerMsgPayload) where
  -- The message goes out at once to a follower that is online.
  unfoldable pub notify_online : Str → ℕ → Str → FanOut → ℕ → Outcome FanOut
  notify_online username timestamp message s follower =
      message_payload uninitialised username message timestamp >>= λ payload.
      let next = get_next_msg_id s.connections follower in
      ok (record s {
        connections = next.1;
        pending_actions =
            s.pending_actions
            ++ action_message_user follower
                (record { msg_id = next.0; msg_type = server_send_command; payload = payload })
              ∷ [];
      })

  unfoldable pub fan_out_step : UserPersistence → Str → ℕ → Str → FanOut → ℕ → Outcome FanOut
  unfolding notify_online
  fan_out_step p username timestamp message s follower =
      if not (Connections.user_id_exists s.connections follower)
      then if not (Persistence.user_id_exists p follower)
        then ok s
        else ok (record s { offline_users = s.offline_users ++ follower ∷ [] })
      else notify_online username timestamp message s follower

  unfoldable pub fan_out : UserPersistence → Str → ℕ → Str → FanOut → List ℕ → Outcome FanOut
  unfolding fan_out_step
  fan_out p username timestamp message s [] = ok s
  fan_out p username timestamp message s (follower ∷ followers) =
      fan_out_step p username timestamp message s follower >>= λ s'.
      fan_out p username timestamp message s' followers

  -- What `add_notification` leaves: the two managers that it changes besides its own, and actions.
  unfoldable pub add_notification :
      UserPersistence
      → UserConnectionManager
      → NotificationManager
      → List ServerAction
      → ℕ
      → ℕ
      → List ℕ
      → Str
      → Outcome (UserPersistence × UserConnectionManager × NotificationManager × List ServerAction)
  unfolding fan_out store_notification
  add_notification p c n pending_actions author timestamp followers message =
      fan_out p (Persistence.get_username_from_user_id p author) timestamp message
        (record { connections = c; pending_actions = pending_actions; offline_users = [] })
        followers
      >>= λ s.
          let stored = store_notification p n author timestamp message s.offline_users in
          ok (stored.0, s.connections, stored.1, s.pending_actions)
