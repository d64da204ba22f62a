-- ===== src/Server/Notification.antt =====
-- server/notification.h, server/notification.cpp: a stored message and its count of users that have
-- not received it yet. The table of them is in NotificationManager.
use inf.Base.{Str, eq_str, eq_ℕ, if◌then◌else◌, nat_eq, ℕ, ◌-◌}
use inf.Server.Connections.{eq_address}

-- Held by a user for each stored message that awaits it; `user_id` is the author.
pub record PendingNotification : Type 0 where
  pub user_id : ℕ
  pub notification_id : ℕ

pub record Notification : Type 0 where
  pub notification_id : ℕ
  pub author : ℕ
  pub timestamp : ℕ
  pub message_length : ℕ
  pub pending_users : ℕ
  pub message : Str

-- The count that is left, and the notification with it.
unfoldable pub decrement_pending_users : Notification → ℕ × Notification
decrement_pending_users n =
    if nat_eq n.pending_users 0
    then (0, n)
    else (n.pending_users - 1, record n { pending_users = n.pending_users - 1 })

abbrev pub get_message : Notification → Str
get_message n = n.message

abbrev pub get_timestamp : Notification → ℕ
get_timestamp n = n.timestamp
