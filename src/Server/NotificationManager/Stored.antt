-- ===== src/Server/NotificationManager/Stored.antt =====
-- The followers that are offline: each gets one pending notification, for one stored message.
use inf.Server.Connections
use inf.Server.Persistence
use inf.Base.{
  All, List, Str, [], ap, arith, contains, eq_str, eq_ℕ, if◌then◌else◌, length, nat_eq, not, null,
  refl, some, ℕ, ◌&&◌, ◌++◌, ◌+◌, ◌<◌, ◌∙◌, ◌∷◌, ◌≡◌, ◌≤◌,
}
use inf.Server.Connections.{UserConnectionManager, eq_address}
use inf.Server.Notification.{PendingNotification}
use inf.Server.NotificationManager.{NotificationManager, add_pending_to_all, store_notification}
use inf.Server.NotificationManager.Counts.{stored_content}
use inf.Server.NotificationManager.Fan.{offline_followers}
use inf.Server.Persistence.{UserPersistence}
use inf.Server.Persistence.Invariant.{All-mono, Distinct, IsUser}
use inf.Server.Persistence.Pending.{
  SameUsers-exists, add_pending_notification-SameUsers, waiting, waiting-add,
}
use inf.Shared.Ids.{increment, word_values}

pub offline-users :
    (p : UserPersistence) (c : UserConnectionManager) (fs : List ℕ)
    → All (IsUser p) fs
    → All (IsUser p) (offline_followers c fs)
unfolding offline_followers
offline-users p c [] h = tt
offline-users p c (f ∷ fs) h = ground (arith, offline-users p c fs h.1)

pub contains-offline :
    (c : UserConnectionManager) (w : ℕ) (fs : List ℕ)
    → contains w (offline_followers c fs) ≡ (contains w fs && not (Connections.user_id_exists c w))
unfolding offline_followers contains
contains-offline c w [] = refl
contains-offline c w (f ∷ fs) =
    ground (arith, contains-offline c w fs, ap (Connections.user_id_exists c))

pub offline-Distinct :
    (c : UserConnectionManager) (fs : List ℕ) → Distinct fs → Distinct (offline_followers c fs)
unfolding offline_followers
offline-Distinct c [] d = tt
offline-Distinct c (f ∷ fs) d = ground (arith, offline-Distinct c fs d.1, contains-offline c f fs)

pub length-offline :
    (c : UserConnectionManager) (fs : List ℕ) → length (offline_followers c fs) ≤ length fs
unfolding offline_followers
length-offline c [] = omega arith
length-offline c (f ∷ fs) = ground (arith, length-offline c fs)

-- Each user of the list gets the notification at the end of its own.
pub waiting-add_pending_to_all :
    (p : UserPersistence) (users : List ℕ) (x : PendingNotification) (w : ℕ)
    → All (IsUser p) users
    → Distinct users
    → waiting (add_pending_to_all p users x) w
      ≡ (if contains w users then waiting p w ++ x ∷ [] else waiting p w)
unfolding add_pending_to_all contains
waiting-add_pending_to_all p [] x w h d = refl
waiting-add_pending_to_all p (u ∷ users) x w h d =
    let q : UserPersistence = Persistence.add_pending_notification p u x in
    ground (
      arith,
      waiting-add_pending_to_all q users x w
          (All-mono users
            (λ v k. SameUsers-exists p q (add_pending_notification-SameUsers p u x) v ∙ k) h.1)
          d.1,
      waiting-add p u w x,
      h.0,
      d.0,
      ap (λ (v : ℕ). contains v users),
    )

module _ (p : UserPersistence) (n : NotificationManager) (author timestamp : ℕ)
    (message : Str) where
  -- After a message is stored for the users of a list, each of them has one reference more, to the
  -- message under the next id; other users' lists and other stored messages are as they were.
  pub store_notification_lem :
      (users : List ℕ) (w id : ℕ)
      → All (IsUser p) users
      → Distinct users
      → (waiting (store_notification p n author timestamp message users).0 w ≡ (
          if contains w users
          then waiting p w
            ++ record { user_id = author; notification_id = increment n.notification_id } ∷ []
          else waiting p w))
        × (stored_content (store_notification p n author timestamp message users).1 id ≡ (
            if not (null users) && nat_eq (increment n.notification_id) id
            then some (message, timestamp)
            else stored_content n id))
  unfolding store_notification contains
  store_notification_lem [] w id h d = (refl, refl)
  store_notification_lem (u ∷ users) w id h d =
      (waiting-add_pending_to_all p (u ∷ users) _ w h d, ground arith)

  pub store_notification-id :
      (users : List ℕ)
      → n.notification_id + 1 < word_values
      → (store_notification p n author timestamp message users).1.notification_id
        ≤ n.notification_id + 1
  unfolding store_notification
  store_notification-id [] room = omega arith
  store_notification-id (u ∷ users) room = omega arith
