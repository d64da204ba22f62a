-- ===== src/Server/NotificationManager/Keeps.antt =====
-- Draining, decrementing and storing keep the counts of pending users right.
use inf.Server.Persistence
use inf.Base.{
  All, List, Option-cases, Str, [], arith, eq_str, eq_ℕ, if◌then◌else◌, inl, inr, length, nat_eq,
  some, subst, true, ℕ, ◌+◌, ◌<◌, ◌^◌, ◌∙◌, ◌∷◌, ◌≡◌, ◌≤◌,
}
use inf.Server.Connections.{eq_address}
use inf.Server.Notification.{Notification, PendingNotification}
use inf.Server.NotificationManager.{
  NotificationManager, add_pending_to_all, decrement_pending_users_from, get_notification,
  notification_exists, store_notification,
}
use inf.Server.NotificationManager.Counts.{
  Fits, IsCounted, IsUser-le, count_references, references, references-add, references-drain,
}
use inf.Server.Persistence.{UserPersistence}
use inf.Server.Persistence.Invariant.{All-mono, IsUser, IsWellFormed}
use inf.Server.Persistence.Pending.{
  SameUsers, SameUsers-IsWellFormed, SameUsers-exists, SameUsers-refl, SameUsers-trans,
  add_pending_notification-SameUsers,
}
use inf.Shared.Ids.{increment, word_values}
use inf.Shared.Validation.{is_valid_message}

-- The counts depend on the users' lists by the numbers of references only.
pub IsCounted-same :
    (p q : UserPersistence) (n : NotificationManager) (rest : List PendingNotification)
    → ((id : ℕ) → references q id ≡ references p id)
    → IsCounted p n rest
    → IsCounted q n rest
IsCounted-same p q n rest same v = record {
  counted = λ id. rw (same id) (v.counted id);
  bounded = v.bounded;
  id_small = v.id_small;
}

pub drain-IsCounted :
    (p : UserPersistence) (n : NotificationManager) (u : ℕ)
    → u ≤ p.last_user_id
    → IsCounted p n []
    → IsCounted
        (Persistence.drain_pending_notifications p u).1
        n
        (Persistence.drain_pending_notifications p u).0
drain-IsCounted p n u le v = record {
  counted = λ id.
      subst (λ (k : ℕ). Fits k (n.notification_id_to_notification id))
        (omega (arith, references-drain p u id le)) (v.counted id);
  bounded = v.bounded;
  id_small = v.id_small;
}

-- A reference that is about to be served names a stored message.
pub counted_exists :
    (p : UserPersistence) (n : NotificationManager) (x : PendingNotification)
    (rest : List PendingNotification)
    → IsCounted p n (x ∷ rest)
    → (stored : Notification) × (get_notification n x.notification_id ≡ some stored)
      × (is_valid_message stored.message ≡ true)
      × (stored.timestamp < 2 ^ 64)
unfolding get_notification
counted_exists p n x rest v =
    elim (Option-cases (n.notification_id_to_notification x.notification_id)) [
      | inl e ↦ absurd (ground (arith, v.counted x.notification_id))
      | inr (stored, e) ↦ (
        stored,
        e,
        ground (arith, v.counted x.notification_id),
        ground (arith, v.counted x.notification_id),
      )
    ]

decrement_counted :
    (p : UserPersistence) (n : NotificationManager) (x : PendingNotification)
    (rest : List PendingNotification)
    → IsCounted p n (x ∷ rest)
    → (id : ℕ)
    → Fits
        (references p id + count_references id rest)
        ((decrement_pending_users_from n x.notification_id).notification_id_to_notification id)
unfolding decrement_pending_users_from notification_exists
decrement_counted p n x rest v id =
    elim (Option-cases (n.notification_id_to_notification x.notification_id)) [
      | inl e ↦ absurd (ground (arith, v.counted x.notification_id))
      | inr (stored, e) ↦ ground (arith, v.counted x.notification_id, v.counted id)
    ]

-- If the counts of pending users are the numbers of references, with a reference taken out to be
-- served among them, they are after its message's count is decremented without that reference; a
-- message whose last reference it was has left the table.
pub decrement-IsCounted :
    (p : UserPersistence) (n : NotificationManager) (x : PendingNotification)
    (rest : List PendingNotification)
    → IsCounted p n (x ∷ rest)
    → IsCounted p (decrement_pending_users_from n x.notification_id) rest
unfolding decrement_pending_users_from notification_exists
decrement-IsCounted p n x rest v = record {
  counted = decrement_counted p n x rest v;
  bounded = λ id h. ground (arith, v.bounded id);
  id_small = ground (arith, v.id_small);
}

-- Every user of the list gets the pending notification, once for each time it is in the list.
pub references-add_pending_to_all :
    (p : UserPersistence) (users : List ℕ) (x : PendingNotification) (id : ℕ)
    → IsWellFormed p
    → All (IsUser p) users
    → references (add_pending_to_all p users x) id
      ≡ references p id + (if nat_eq x.notification_id id then length users else 0)
unfolding add_pending_to_all
references-add_pending_to_all p [] x id v h = ground arith
references-add_pending_to_all p (u ∷ users) x id v h =
    let q : UserPersistence = Persistence.add_pending_notification p u x in
    let s : SameUsers p q = add_pending_notification-SameUsers p u x in
    ground (
      arith,
      references-add_pending_to_all q users x id (SameUsers-IsWellFormed p q s v)
          (All-mono users (λ w k. SameUsers-exists p q s w ∙ k) h.1),
      references-add p u id x h.0 (IsUser-le p u v h.0),
    )

pub add_pending_to_all-SameUsers :
    (p : UserPersistence) (users : List ℕ) (x : PendingNotification)
    → SameUsers p (add_pending_to_all p users x)
unfolding add_pending_to_all
add_pending_to_all-SameUsers p [] x = SameUsers-refl p
add_pending_to_all-SameUsers p (u ∷ users) x =
    SameUsers-trans p (Persistence.add_pending_notification p u x) _
      (add_pending_notification-SameUsers p u x)
      (add_pending_to_all-SameUsers (Persistence.add_pending_notification p u x) users x)

module _ (p : UserPersistence) (n : NotificationManager) (author timestamp : ℕ)
    (message : Str) where
  abbrev stored : List ℕ → UserPersistence × NotificationManager
  stored users = store_notification p n author timestamp message users

  pub store_notification-SameUsers : (users : List ℕ) → SameUsers p (stored users).0
  unfolding store_notification
  store_notification-SameUsers [] = SameUsers-refl p
  store_notification-SameUsers (u ∷ users) = add_pending_to_all-SameUsers p (u ∷ users) _

  store_counted :
      (u : ℕ) (users : List ℕ)
      → IsWellFormed p
      → All (IsUser p) (u ∷ users)
      → length (u ∷ users) < word_values
      → n.notification_id + 1 < word_values
      → is_valid_message message ≡ true
      → timestamp < 2 ^ 64
      → IsCounted p n []
      → (id : ℕ)
      → Fits
          (references (stored (u ∷ users)).0 id + 0)
          ((stored (u ∷ users)).1.notification_id_to_notification id)
  unfolding store_notification
  store_counted u users w all few room valid small v id = ground (
    arith,
    references-add_pending_to_all p (u ∷ users)
        (record { user_id = author; notification_id = increment n.notification_id }) id w all,
    v.counted id,
    v.bounded (n.notification_id + 1),
  )

  -- Storing a valid text for a list of users, fewer than a word counts, keeps the counts of pending
  -- users right, if the users are well-formed, the next message can be numbered and the time has 64
  -- bits.
  pub store_notification-IsCounted :
      (users : List ℕ)
      → IsWellFormed p
      → All (IsUser p) users
      → length users < word_values
      → n.notification_id + 1 < word_values
      → is_valid_message message ≡ true
      → timestamp < 2 ^ 64
      → IsCounted p n []
      → IsCounted (stored users).0 (stored users).1 []
  unfolding store_notification
  store_notification-IsCounted [] w all few room valid small v = v
  store_notification-IsCounted (u ∷ users) w all few room valid small v = record {
    counted = store_counted u users w all few room valid small v;
    bounded = λ id h. ground (arith, v.bounded id);
    id_small = omega arith;
  }
