-- ===== src/Server/NotificationManager/Counts.antt =====
-- A stored message is kept for as long as some user waits for it: its count of pending users is the
-- number of references to it in the lists of all users.
use inf.Server.Persistence
use inf.Base.{
  List, Option, Str, [], ap, arith, eq_str, eq_ℕ, if◌then◌else◌, nat_eq, none, some, suc, sym,
  total, total-bump, total-ext, true, ℕ, ◌++◌, ◌+◌, ◌<◌, ◌^◌, ◌∙◌, ◌∷◌, ◌≡◌, ◌≤◌,
}
use inf.Server.Connections.{eq_address}
use inf.Server.Notification.{Notification, PendingNotification}
use inf.Server.NotificationManager.{NotificationManager}
use inf.Server.Persistence.{UserPersistence}
use inf.Server.Persistence.Invariant.{IsUser, IsWellFormed}
use inf.Server.Persistence.Pending.{
  SameUsers, add_pending_notification-SameUsers, drain_lem, drain_pending_notifications-SameUsers,
  waiting, waiting-add,
}
use inf.Shared.Ids.{word_values}
use inf.Shared.Validation.{is_valid_message}

-- The text and the time of a stored message.
abbrev pub content : Option Notification → Option (Str × ℕ)
content none = none
content (some x) = some (x.message, x.timestamp)

abbrev pub stored_content : NotificationManager → ℕ → Option (Str × ℕ)
stored_content n id = content (n.notification_id_to_notification id)

-- How often a list of pending notifications names a stored message.
abbrev pub count_references : ℕ → List PendingNotification → ℕ
count_references id [] = 0
count_references id (x ∷ xs) =
    (if nat_eq x.notification_id id then 1 else 0) + count_references id xs

count_references-append :
    (id : ℕ) (xs ys : List PendingNotification)
    → count_references id (xs ++ ys) ≡ count_references id xs + count_references id ys
count_references-append id [] ys = omega arith
count_references-append id (x ∷ xs) ys = omega (arith, count_references-append id xs ys)

abbrev pub references_of : UserPersistence → ℕ → ℕ → ℕ
references_of p id u = count_references id (waiting p u)

-- The references to a stored message in the lists of all users.
unfoldable pub references : UserPersistence → ℕ → ℕ
references p id = total (suc p.last_user_id) (references_of p id)

-- The count fits the entry of the table: an entry with that many pending users, or none if zero.
abbrev pub Fits : ℕ → Option Notification → Type 0
Fits k none = k ≡ 0
Fits k (some x) =
    (x.pending_users ≡ k) × (0 < k) × (is_valid_message x.message ≡ true) × (x.timestamp < 2 ^ 64)

-- `rest` are pending notifications that have left their user's list and wait to be sent.
pub record IsCounted (p : UserPersistence) (n : NotificationManager)
    (rest : List PendingNotification) : Type 0 where
  pub counted :
      (id : ℕ)
      → Fits (references p id + count_references id rest) (n.notification_id_to_notification id)
  pub bounded : (id : ℕ) → n.notification_id < id → n.notification_id_to_notification id ≡ none
  pub id_small : n.notification_id < word_values

-- A user's list that is empty, or one user more with an empty list, changes no count.
pub references-same :
    (p q : UserPersistence)
    → q.last_user_id ≡ p.last_user_id
    → ((u : ℕ) → waiting q u ≡ waiting p u)
    → (id : ℕ) → references q id ≡ references p id
unfolding references
references-same p q e h id = rw e (
    total-ext (suc p.last_user_id) (references_of p id) (references_of q id)
      (λ u. ap (count_references id) (h u)))

pub references-more :
    (p q : UserPersistence)
    → q.last_user_id ≡ suc p.last_user_id
    → ((u : ℕ) → waiting q u ≡ waiting p u)
    → waiting p (suc p.last_user_id) ≡ []
    → (id : ℕ) → references q id ≡ references p id
unfolding references total
references-more p q e h empty id = rw e (
    omega (
      arith,
      total-ext (suc p.last_user_id) (references_of p id) (references_of q id)
          (λ u. ap (count_references id) (h u)),
      ap (count_references id) (h (suc p.last_user_id) ∙ empty),
    ))

pub IsUser-le : (p : UserPersistence) (u : ℕ) → IsWellFormed p → IsUser p u → u ≤ p.last_user_id
IsUser-le p u v h = unfold Persistence.user_id_exists in ground (arith, v.data_ok u)

references_of-add :
    (p : UserPersistence) (u w id : ℕ) (x : PendingNotification)
    → IsUser p u
    → references_of (Persistence.add_pending_notification p u x) id w
      ≡ references_of p id w
        + (if nat_eq u w then (if nat_eq x.notification_id id then 1 else 0) else 0)
references_of-add p u w id x exists =
    ap (count_references id) (waiting-add p u w x)
    ∙ ground (arith, count_references-append id (waiting p w) (x ∷ []))

-- A pending notification that is appended to a user's list counts once.
pub references-add :
    (p : UserPersistence) (u id : ℕ) (x : PendingNotification)
    → IsUser p u
    → u ≤ p.last_user_id
    → references (Persistence.add_pending_notification p u x) id
      ≡ references p id + (if nat_eq x.notification_id id then 1 else 0)
unfolding references
references-add p u id x exists le =
    rw (SameUsers.same_last (add_pending_notification-SameUsers p u x)) (
      total-bump (references_of p id)
        (references_of (Persistence.add_pending_notification p u x) id) u
        (if nat_eq x.notification_id id then 1 else 0) (λ w. references_of-add p u w id x exists)
        (suc p.last_user_id) (omega arith))

references_of-drain :
    (p : UserPersistence) (u w id : ℕ)
    → references_of p id w
      ≡ references_of (Persistence.drain_pending_notifications p u).1 id w
        + (if nat_eq u w then count_references id (waiting p u) else 0)
references_of-drain p u w id = ground (arith, ap (count_references id) (drain_lem p u w).1)

-- A drain takes a user's references out of its list.
pub references-drain :
    (p : UserPersistence) (u id : ℕ)
    → u ≤ p.last_user_id
    → references (Persistence.drain_pending_notifications p u).1 id
        + count_references id (Persistence.drain_pending_notifications p u).0
      ≡ references p id
unfolding references
references-drain p u id le =
    rw (SameUsers.same_last (drain_pending_notifications-SameUsers p u), (drain_lem p u u).0)
      (sym (
        total-bump (references_of (Persistence.drain_pending_notifications p u).1 id)
          (references_of p id) u (count_references id (waiting p u))
          (λ w. references_of-drain p u w id) (suc p.last_user_id) (omega arith)))
