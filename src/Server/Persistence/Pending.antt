-- ===== src/Server/Persistence/Pending.antt =====
-- The notifications that wait for a user: what is appended is drained once, in order.
use inf.Server.Persistence
use inf.Base.{
  List, Option, Str, [], arith, eq_str, eq_ℕ, if◌then◌else◌, nat_eq, none, refl, some, ℕ, ◌&&◌,
  ◌++◌, ◌∙◌, ◌∷◌, ◌≡◌,
}
use inf.Server.Connections.{eq_address}
use inf.Server.Notification.{Notification, PendingNotification}
use inf.Server.Persistence.{
  UserData, UserPersistence, UserPersistentData, add_pending_notification,
  drain_pending_notifications, get_followers, get_username_from_user_id, user_id_exists,
}
use inf.Server.Persistence.Invariant.{All-mono, IsPersistent, IsUser, IsUserData, IsWellFormed}

-- The notifications that wait for a user, none for an id that is no user's.
abbrev pub waiting : UserPersistence → ℕ → List PendingNotification
waiting p u = elim (p.id_to_user u) [ none ↦ [] | some d ↦ d.pending_notifications ]

abbrev pub persistent_of : Option UserData → Option UserPersistentData
persistent_of none = none
persistent_of (some d) = some d.persistent_data

-- Two states with the same users: names, ids and followers.
pub record SameUsers (p q : UserPersistence) : Type 0 where
  pub same_last : q.last_user_id ≡ p.last_user_id
  pub same_names : (n : Str) → q.username_to_id n ≡ p.username_to_id n
  pub same_queue : q.disk_managment ≡ p.disk_managment
  pub same_data : (u : ℕ) → persistent_of (q.id_to_user u) ≡ persistent_of (p.id_to_user u)

pub SameUsers-refl : (p : UserPersistence) → SameUsers p p
SameUsers-refl p = record {
  same_last = refl;
  same_names = λ n. refl;
  same_queue = refl;
  same_data = λ u. refl;
}

module _ (p q : UserPersistence) (s : SameUsers p q) where
  open s use {same_last, same_names, same_data}

  pub SameUsers-exists : (u : ℕ) → user_id_exists q u ≡ user_id_exists p u
  unfolding user_id_exists
  SameUsers-exists u = ground (arith, same_data u)

  pub SameUsers-username : (u : ℕ) → get_username_from_user_id q u ≡ get_username_from_user_id p u
  unfolding get_username_from_user_id
  SameUsers-username u = ground (arith, same_data u)

  pub SameUsers-followers : (u : ℕ) → get_followers q u ≡ get_followers p u
  unfolding get_followers
  SameUsers-followers u = ground (arith, same_data u)

  SameUsers-IsPersistent :
      (u : ℕ) (d : UserPersistentData) → IsPersistent p u d → IsPersistent q u d
  SameUsers-IsPersistent u d h = ground (
    arith,
    same_names d.username,
    All-mono d.followed_by (λ (w : ℕ) (k : IsUser p w). SameUsers-exists w ∙ k),
  )

  SameUsers-data :
      (u : ℕ) (o o' : Option UserData)
      → persistent_of o' ≡ persistent_of o
      → IsUserData p u o
      → IsUserData q u o'
  SameUsers-data u o none e h = tt
  SameUsers-data u none (some d') e h = cc
  SameUsers-data u (some d) (some d') e h =
      let e' : d'.persistent_data ≡ d.persistent_data = cc in
      rw e' (SameUsers-IsPersistent u d.persistent_data h)

  pub SameUsers-IsWellFormed : IsWellFormed p → IsWellFormed q
  SameUsers-IsWellFormed v = record {
    data_ok = λ u. SameUsers-data u (p.id_to_user u) (q.id_to_user u) (same_data u) (v.data_ok u);
    named = λ n u h. ground (arith, v.named n u, same_data u, same_names n);
    small = ground (arith, v.small);
  }

pub SameUsers-trans : (p q r : UserPersistence) → SameUsers p q → SameUsers q r → SameUsers p r
SameUsers-trans p q r s t = record {
  same_last = t.same_last ∙ s.same_last;
  same_names = λ n. t.same_names n ∙ s.same_names n;
  same_queue = t.same_queue ∙ s.same_queue;
  same_data = λ u. t.same_data u ∙ s.same_data u;
}

pub add_pending_notification-SameUsers :
    (p : UserPersistence) (u : ℕ) (n : PendingNotification)
    → SameUsers p (add_pending_notification p u n)
unfolding add_pending_notification
add_pending_notification-SameUsers p u n = record {
  same_last = ground arith;
  same_names = λ n. ground arith;
  same_queue = ground arith;
  same_data = λ w. ground arith;
}

pub drain_pending_notifications-SameUsers :
    (p : UserPersistence) (u : ℕ) → SameUsers p (drain_pending_notifications p u).1
unfolding drain_pending_notifications
drain_pending_notifications-SameUsers p u = record {
  same_last = ground arith;
  same_names = λ n. ground arith;
  same_queue = ground arith;
  same_data = λ w. ground arith;
}

-- A notification goes to the end of its user's list, if there is such a user, and to no other.
pub waiting-add :
    (p : UserPersistence) (u w : ℕ) (n : PendingNotification)
    → waiting (add_pending_notification p u n) w
      ≡ (if nat_eq u w && user_id_exists p u then waiting p w ++ n ∷ [] else waiting p w)
unfolding add_pending_notification user_id_exists
waiting-add p u w n = ground arith

-- A drain returns all that waits for the user and leaves nothing; other users keep theirs.
pub drain_lem :
    (p : UserPersistence) (u w : ℕ)
    → ((drain_pending_notifications p u).0 ≡ waiting p u)
      × (waiting (drain_pending_notifications p u).1 w ≡ (if nat_eq u w then [] else waiting p w))
unfolding drain_pending_notifications
drain_lem p u w = ground arith

pub add_notification-SameUsers :
    (p : UserPersistence) (u : ℕ) (n : Notification)
    → SameUsers p (Persistence.add_notification p u n)
unfolding Persistence.add_notification
add_notification-SameUsers p u n = record {
  same_last = ground arith;
  same_names = λ n. ground arith;
  same_queue = ground arith;
  same_data = λ w. ground arith;
}
