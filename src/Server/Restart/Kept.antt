-- ===== src/Server/Restart/Kept.antt =====
-- Each operation keeps the folder, with the queue written, and the users in memory in step.
use inf.Base.{
  All, Bool-cases, List, Option-cases, Str, [], ap, arith, contains, eq_str, eq_ℕ, if◌then◌else◌,
  inl, inr, length, some, str_eq, str_eq_iff, subst, sym, true, ℕ, ◌++◌, ◌+◌, ◌<◌, ◌∙◌, ◌∷◌, ◌≡◌,
  ◌⊎◌,
}
use inf.Server.Connections.{eq_address}
use inf.Server.Disk.{DiskOperationsManagment, update_users_on_disk}
use inf.Server.Disk.Directory.{IsFileName}
use inf.Server.Disk.UserFile.{IsStorable}
use inf.Server.Persistence.{DiskQueue, UserData, UserPersistence, get_followers, push_update}
use inf.Server.Persistence.Followers.{followers-users, length-followers, user_bound}
use inf.Server.Persistence.Invariant.{All-mono, IsUser, IsWellFormed}
use inf.Server.Persistence.Pending.{SameUsers, SameUsers-IsWellFormed, SameUsers-exists}
use inf.Server.Restart.{user_limit}
use inf.Server.Restart.Mirror.{IsKept, IsMirrored, known, update-IsMirrored, update_users-append}
use inf.Shared.Ids.{word_values}

pub All-contains :
    (P : Str → Type 0) (n : Str) (ns : List Str) → All P ns → contains n ns ≡ true → P n
unfolding contains
All-contains P n [] h c = absurd cc
All-contains P n (x ∷ ns) h c = elim (Bool-cases (str_eq x n)) [
  | inl same ↦ subst P ((str_eq_iff x n).0 same) h.0
  | inr other ↦ All-contains P n ns h.1 (ground arith)
]

-- The data of a user fits its file.
user-IsStorable :
    (p : UserPersistence) (u : ℕ) (c : UserData)
    → IsWellFormed p
    → p.last_user_id + 3 < user_limit
    → p.id_to_user u ≡ some c
    → IsStorable c.persistent_data
unfolding get_followers
user-IsStorable p u c v few e =
    let followers : get_followers p u ≡ c.persistent_data.followed_by = ground arith in
    record {
      id_fits = ground (arith, v.data_ok u);
      followers_fit = subst (All (λ (w : ℕ). w < word_values)) followers (
          All-mono (get_followers p u)
            (λ (w : ℕ) (h : IsUser p w). omega (arith, user_bound p v w h, few))
            (followers-users p v u));
      few_followers =
          omega (arith, length-followers p v u, ap (λ (l : List ℕ). length l) followers, few);
    }

module _ (s : DiskOperationsManagment) (p : UserPersistence) (k : IsKept s p) where
  -- The users after an update of one user's data, which was put into the queue.
  pub IsKept-by_update :
      (p' : UserPersistence) (u : ℕ) (c : UserData)
      → IsWellFormed p'
      → p'.last_user_id + 3 < user_limit
      → p'.id_to_user u ≡ some c
      → IsFileName c.persistent_data.username
      → p'.disk_managment ≡ push_update p.disk_managment c.persistent_data
      → ((n : Str)
          → known p' n
            ≡ (if str_eq c.persistent_data.username n then some c.persistent_data else known p n))
      → ((n : Str) (u : ℕ)
          → p'.username_to_id n ≡ some u
          → (c.persistent_data.username ≡ n) ⊎ (p.username_to_id n ≡ some u))
      → (p'.last_user_id ≡ 0) ⊎ IsUser p' p'.last_user_id
      → IsKept s p'
  IsKept-by_update p' u c v few e name_ok pushed same old last' = record {
    sound = v;
    few = few;
    queue = k.queue ++ c.persistent_data ∷ [];
    queued = pushed ∙ ap (λ (q : DiskQueue). push_update q c.persistent_data) k.queued;
    mirrored =
        subst (λ (t : DiskOperationsManagment). IsMirrored t p')
          (sym (update_users-append s k.queue c.persistent_data))
          (update-IsMirrored (update_users_on_disk s k.queue) p p' k.mirrored c.persistent_data
            name_ok (user-IsStorable p' u c v few e) same old last');
  }

  module _ (p' : UserPersistence) (same : SameUsers p p') where
    known_same : (n : Str) → known p n ≡ known p' n
    known_same n = elim (Option-cases (p.username_to_id n)) [
      | inl e ↦ ground (arith, same.same_names n)
      | inr (u, e) ↦ ground (arith, same.same_names n, same.same_data u)
    ]

    last_same :
        (p.last_user_id ≡ 0) ⊎ IsUser p p.last_user_id
        → (p'.last_user_id ≡ 0) ⊎ IsUser p' p'.last_user_id
    last_same (inl z) = inl (same.same_last ∙ z)
    last_same (inr h) =
        inr (subst (IsUser p') (sym same.same_last) (SameUsers-exists p p' same p.last_user_id ∙ h))

    pub same-IsKept : IsKept s p'
    same-IsKept = record {
      sound = SameUsers-IsWellFormed p p' same k.sound;
      few = omega (arith, same.same_last, k.few);
      queue = k.queue;
      queued = same.same_queue ∙ k.queued;
      mirrored = record {
        listed = k.mirrored.listed;
        stored = λ n other. k.mirrored.stored n other ∙ known_same n;
        names = λ n u h. k.mirrored.names n u (sym (same.same_names n) ∙ h);
        last = last_same k.mirrored.last;
      };
    }
