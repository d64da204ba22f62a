-- ===== src/Server/Persistence/Followers.antt =====
-- A follower list holds users, none twice, so it is no longer than there are users.
use inf.Server.Persistence
use inf.Base.{
  All, List, Option-cases, [], ap, arith, contains, eq_str, eq_ℕ, if◌then◌else◌, inl, inr, length,
  suc, total, total-bump, total-le, total-zero, ℕ, ◌+◌, ◌<◌, ◌∷◌, ◌≡◌, ◌≤◌,
}
use inf.Server.Connections.{eq_address}
use inf.Server.Persistence.{UserPersistence, get_followers}
use inf.Server.Persistence.Invariant.{All-mono, Distinct, IsUser, IsWellFormed}

abbrev member_of : List ℕ → ℕ → ℕ
member_of xs i = if contains i xs then 1 else 0

total-member :
    (n : ℕ) (xs : List ℕ) → Distinct xs → All (λ x. x < n) xs → total n (member_of xs) ≡ length xs
unfolding contains
total-member n [] d b = total-zero n
total-member n (x ∷ xs) d b = omega (
  arith,
  total-bump (member_of xs) (member_of (x ∷ xs)) x 1
      (λ j. ground (arith, d.0, ap (λ (k : ℕ). contains k xs))) n b.0,
  total-member n xs d.1 b.1,
)

Distinct-bound : (n : ℕ) (xs : List ℕ) → Distinct xs → All (λ x. x < n) xs → length xs ≤ n
Distinct-bound n xs d b =
    omega (arith, total-member n xs d b, total-le n (member_of xs) (λ i. ground arith))

module _ (p : UserPersistence) (v : IsWellFormed p) where
  pub followers-users : (u : ℕ) → All (IsUser p) (get_followers p u)
  unfolding get_followers
  followers-users u = elim (Option-cases (p.id_to_user u)) [
    | inl e ↦ rw (e, get_followers) tt
    | inr (d, e) ↦ ground (arith, v.data_ok u)
  ]

  pub followers-Distinct : (u : ℕ) → Distinct (get_followers p u)
  unfolding get_followers
  followers-Distinct u = elim (Option-cases (p.id_to_user u)) [
    | inl e ↦ rw (e, get_followers) tt
    | inr (d, e) ↦ ground (arith, v.data_ok u)
  ]

  pub user_bound : (w : ℕ) → IsUser p w → w < suc p.last_user_id
  user_bound w h = unfold Persistence.user_id_exists in ground (arith, v.data_ok w)

  -- With well-formed users, a user has at most as many followers as ids were given out, and one.
  pub length-followers : (u : ℕ) → length (get_followers p u) ≤ p.last_user_id + 1
  length-followers u = omega (
    arith,
    Distinct-bound (suc p.last_user_id) (get_followers p u) (followers-Distinct u)
        (All-mono (get_followers p u) user_bound (followers-users u)),
  )
