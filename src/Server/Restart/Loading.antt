-- ===== src/Server/Restart/Loading.antt =====
-- What the constructor of the user persistence makes of data that agrees with some well-formed users.
use inf.Base.{
  All, Bool, List, Str, [], arith, eq_str, eq_ℕ, false, if◌then◌else◌, nat_eq, refl, some, str_eq,
  str_eq_iff, true, ℕ, ◌||◌, ◌∷◌, ◌≡◌, ◌≤◌,
}
use inf.Server.Connections.{eq_address}
use inf.Server.Persistence.{UserPersistence, UserPersistentData, load_user, load_users}
use inf.Server.Persistence.Invariant.{IsWellFormed}
use inf.Server.Persistence.Pending.{persistent_of}

abbrev pub any_of {ℓ} : {A : Type ℓ} → (A → Bool) → List A → Bool
any_of t [] = false
any_of t (x ∷ xs) = t x || any_of t xs

abbrev pub has_name : Str → UserPersistentData → Bool
has_name n d = str_eq d.username n

abbrev pub has_id : ℕ → UserPersistentData → Bool
has_id u d = nat_eq d.user_id u

module _ (p : UserPersistence) (v : IsWellFormed p) where
  -- The data is that of a user.
  abbrev pub IsHeld : UserPersistentData → Type 0
  IsHeld d = persistent_of (p.id_to_user d.user_id) ≡ some d

  held_name : (d : UserPersistentData) → IsHeld d → p.username_to_id d.username ≡ some d.user_id
  held_name d h = ground (arith, v.data_ok d.user_id)

  held_bound : (d : UserPersistentData) → IsHeld d → d.user_id ≤ p.last_user_id
  held_bound d h = ground (arith, v.data_ok d.user_id)

  -- A name that is in the data is known as it is to the users.
  pub loaded_name :
      (r : UserPersistence) (ds : List UserPersistentData) (n : Str)
      → All IsHeld ds
      → (load_users r ds).username_to_id n
        ≡ (if any_of (has_name n) ds then p.username_to_id n else r.username_to_id n)
  unfolding load_users load_user
  loaded_name r [] n h = refl
  loaded_name r (d ∷ ds) n h =
      ground (arith, loaded_name (load_user r d) ds n h.1, held_name d h.0, str_eq_iff d.username n)

  pub loaded_id :
      (r : UserPersistence) (ds : List UserPersistentData) (u : ℕ)
      → All IsHeld ds
      → persistent_of ((load_users r ds).id_to_user u) ≡ (
          if any_of (has_id u) ds
          then persistent_of (p.id_to_user u)
          else persistent_of (r.id_to_user u))
  unfolding load_users load_user
  loaded_id r [] u h = refl
  loaded_id r (d ∷ ds) u h = ground (arith, loaded_id (load_user r d) ds u h.1)

  load_user-last :
      (r : UserPersistence) (d : UserPersistentData)
      → IsHeld d
      → r.last_user_id ≤ p.last_user_id
      → (r.last_user_id ≤ (load_user r d).last_user_id)
        × (d.user_id ≤ (load_user r d).last_user_id)
        × ((load_user r d).last_user_id ≤ p.last_user_id)
  unfolding load_user
  load_user-last r d h le = ground (arith, held_bound d h, v.small)

  pub loaded_last :
      (r : UserPersistence) (ds : List UserPersistentData)
      → All IsHeld ds
      → r.last_user_id ≤ p.last_user_id
      → (r.last_user_id ≤ (load_users r ds).last_user_id)
        × ((load_users r ds).last_user_id ≤ p.last_user_id)
        × (any_of (has_id p.last_user_id) ds ≡ true
            → p.last_user_id ≤ (load_users r ds).last_user_id)
  unfolding load_users
  loaded_last r [] h le = (omega arith, le, λ e. absurd cc)
  loaded_last r (d ∷ ds) h le =
      let first = load_user-last r d h.0 le in
      let rest = loaded_last (load_user r d) ds h.1 first.2 in ground arith
