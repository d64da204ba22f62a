-- ===== src/Server/Persistence/Invariant.antt =====
-- The maps of the user persistence agree, usernames are valid, and followers are users.
use inf.Base.{
  All, All-append, Bool-cases, List, Option, Option-cases, Str, [], arith, contains, eq_str, eq_ℕ,
  false, inl, inr, nat_eq, nat_eq_iff, none, refl, some, str_eq_iff, str_eq_refl, true, ℕ, ◌++◌,
  ◌+◌, ◌<◌, ◌||◌, ◌∷◌, ◌≡◌, ◌≢◌, ◌≤◌,
}
use inf.Server.Connections.{eq_address}
use inf.Server.Persistence.{
  DiskQueue, UserData, UserPersistence, UserPersistentData, add_follow, add_or_update_user,
  add_user, follow_user, get_user_id_from_username, new_user_persistence, user_id_exists,
}
use inf.Shared.Ids.{int_limit, invalid_user_id}
use inf.Shared.Validation.{is_valid_username}

-- The follower lists are sets of other users.
abbrev pub IsUser : UserPersistence → ℕ → Type 0
IsUser p u = user_id_exists p u ≡ true

abbrev pub Distinct : List ℕ → Type 0
Distinct [] = Unit {0}
Distinct (x ∷ xs) = (contains x xs ≡ false) × Distinct xs

-- What the data of user `u` satisfies.
abbrev pub IsPersistent : UserPersistence → ℕ → UserPersistentData → Type 0
IsPersistent p u d =
    (u ≢ invalid_user_id)
    × (u ≤ p.last_user_id)
    × (d.user_id ≡ u)
    × (is_valid_username d.username ≡ true)
    × (p.username_to_id d.username ≡ some u)
    × Distinct d.followed_by
    × (contains u d.followed_by ≡ false)
    × All (IsUser p) d.followed_by

abbrev pub IsUserData : UserPersistence → ℕ → Option UserData → Type 0
IsUserData p u none = Unit {0}
IsUserData p u (some d) = IsPersistent p u d.persistent_data

abbrev pub HasName : Str → Option UserData → Type 0
HasName username none = ⊥
HasName username (some d) = d.persistent_data.username ≡ username

pub record IsWellFormed (p : UserPersistence) : Type 0 where
  pub data_ok : (u : ℕ) → IsUserData p u (p.id_to_user u)
  pub named :
      (username : Str) (u : ℕ)
      → p.username_to_id username ≡ some u
      → HasName username (p.id_to_user u)
  pub small : p.last_user_id < int_limit

pub All-mono : {P Q : ℕ → Type 0} (xs : List ℕ) → ((x : ℕ) → P x → Q x) → All P xs → All Q xs
All-mono [] f h = tt
All-mono (x ∷ xs) f h = (f x h.0, All-mono xs f h.1)

pub contains-append :
    (a x : ℕ) (xs : List ℕ) → contains a (xs ++ x ∷ []) ≡ (nat_eq x a || contains a xs)
unfolding contains
contains-append a x [] = ground arith
contains-append a x (y ∷ xs) = ground (arith, contains-append a x xs)

Distinct-append :
    (x : ℕ) (xs : List ℕ) → Distinct xs → contains x xs ≡ false → Distinct (xs ++ x ∷ [])
unfolding contains
Distinct-append x [] d h = (refl, tt)
Distinct-append x (y ∷ xs) d h = ground (arith, Distinct-append x xs d.1, contains-append y x xs)

-- The start, with no users at all.
pub empty-IsWellFormed : (q : DiskQueue) → IsWellFormed (new_user_persistence [] q)
unfolding new_user_persistence
empty-IsWellFormed q = record { data_ok = λ u. tt; named = λ n u h. cc; small = omega arith }

module _ (p : UserPersistence) (v : IsWellFormed p) where
  open v use {data_ok, named, small}

  -- A name is unknown exactly when its lookup gives the invalid id.
  pub get_user_id_from_username-none :
      (username : Str)
      → get_user_id_from_username p username ≡ invalid_user_id
      → p.username_to_id username ≡ none
  unfolding get_user_id_from_username
  get_user_id_from_username-none username h = elim (Option-cases (p.username_to_id username)) [
    | inl e ↦ e
    | inr (u, e) ↦ ground (arith, named username u e, data_ok u)
  ]

  module _ (username : Str) (valid : is_valid_username username ≡ true)
      (fresh : p.username_to_id username ≡ none) (room : p.last_user_id + 1 < int_limit) where
    add_user_keeps_IsUser : (w : ℕ) → IsUser p w → IsUser (add_user p username).1 w
    unfolding add_user user_id_exists
    add_user_keeps_IsUser w h = ground arith

    add_user_data :
        (w : ℕ) → IsUserData (add_user p username).1 w ((add_user p username).1.id_to_user w)
    unfolding add_user contains
    add_user_data w = elim (Option-cases (p.id_to_user w)) [
      | inl e ↦ ground (arith, str_eq_refl username)
      | inr (d, e) ↦ ground (
        arith,
        data_ok w,
        data_ok (p.last_user_id + 1),
        str_eq_iff username d.persistent_data.username,
        All-mono d.persistent_data.followed_by add_user_keeps_IsUser,
      )
    ]

    add_user-IsWellFormed : IsWellFormed (add_user p username).1
    add_user-IsWellFormed = record {
      data_ok = add_user_data;
      named =
          λ n u h. unfold add_user in ground (arith, named n u, data_ok u, str_eq_iff username n);
      small = unfold add_user in omega arith;
    }

  -- Looking up the user of a valid name, or adding it, keeps the users well-formed, if one more can
  -- be numbered.
  pub add_or_update_user-IsWellFormed :
      (username : Str)
      → is_valid_username username ≡ true
      → p.last_user_id + 1 < int_limit
      → IsWellFormed (add_or_update_user p username).1
  unfolding add_or_update_user
  add_or_update_user-IsWellFormed username valid room =
      elim (Bool-cases (nat_eq (get_user_id_from_username p username) invalid_user_id)) [
        | inl unknown ↦ rw unknown (
            add_user-IsWellFormed username valid
              (get_user_id_from_username-none username ((nat_eq_iff _ invalid_user_id).0 unknown))
              room)
        | inr found ↦ rw found v
      ]

  module _ (u f : ℕ) (d : UserData) (hd : p.id_to_user u ≡ some d) (other : u ≢ f)
      (exists : IsUser p f) where
    follow_keeps_IsUser : (w : ℕ) → IsUser p w → IsUser (follow_user p u d f) w
    unfolding follow_user user_id_exists
    follow_keeps_IsUser w h = ground arith

    follow_data : (w : ℕ) → IsUserData (follow_user p u d f) w ((follow_user p u d f).id_to_user w)
    follow_data w = elim (Bool-cases (nat_eq u w)) [
      | inl here ↦
          unfold follow_user in
          ground (
            arith,
            data_ok u,
            contains-append u f d.persistent_data.followed_by,
            Distinct-append f d.persistent_data.followed_by,
            All-append (IsUser (follow_user p u d f)) d.persistent_data.followed_by (f ∷ []),
            All-mono d.persistent_data.followed_by follow_keeps_IsUser,
            follow_keeps_IsUser f exists,
          )
      | inr elsewhere ↦ elim (Option-cases (p.id_to_user w)) [
        | inl e ↦ unfold follow_user in ground arith
        | inr (c, e) ↦
            unfold follow_user in
            ground (arith, data_ok w, All-mono c.persistent_data.followed_by follow_keeps_IsUser)
      ]
    ]

    pub follow_user-IsWellFormed : IsWellFormed (follow_user p u d f)
    follow_user-IsWellFormed = record {
      data_ok = follow_data;
      named = λ n w h. unfold follow_user in ground (arith, named n w h, named n u);
      small = unfold follow_user in small;
    }

  -- A follow between two different ids keeps the users well-formed, whether or not the ids are
  -- users.
  pub add_follow-IsWellFormed : (u f : ℕ) → u ≢ f → IsWellFormed (add_follow p u f)
  unfolding add_follow
  add_follow-IsWellFormed u f other = elim (Option-cases (p.id_to_user u)) [
    | inl e ↦ rw (e, add_follow) v
    | inr (d, e) ↦ elim (Bool-cases (user_id_exists p f)) [
      | inl exists ↦ rw (e, add_follow, exists) (follow_user-IsWellFormed u f d e other exists)
      | inr unknown ↦ rw (e, add_follow, unknown) v
    ]
  ]
