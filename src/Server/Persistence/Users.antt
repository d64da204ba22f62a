-- ===== src/Server/Persistence/Users.antt =====
-- What the user persistence promises its callers about names, ids and followers.
use inf.Base.{
  Option-cases, Str, [], arith, contains, eq_str, eq_ℕ, if◌then◌else◌, inl, inr, nat_eq, not, some,
  str_eq_iff, str_eq_refl, true, ℕ, ◌&&◌, ◌++◌, ◌+◌, ◌<◌, ◌↔◌, ◌∷◌, ◌≡◌, ◌≢◌,
}
use inf.Server.Connections.{eq_address}
use inf.Server.Persistence.{
  UserData, UserPersistence, add_follow, add_or_update_user, add_user, get_followers,
  get_user_id_from_username, get_username_from_user_id, push_update, user_id_exists,
}
use inf.Server.Persistence.Invariant.{IsWellFormed}
use inf.Shared.Ids.{int_limit, invalid_user_id}

module _ (p : UserPersistence) (v : IsWellFormed p) where
  open v use {data_ok, named, small}

  -- For well-formed users and a proper id, the lookup of a name gives the id exactly when the id is
  -- a user's with that name.
  pub username_iff_user_id :
      (username : Str) (u : ℕ)
      → u ≢ invalid_user_id
      → (get_user_id_from_username p username ≡ u)
        ↔ ((user_id_exists p u ≡ true) × (get_username_from_user_id p u ≡ username))
  unfolding get_user_id_from_username user_id_exists get_username_from_user_id
  username_iff_user_id username u proper = elim (Option-cases (p.id_to_user u)) [
    | inl e ↦ ground (arith, named username u)
    | inr (d, e) ↦ ground (arith, named username u, data_ok u)
  ]

  -- A login by name yields a proper id under which the name is found; a name that had an id keeps
  -- it, and no other name or id changes.
  pub add_or_update_user_lem :
      (username other : Str) (w : ℕ)
      → p.last_user_id + 1 < int_limit
      → let u = (add_or_update_user p username).0 in
        let q = (add_or_update_user p username).1 in
        (u ≢ invalid_user_id)
        × (get_user_id_from_username q username ≡ u)
        × (get_username_from_user_id q u ≡ username)
        × (user_id_exists q u ≡ true)
        × (other ≢ username → get_user_id_from_username q other ≡ get_user_id_from_username p other)
        × (user_id_exists p w ≡ true
            → (get_username_from_user_id q w ≡ get_username_from_user_id p w)
              × (get_followers q w ≡ get_followers p w)
              × (user_id_exists q w ≡ true))
  unfolding add_or_update_user add_user get_user_id_from_username user_id_exists
      get_username_from_user_id get_followers
  add_or_update_user_lem username other w room = elim (Option-cases (p.username_to_id username)) [
    | inl e ↦ ground (arith, data_ok w, str_eq_refl username, str_eq_iff username other)
    | inr (u, e) ↦ ground (arith, named username u, data_ok u)
  ]

-- A follow appends the follower to the list of the followed if both are users and it is not there
-- yet; every list is as it was otherwise. No name and no id changes.
pub get_followers-add_follow :
    (p : UserPersistence) (u f w : ℕ)
    → (get_followers (add_follow p u f) w ≡ (
        if nat_eq u w
          && user_id_exists p u
          && user_id_exists p f
          && not (contains f (get_followers p u))
        then get_followers p w ++ f ∷ []
        else get_followers p w))
      × (get_username_from_user_id (add_follow p u f) w ≡ get_username_from_user_id p w)
      × (user_id_exists (add_follow p u f) w ≡ user_id_exists p w)
      × ((add_follow p u f).username_to_id ≡ p.username_to_id)
unfolding add_follow get_followers user_id_exists get_username_from_user_id
get_followers-add_follow p u f w = ground arith

-- A follow of one user by another puts the followed user's data with the new list into the disk
-- queue, if the follower was not there yet, and nothing otherwise.
pub queue-add_follow :
    (p : UserPersistence) (u f : ℕ) (d : UserData)
    → p.id_to_user u ≡ some d
    → user_id_exists p f ≡ true
    → (add_follow p u f).disk_managment ≡ (
        if contains f d.persistent_data.followed_by
        then p.disk_managment
        else push_update p.disk_managment
            (record d.persistent_data { followed_by = d.persistent_data.followed_by ++ f ∷ [] }))
unfolding add_follow
queue-add_follow p u f d hd hf = ground arith
