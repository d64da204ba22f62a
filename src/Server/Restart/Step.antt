-- ===== src/Server/Restart/Step.antt =====
-- Logins and follows keep the folder and the users in step.
use inf.Server.Persistence
use inf.Base.{
  Bool-cases, Option-cases, Str, [], arith, contains, eq_str, eq_ℕ, false, if◌then◌else◌, inl, inr,
  nat_eq, nat_eq_iff, none, refl, some, str_eq, str_eq_iff, subst, sym, true, ℕ, ◌++◌, ◌+◌, ◌<◌,
  ◌∷◌, ◌≡◌, ◌≢◌, ◌⊎◌,
}
use inf.Server.Connections.{eq_address}
use inf.Server.Disk.{DiskOperationsManagment}
use inf.Server.Disk.Directory.{IsFileName}
use inf.Server.Persistence.{
  UserData, UserPersistence, UserPersistentData, add_follow, add_followed_by, add_or_update_user,
  add_user, follow_user, get_user_id_from_username, new_user_data,
}
use inf.Server.Persistence.Invariant.{
  IsUser, IsUserData, IsWellFormed, add_or_update_user-IsWellFormed, follow_user-IsWellFormed,
  get_user_id_from_username-none,
}
use inf.Server.Persistence.Pending.{SameUsers}
use inf.Server.Restart.{user_limit}
use inf.Server.Restart.Kept.{All-contains, IsKept-by_update, same-IsKept}
use inf.Server.Restart.Mirror.{IsKept, known}
use inf.Shared.Ids.{increment, invalid_user_id}

module _ (s : DiskOperationsManagment) (p : UserPersistence) (k : IsKept s p) where
  abbrev data_ok : (u : ℕ) → IsUserData p u (p.id_to_user u)
  data_ok u = k.sound.data_ok u

  abbrev added : Str → UserPersistentData
  added username = record {
    user_id = increment p.last_user_id;
    username = username;
    followed_by = [];
  }

  known_added :
      (username n : Str)
      → p.username_to_id username ≡ none
      → p.last_user_id + 4 < user_limit
      → known (add_user p username).1 n
        ≡ (if str_eq username n then some (added username) else known p n)
  unfolding add_user
  known_added username n missing room = elim (Option-cases (p.username_to_id n)) [
    | inl e ↦ ground (arith, str_eq_iff username n)
    | inr (u, e) ↦
        ground (arith, str_eq_iff username n, data_ok (increment p.last_user_id), k.sound.named n u)
  ]

  add_user-IsKept :
      (username : Str)
      → IsFileName username
      → p.username_to_id username ≡ none
      → p.last_user_id + 4 < user_limit
      → IsWellFormed (add_user p username).1
      → IsKept s (add_user p username).1
  add_user-IsKept username file_ok missing room sound =
      IsKept-by_update s p k (add_user p username).1 (increment p.last_user_id)
        (new_user_data (added username)) sound (unfold add_user in omega arith)
        (unfold add_user in ground arith) file_ok (unfold add_user in refl)
        (λ n. known_added username n missing room)
        (λ n u h. unfold add_user in ground (arith, str_eq_iff username n))
        (inr (unfold add_user Persistence.user_id_exists in ground arith))

  pub add_or_update_user-IsKept :
      (username : Str)
      → IsFileName username
      → p.last_user_id + 4 < user_limit
      → IsKept s (add_or_update_user p username).1
  add_or_update_user-IsKept username file_ok room =
      let sound =
        add_or_update_user-IsWellFormed p k.sound username file_ok.0 (omega (arith, room)) in
      elim (Bool-cases (nat_eq (get_user_id_from_username p username) invalid_user_id)) [
        | inl unknown ↦
            let missing =
              get_user_id_from_username-none p k.sound username
                ((nat_eq_iff _ invalid_user_id).0 unknown) in
            let same : (add_or_update_user p username).1 ≡ (add_user p username).1 =
              unfold add_or_update_user in rw unknown refl in
            subst (IsKept s) (sym same)
              (add_user-IsKept username file_ok missing room (subst IsWellFormed same sound))
        | inr found ↦
            let same : (add_or_update_user p username).1 ≡ p =
              unfold add_or_update_user in rw found refl in
            subst (IsKept s) (sym same) k
      ]

  module _ (u f : ℕ) (c : UserData) (e : p.id_to_user u ≡ some c)
      (new : contains f c.persistent_data.followed_by ≡ false) where
    abbrev with_follower : UserPersistentData
    with_follower = record c.persistent_data {
      followed_by = c.persistent_data.followed_by ++ f ∷ [];
    }

    known_followed :
        (n : Str)
        → known (follow_user p u c f) n
          ≡ (if str_eq c.persistent_data.username n then some with_follower else known p n)
    unfolding follow_user add_followed_by
    known_followed n = elim (Option-cases (p.username_to_id n)) [
      | inl h ↦ ground (arith, str_eq_iff c.persistent_data.username n, data_ok u)
      | inr (w, h) ↦
          ground (arith, str_eq_iff c.persistent_data.username n, data_ok u, k.sound.named n w h)
    ]

    last_followed :
        (p.last_user_id ≡ 0) ⊎ IsUser p p.last_user_id
        → ((follow_user p u c f).last_user_id ≡ 0)
          ⊎ IsUser (follow_user p u c f) (follow_user p u c f).last_user_id
    unfolding follow_user
    last_followed (inl z) = inl z
    last_followed (inr h) = inr (unfold Persistence.user_id_exists in ground arith)

    follow_user-IsKept : IsWellFormed (follow_user p u c f) → IsKept s (follow_user p u c f)
    follow_user-IsKept sound =
        IsKept-by_update s p k (follow_user p u c f) u
          (record c { persistent_data = with_follower }) sound (unfold follow_user in k.few)
          (unfold follow_user add_followed_by in ground arith)
          (All-contains IsFileName c.persistent_data.username _ k.mirrored.listed.valid
            (k.mirrored.names c.persistent_data.username u (ground (arith, data_ok u))))
          (unfold follow_user add_followed_by in ground arith) known_followed
          (λ n w h. unfold follow_user in inr h) (last_followed k.mirrored.last)

  -- A follow that was there already.
  repeated-SameUsers :
      (u f : ℕ) (c : UserData)
      → p.id_to_user u ≡ some c
      → contains f c.persistent_data.followed_by ≡ true
      → SameUsers p (follow_user p u c f)
  unfolding follow_user add_followed_by
  repeated-SameUsers u f c e old = record {
    same_last = refl;
    same_names = λ n. refl;
    same_queue = ground arith;
    same_data = λ w. ground arith;
  }

  followed-IsKept :
      (u f : ℕ) (c : UserData)
      → p.id_to_user u ≡ some c
      → IsWellFormed (follow_user p u c f)
      → IsKept s (follow_user p u c f)
  followed-IsKept u f c e sound = elim (Bool-cases (contains f c.persistent_data.followed_by)) [
    | inl old ↦ same-IsKept s p k (follow_user p u c f) (repeated-SameUsers u f c e old)
    | inr new ↦ follow_user-IsKept u f c e new sound
  ]

  pub add_follow-IsKept : (u f : ℕ) → u ≢ f → IsKept s (add_follow p u f)
  unfolding add_follow
  add_follow-IsKept u f other = elim (Option-cases (p.id_to_user u)) [
    | inl e ↦ rw (e, add_follow) k
    | inr (c, e) ↦ elim (Bool-cases (Persistence.user_id_exists p f)) [
      | inl exists ↦
          rw (e, add_follow, exists)
            (followed-IsKept u f c e (follow_user-IsWellFormed p k.sound u f c e other exists))
      | inr unknown ↦ rw (e, add_follow, unknown) k
    ]
  ]
