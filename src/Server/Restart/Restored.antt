-- ===== src/Server/Restart/Restored.antt =====
-- What a run of the server had in memory is what the next one starts with.
use inf.Server.Persistence
use inf.Base.{
  All, Bool, List, Option, Option-cases, Str, [], ap, arith, contains, empty_map, eq_str, eq_ℕ, inl,
  inr, refl, some, str_eq_iff, str_eq_refl, sym, true, ℕ, ◌∙◌, ◌∷◌, ◌≡◌, ◌≤◌, ◌⊎◌,
}
use inf.Server.Connections.{eq_address}
use inf.Server.Disk.{DiskOperationsManagment}
use inf.Server.Disk.Directory.{
  IsFileName, collect, load_and_update_persistent_data_lem, stored_user,
}
use inf.Server.Persistence.{
  UserData, UserPersistence, UserPersistentData, load_users, new_user_persistence,
}
use inf.Server.Persistence.Invariant.{IsUser, IsWellFormed}
use inf.Server.Persistence.Pending.{persistent_of}
use inf.Server.Restart.{load_user_persistence}
use inf.Server.Restart.Kept.{All-contains}
use inf.Server.Restart.Loading.{
  IsHeld, any_of, has_id, has_name, loaded_id, loaded_last, loaded_name,
}
use inf.Server.Restart.Mirror.{IsMirrored, known}
use inf.Shared.Ids.{invalid_user_id}

collect-All :
    (P : UserPersistentData → Type 0) (f : Str → Option UserPersistentData) (ns : List Str)
    → ((n : Str) → contains n ns ≡ true → (d : UserPersistentData) → f n ≡ some d → P d)
    → All P (collect f ns)
unfolding contains
collect-All P f [] h = tt
collect-All P f (x ∷ ns) h =
    let rest : All P (collect f ns) = collect-All P f ns λ n c. h n (ground arith) in
    elim (Option-cases (f x)) [
      | inl e ↦ rw (e, collect) rest
      | inr (d, e) ↦ rw (e, collect) (h x (ground (arith, str_eq_refl x)) d e, rest)
    ]

any_of-collect :
    (test : UserPersistentData → Bool) (f : Str → Option UserPersistentData) (ns : List Str)
    (n : Str) (d : UserPersistentData)
    → contains n ns ≡ true
    → f n ≡ some d
    → test d ≡ true
    → any_of test (collect f ns) ≡ true
unfolding contains
any_of-collect test f [] n d c e t = absurd cc
any_of-collect test f (x ∷ ns) n d c e t =
    ground (arith, any_of-collect test f ns n d, str_eq_iff x n)

module _ (t : DiskOperationsManagment) (p : UserPersistence) (v : IsWellFormed p)
    (m : IsMirrored t p) where
  abbrev loaded_data : List UserPersistentData
  loaded_data = collect (stored_user t) t.user_directory

  known-IsHeld : (n : Str) (d : UserPersistentData) → known p n ≡ some d → IsHeld p v d
  known-IsHeld n d e = elim (Option-cases (p.username_to_id n)) [
    | inl h ↦ absurd (ground (arith, e))
    | inr (u, h) ↦ ground (arith, e, v.data_ok u)
  ]

  stored_known : (n : Str) → contains n t.user_directory ≡ true → stored_user t n ≡ known p n
  stored_known n listed =
      m.stored n (All-contains IsFileName n t.user_directory m.listed.valid listed).1

  data-IsHeld : All (IsHeld p v) loaded_data
  data-IsHeld =
      collect-All (IsHeld p v) (stored_user t) t.user_directory
        λ n listed d e. known-IsHeld n d (sym (stored_known n listed) ∙ e)

  -- The data of a user is loaded.
  loaded_user :
      (test : UserPersistentData → Bool) (u : ℕ) (c : UserData)
      → p.id_to_user u ≡ some c
      → test c.persistent_data ≡ true
      → any_of test loaded_data ≡ true
  loaded_user test u c e h =
      let n = c.persistent_data.username in
      let of_name : p.username_to_id n ≡ some u = ground (arith, v.data_ok u) in
      let listed = m.names n u of_name in
      any_of-collect test (stored_user t) t.user_directory n c.persistent_data listed
        (stored_known n listed ∙ rw of_name (rw e refl)) h

  abbrev restored : UserPersistence
  restored = (load_user_persistence t).0

  loaded : restored ≡ new_user_persistence loaded_data (some [])
  unfolding load_user_persistence
  loaded = rw (load_and_update_persistent_data_lem t m.listed) refl

  abbrev no_users : UserPersistence
  no_users = record {
    last_user_id = invalid_user_id;
    id_to_user = empty_map;
    username_to_id = empty_map;
    disk_managment = some [];
  }

  loaded_users : restored ≡ load_users no_users loaded_data
  unfolding new_user_persistence
  loaded_users = loaded

  pub restored_name : (n : Str) → restored.username_to_id n ≡ p.username_to_id n
  restored_name n =
      ap (λ (r : UserPersistence). r.username_to_id n) loaded_users
      ∙ loaded_name p v no_users loaded_data n data-IsHeld
      ∙ elim (Option-cases (p.username_to_id n)) [
        | inl e ↦ ground (arith, e)
        | inr (u, e) ↦ elim (Option-cases (p.id_to_user u)) [
          | inl gone ↦ absurd (ground (arith, v.named n u e))
          | inr (c, held) ↦
              let found =
                loaded_user (has_name n) u c held
                  (ground (arith, v.named n u e, str_eq_iff c.persistent_data.username n)) in
              rw found refl
        ]
      ]

  pub restored_id : (u : ℕ) → persistent_of (restored.id_to_user u) ≡ persistent_of (p.id_to_user u)
  restored_id u =
      ap (λ (r : UserPersistence). persistent_of (r.id_to_user u)) loaded_users
      ∙ loaded_id p v no_users loaded_data u data-IsHeld
      ∙ elim (Option-cases (p.id_to_user u)) [
        | inl e ↦ ground (arith, e)
        | inr (c, e) ↦
            let found = loaded_user (has_id u) u c e (ground (arith, v.data_ok u)) in rw found refl
      ]

  pub restored_last : restored.last_user_id ≡ p.last_user_id
  restored_last =
      let bounds = loaded_last p v no_users loaded_data data-IsHeld (omega arith) in
      ap (λ (r : UserPersistence). r.last_user_id) loaded_users ∙ reached bounds m.last
    where
      reached :
          (invalid_user_id ≤ (load_users no_users loaded_data).last_user_id)
            × ((load_users no_users loaded_data).last_user_id ≤ p.last_user_id)
            × (any_of (has_id p.last_user_id) loaded_data ≡ true
                → p.last_user_id ≤ (load_users no_users loaded_data).last_user_id)
          → (p.last_user_id ≡ 0) ⊎ IsUser p p.last_user_id
          → (load_users no_users loaded_data).last_user_id ≡ p.last_user_id
      reached b (inl z) = omega (arith, b.1, z)
      reached b (inr h) = elim (Option-cases (p.id_to_user p.last_user_id)) [
        | inl e ↦ absurd (unfold Persistence.user_id_exists in ground arith)
        | inr (c, e) ↦
            let found =
              loaded_user (has_id p.last_user_id) p.last_user_id c e
                (ground (arith, v.data_ok p.last_user_id)) in
            omega (arith, b.1, b.2 found)
      ]
