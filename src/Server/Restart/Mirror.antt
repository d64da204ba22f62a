-- ===== src/Server/Restart/Mirror.antt =====
-- The folder, with the updates of the queue written, holds what the users hold in memory.
use inf.Base.{
  Bool-cases, List, Option, Str, [], ap, arith, contains, eq_str, eq_ℕ, false, if◌then◌else◌, inl,
  inr, none, refl, some, str_eq, str_eq_iff, sym, true, ℕ, ◌++◌, ◌+◌, ◌<◌, ◌||◌, ◌∙◌, ◌∷◌, ◌≡◌, ◌⊎◌,
}
use inf.Server.Connections.{eq_address}
use inf.Server.Disk.{
  DiskOperationsManagment, add_to_directory, directory_name, update_user_on_disk,
  update_users_on_disk,
}
use inf.Server.Disk.Directory.{
  IsFileName, IsListed, stored_user, update-IsListed, update-stored_user,
}
use inf.Server.Disk.UserFile.{IsStorable}
use inf.Server.Persistence.{UserPersistence, UserPersistentData}
use inf.Server.Persistence.Invariant.{IsUser, IsWellFormed}
use inf.Server.Persistence.Pending.{persistent_of}
use inf.Server.Restart.{user_limit}

-- What the users in memory hold for a name.
abbrev data_at : UserPersistence → Option ℕ → Option UserPersistentData
data_at p none = none
data_at p (some u) = persistent_of (p.id_to_user u)

abbrev pub known : UserPersistence → Str → Option UserPersistentData
known p n = data_at p (p.username_to_id n)

pub record IsMirrored (t : DiskOperationsManagment) (p : UserPersistence) : Type 0 where
  pub listed : IsListed t
  pub stored : (n : Str) → str_eq n directory_name ≡ false → stored_user t n ≡ known p n
  pub names : (n : Str) (u : ℕ) → p.username_to_id n ≡ some u → contains n t.user_directory ≡ true
  pub last : (p.last_user_id ≡ 0) ⊎ IsUser p p.last_user_id

-- The users are well-formed, few, and mirrored once the queue is written.
pub record IsKept (s : DiskOperationsManagment) (p : UserPersistence) : Type 0 where
  pub sound : IsWellFormed p
  pub few : p.last_user_id + 3 < user_limit
  pub queue : List UserPersistentData
  pub queued : p.disk_managment ≡ some queue
  pub mirrored : IsMirrored (update_users_on_disk s queue) p

pub update_users-append :
    (s : DiskOperationsManagment) (ds : List UserPersistentData) (d : UserPersistentData)
    → update_users_on_disk s (ds ++ d ∷ [])
      ≡ update_user_on_disk true true (update_users_on_disk s ds) d
unfolding update_users_on_disk
update_users-append s [] d = refl
update_users-append s (x ∷ ds) d = update_users-append (update_user_on_disk true true s x) ds d

contains_append_str :
    (n m : Str) (ns : List Str) → contains n (ns ++ m ∷ []) ≡ (contains n ns || str_eq m n)
unfolding contains
contains_append_str n m [] = ground arith
contains_append_str n m (x ∷ ns) = ground (arith, contains_append_str n m ns)

update-directory :
    (t : DiskOperationsManagment) (d : UserPersistentData) (n : Str)
    → contains n (update_user_on_disk true true t d).user_directory
      ≡ (contains n t.user_directory || str_eq d.username n)
unfolding update_user_on_disk add_to_directory
update-directory t d n = elim (Bool-cases (contains d.username t.user_directory)) [
  | inl old ↦ rw old (ground (arith, str_eq_iff d.username n))
  | inr new ↦ rw new (contains_append_str n d.username t.user_directory)
]

-- One update that is written to the folder as it is made in memory.
module _ (t : DiskOperationsManagment) (p p' : UserPersistence) (m : IsMirrored t p)
    (d : UserPersistentData) (name_ok : IsFileName d.username) (fits : IsStorable d) where
  pub update-IsMirrored :
      ((n : Str) → known p' n ≡ (if str_eq d.username n then some d else known p n))
      → ((n : Str) (u : ℕ)
          → p'.username_to_id n ≡ some u
          → (d.username ≡ n) ⊎ (p.username_to_id n ≡ some u))
      → (p'.last_user_id ≡ 0) ⊎ IsUser p' p'.last_user_id
      → IsMirrored (update_user_on_disk true true t d) p'
  update-IsMirrored same old last' = record {
    listed = update-IsListed t d m.listed name_ok;
    stored = λ n other.
        update-stored_user t d n other fits
        ∙ ap (λ (o : Option UserPersistentData). if str_eq d.username n then some d else o)
            (m.stored n other)
        ∙ sym (same n);
    names = λ n u h.
        ground (arith, update-directory t d n, old n u h, m.names n u, str_eq_iff d.username n);
    last = last';
  }
