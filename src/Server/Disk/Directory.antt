-- ===== src/Server/Disk/Directory.antt =====
-- The user directory and the users' files, over updates and a restart.
use inf.Base.{
  All, All-append, Bool-cases, List, Option, Str, [], ap, append-nil, append_assoc, arith, contains,
  eq_str, eq_ℕ, false, if◌then◌else◌, inl, inr, nat_eq, none, refl, some, str_eq, str_eq_iff, subst,
  sym, true, ℕ, ◌++◌, ◌∙◌, ◌∷◌, ◌≡◌, ◌⊎◌,
}
use inf.Server.Connections.{eq_address}
use inf.Server.Disk.{
  DiskOperationsManagment, add_to_directory, contents, decode_user, directory_name, encode_user,
  lines_from, load_and_update_persistent_data, load_files, update_user_on_disk,
  update_users_on_disk, valid_usernames,
}
use inf.Server.Disk.UserFile.{IsStorable, decode_user-encode_user}
use inf.Server.Persistence.{UserPersistentData}
use inf.Shared.Validation.{IsPrintable, is_valid_username, is_valid_username_iff}

-- The directory's file for a list of names.
abbrev pub file_of : List Str → Str
file_of [] = []
file_of (n ∷ ns) = n ++ 10 ∷ file_of ns

abbrev pub directory_file : DiskOperationsManagment → Str
directory_file s = contents (s.files directory_name)

-- A valid name that is not the name of the directory's file and has no slash.
abbrev pub IsFileName : Str → Type 0
IsFileName n =
    (is_valid_username n ≡ true) × (str_eq n directory_name ≡ false) × (contains 47 n ≡ false)

-- The names in memory are valid, and are those of the directory's file.
pub record IsListed (s : DiskOperationsManagment) : Type 0 where
  pub valid : All IsFileName s.user_directory
  pub listed : directory_file s ≡ file_of s.user_directory

-- What is stored for a name, as a restart reads it.
abbrev decoded : Str → Option (List ℕ) → Option UserPersistentData
decoded name none = none
decoded name (some bytes) = decode_user name bytes

abbrev pub stored_user : DiskOperationsManagment → Str → Option UserPersistentData
stored_user s name = decoded name (s.files name)

-- The data of the names that have some, in the order of the names.
abbrev pub collect : (Str → Option UserPersistentData) → List Str → List UserPersistentData
collect f [] = []
collect f (n ∷ ns) = elim (f n) [ none ↦ collect f ns | some d ↦ d ∷ collect f ns ]

-- The last data for a name in a list of updates, if there is any, and `o` otherwise.
abbrev pub latest :
    List UserPersistentData → Str → Option UserPersistentData → Option UserPersistentData
latest [] name o = o
latest (d ∷ ds) name o = latest ds name (if str_eq d.username name then some d else o)

lines-name :
    (line n rest : Str)
    → All (IsPrintable false) n
    → lines_from line (n ++ 10 ∷ rest) ≡ (line ++ n) ∷ lines_from [] rest
unfolding lines_from
lines-name line [] rest h = ap (λ (l : Str). l ∷ lines_from [] rest) (sym (append-nil line))
lines-name line (c ∷ n) rest h =
    let other : nat_eq c 10 ≡ false = ground (arith, h.0) in
    rw other (
      lines-name (line ++ c ∷ []) n rest h.1
      ∙ ap (λ (l : Str). l ∷ lines_from [] rest) (append_assoc line (c ∷ []) n))

lines-file_of : (ns : List Str) → All IsFileName ns → lines_from [] (file_of ns) ≡ ns
unfolding lines_from
lines-file_of [] h = refl
lines-file_of (n ∷ ns) h =
    lines-name [] n (file_of ns) ((is_valid_username_iff n).0 h.0.0).2
    ∙ ap (◌∷◌ n) (lines-file_of ns h.1)

valid_usernames-All : (ns : List Str) → All IsFileName ns → valid_usernames ns ≡ ns
unfolding valid_usernames
valid_usernames-All [] h = refl
valid_usernames-All (n ∷ ns) h = rw (h.0.0) (ap (◌∷◌ n) (valid_usernames-All ns h.1))

file_of-append : (ns : List Str) (n : Str) → file_of (ns ++ n ∷ []) ≡ file_of ns ++ (n ++ 10 ∷ [])
file_of-append [] n = refl
file_of-append (x ∷ ns) n =
    ap (λ (l : Str). x ++ 10 ∷ l) (file_of-append ns n)
    ∙ sym (append_assoc x (10 ∷ file_of ns) (n ++ 10 ∷ []))

load_files-collect :
    (s : DiskOperationsManagment) (ns : List Str)
    → load_files s.files ns ≡ collect (stored_user s) ns
unfolding load_files
load_files-collect s [] = refl
load_files-collect s (n ∷ ns) = ground (arith, load_files-collect s ns)

-- From a folder whose directory lists the names in memory, a restart reads, for each of them in
-- order, what is stored for it, and has the same names in memory.
pub load_and_update_persistent_data_lem :
    (s : DiskOperationsManagment)
    → IsListed s
    → load_and_update_persistent_data s ≡ (collect (stored_user s) s.user_directory, s)
unfolding load_and_update_persistent_data
load_and_update_persistent_data_lem s h =
    let names : valid_usernames (lines_from [] (directory_file s)) ≡ s.user_directory =
      ap (λ (l : Str). valid_usernames (lines_from [] l)) h.listed
      ∙ ap valid_usernames (lines-file_of s.user_directory h.valid)
      ∙ valid_usernames-All s.user_directory h.valid in
    rw names (ap (λ (l : List UserPersistentData). (l, s)) (load_files-collect s s.user_directory))

pub update-IsListed :
    (s : DiskOperationsManagment) (d : UserPersistentData)
    → IsListed s
    → IsFileName d.username
    → IsListed (update_user_on_disk true true s d)
unfolding update_user_on_disk add_to_directory str_eq
update-IsListed s d h valid = elim (Bool-cases (contains d.username s.user_directory)) [
  | inl old ↦ rw old (record { valid = h.valid; listed = rw (valid.1) (h.listed) })
  | inr new ↦ rw new (record {
    valid = All-append IsFileName s.user_directory (d.username ∷ []) h.valid (valid, tt);
    listed = rw (valid.1) (
        ap (λ (l : Str). l ++ (d.username ++ 10 ∷ [])) h.listed
        ∙ sym (file_of-append s.user_directory d.username));
  })
]

-- What was written for a name, or what was there.
update_files :
    (s : DiskOperationsManagment) (d : UserPersistentData) (name : Str)
    → str_eq name directory_name ≡ false
    → (update_user_on_disk true true s d).files name
      ≡ (if str_eq d.username name then some (encode_user d) else s.files name)
unfolding update_user_on_disk
update_files s d name other =
    ground (arith, str_eq_iff name directory_name, str_eq_iff directory_name name)

pub update-stored_user :
    (s : DiskOperationsManagment) (d : UserPersistentData) (name : Str)
    → str_eq name directory_name ≡ false
    → IsStorable d
    → stored_user (update_user_on_disk true true s d) name
      ≡ (if str_eq d.username name then some d else stored_user s name)
update-stored_user s d name other h =
    ap (decoded name) (update_files s d name other) ∙ written (Bool-cases (str_eq d.username name))
  where
    written :
        (str_eq d.username name ≡ true) ⊎ (str_eq d.username name ≡ false)
        → decoded name (if str_eq d.username name then some (encode_user d) else s.files name)
          ≡ (if str_eq d.username name then some d else stored_user s name)
    written (inl same) = rw same (
        subst (λ (n : Str). decode_user n (encode_user d) ≡ some d)
          ((str_eq_iff d.username name).0 same) (decode_user-encode_user d h))
    written (inr differs) = rw differs refl

-- From a folder whose directory lists the names in memory, after a list of updates for which all
-- files open, all of valid names other than the directory's and with data that fits, the directory
-- lists the names in memory again, and a restart finds for each such name the last data that was
-- written for it, or what was there.
pub update_users_on_disk_lem :
    (s : DiskOperationsManagment) (ds : List UserPersistentData) (name : Str)
    → str_eq name directory_name ≡ false
    → IsListed s
    → All (λ d. IsFileName d.username × IsStorable d) ds
    → IsListed (update_users_on_disk s ds)
      × (stored_user (update_users_on_disk s ds) name ≡ latest ds name (stored_user s name))
unfolding update_users_on_disk
update_users_on_disk_lem s [] name other h all = (h, refl)
update_users_on_disk_lem s (d ∷ ds) name other h all =
    let next =
      update_users_on_disk_lem (update_user_on_disk true true s d) ds name other
        (update-IsListed s d h all.0.0) all.1 in
    (next.0, next.1 ∙ ap (latest ds name) (update-stored_user s d name other all.0.1))
