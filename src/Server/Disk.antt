-- ===== src/Server/Disk.antt =====
-- server/disk_operations.h, server/disk_operations.cpp: the files that keep users between runs. The
-- folder is a finite map from file names, without their ending .dat, to bytes: the user directory is
-- one of the files, and a user's file has the user's name. A name with a slash would lead to other
-- folders; the map takes it for a name like any other. Whether a file can be opened for writing is an
-- argument. Files are shorter than 2^31 bytes.
pub mod UserFile
pub mod Directory
use inf.Base.{
  Bool, List, Map, Option, Str, [], contains, drop, eq_str, eq_ℕ, false, if◌then◌else◌, insert,
  length, ltb, nat_eq, none, not, null, replicate, some, suc, take, true, zero, ℕ, ◌%◌, ◌&&◌, ◌*◌,
  ◌++◌, ◌+◌, ◌∷◌,
}
use inf.Server.Connections.{eq_address}
use inf.Server.Persistence.{UserPersistentData}
use inf.Shared.Ids.{word_values}
use inf.Shared.Memory.{of_bytes, to_bytes, write_at}
use inf.Shared.Validation.{is_valid_username}

-- The `memcpy` of 4-byte words to successive positions of a buffer.
unfoldable pub put_words : List ℕ → ℕ → List ℕ → List ℕ
put_words buffer position [] = buffer
put_words buffer position (word ∷ words) =
    put_words (write_at buffer position (to_bytes 4 word)) (position + 4) words

-- What `update_user_on_disk` writes to a user's file.
unfoldable pub encode_user : UserPersistentData → List ℕ
encode_user persistent_data =
    let number_of_followers = length persistent_data.followed_by % word_values in
    put_words (replicate ((4 + 4 + 4 * number_of_followers) % word_values) 0) 0
      (persistent_data.user_id ∷ number_of_followers ∷ persistent_data.followed_by)

-- The reads of successive words; at the end of the file the buffer keeps the word that it had.
unfoldable pub read_words : ℕ → ℕ → List ℕ → List ℕ
read_words buffer zero bytes = []
read_words buffer (suc n) [] = buffer ∷ read_words buffer n []
read_words buffer (suc n) (b ∷ bytes) =
    let word = of_bytes (take 4 (b ∷ bytes)) in word ∷ read_words word n (drop 4 (b ∷ bytes))

-- What `load_and_update_persistent_data` reads of a user's file, `none` if it is malformed.
unfoldable pub decode_user : Str → List ℕ → Option UserPersistentData
decode_user username bytes =
    let number_of_followers = of_bytes (take 4 (drop 4 bytes)) in
    if ltb (length bytes) (4 * 2)
    then none
    else if not (nat_eq (length bytes) ((4 * (2 + number_of_followers)) % word_values))
    then none
    else some (record {
      user_id = of_bytes (take 4 bytes);
      username = username;
      followed_by = read_words number_of_followers number_of_followers (drop 8 bytes);
    })

-- `UserDirectory::add_user`: whether the name was new, and the names after it.
unfoldable pub add_to_directory : List Str → Str → Bool × List Str
add_to_directory usernames new_username =
    if contains new_username usernames
    then (false, usernames)
    else (true, usernames ++ new_username ∷ [])

-- The name of user_directory.dat.
abbrev pub directory_name : Str
directory_name =
    117 ∷ 115 ∷ 101 ∷ 114 ∷ 95 ∷ 100 ∷ 105 ∷ 114 ∷ 101 ∷ 99 ∷ 116 ∷ 111 ∷ 114 ∷ 121 ∷ []

-- The manager's directory, and the files of the folder.
pub record DiskOperationsManagment : Type 0 where
  pub user_directory : List Str
  pub files : Map Str (List ℕ)

abbrev pub contents : Option (List ℕ) → List ℕ
contents none = []
contents (some bytes) = bytes

abbrev pub append_to_file : Map Str (List ℕ) → Str → List ℕ → Map Str (List ℕ)
append_to_file files name bytes = insert files name (contents (files name) ++ bytes)

-- `update_user_on_disk`, where the user's file and the directory's can be opened or not.
unfoldable pub update_user_on_disk :
    Bool → Bool → DiskOperationsManagment → UserPersistentData → DiskOperationsManagment
update_user_on_disk file_opens directory_opens s persistent_data =
    let added = add_to_directory s.user_directory persistent_data.username in
    let written = insert s.files persistent_data.username (encode_user persistent_data) in
    if not file_opens then record s { user_directory = added.1 } else record {
      user_directory = added.1;
      files =
          if added.0 && directory_opens
          then append_to_file written directory_name (persistent_data.username ++ 10 ∷ [])
          else written;
    }

-- One round of `fn_disk_io`, over what was drained from the queue, where all files open.
unfoldable pub update_users_on_disk :
    DiskOperationsManagment → List UserPersistentData → DiskOperationsManagment
update_users_on_disk s [] = s
update_users_on_disk s (persistent_data ∷ rest) =
    update_users_on_disk (update_user_on_disk true true s persistent_data) rest

-- The lines that `getline` reads; `line` is what it has read of the current one, which counts
-- without its end if it is not empty.
unfoldable pub lines_from : Str → Str → List Str
lines_from line [] = if null line then [] else line ∷ []
lines_from line (c ∷ text) =
    let next = lines_from [] text in
    let longer = lines_from (line ++ c ∷ []) text in if nat_eq c 10 then line ∷ next else longer

unfoldable pub valid_usernames : List Str → List Str
valid_usernames [] = []
valid_usernames (username ∷ rest) =
    let valid = valid_usernames rest in
    if not (is_valid_username username) then valid else username ∷ valid

-- The loop over the usernames: files that are missing or malformed are passed over.
unfoldable pub load_files : Map Str (List ℕ) → List Str → List UserPersistentData
load_files files [] = []
load_files files (username ∷ rest) =
    let loaded = load_files files rest in
    elim (files username) [
      | none ↦ loaded
      | some bytes ↦ elim (decode_user username bytes) [
        | none ↦ loaded
        | some persistent_data ↦ persistent_data ∷ loaded
      ]
    ]

-- `load_and_update_persistent_data`; a directory that is missing reads as an empty one.
unfoldable pub load_and_update_persistent_data :
    DiskOperationsManagment → List UserPersistentData × DiskOperationsManagment
load_and_update_persistent_data s =
    let usernames = valid_usernames (lines_from [] (contents (s.files directory_name))) in
    (load_files s.files usernames, record s { user_directory = usernames })
