-- ===== src/Examples/Disk.antt =====
-- The theorems on the disk's files, at a folder of two users.
use inf.Base.{[], arith, empty_map, eq_str, eq_ℕ, insert, refl, some, str_eq, ◌∷◌, ◌≡◌}
use inf.Examples.{alice, alice_data, bobby, bobby_data}
use inf.Server.Connections.{eq_address}
use inf.Server.Disk.{DiskOperationsManagment, decode_user, directory_name, encode_user}
use inf.Server.Disk.Directory.{IsFileName, IsListed, file_of}
use inf.Server.Disk.UserFile.{IsStorable, decode_user-encode_user}
use inf.Shared.Validation.{is_valid_ascii, is_valid_username}

alice-IsStorable : IsStorable alice_data
alice-IsStorable = record {
  id_fits = omega arith;
  followers_fit = (omega arith, tt);
  few_followers = omega arith;
}

bobby-IsStorable : IsStorable bobby_data
bobby-IsStorable = record { id_fits = omega arith; followers_fit = tt; few_followers = omega arith }

decode_user-encode_user_example : decode_user alice (encode_user alice_data) ≡ some alice_data
decode_user-encode_user_example = decode_user-encode_user alice_data alice-IsStorable

pub alice-IsFileName : IsFileName alice
unfolding is_valid_username is_valid_ascii str_eq inf.Base.contains
alice-IsFileName = (refl, refl, refl)

pub bobby-IsFileName : IsFileName bobby
unfolding is_valid_username is_valid_ascii str_eq inf.Base.contains
bobby-IsFileName = (refl, refl, refl)

-- A folder in which alice has a file.
abbrev folder : DiskOperationsManagment
folder = record {
  user_directory = alice ∷ [];
  files =
      insert (insert empty_map alice (encode_user alice_data)) directory_name
        (file_of (alice ∷ []));
}

folder-IsListed : IsListed folder
unfolding str_eq
folder-IsListed = record { valid = (alice-IsFileName, tt); listed = refl }
