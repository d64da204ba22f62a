-- ===== src/Shared/Validation.antt =====
-- shared/shared_helpers.cpp: which usernames and message texts are accepted.
use inf.Base.{
  All, Bool, Str, [], arith, false, if◌then◌else◌, leb, length, ltb, nat_eq, not, refl, true, ℕ,
  ◌&&◌, ◌||◌, ◌↔◌, ◌∷◌, ◌≡◌, ◌≤◌,
}

-- `is_valid_ascii`: the loop returns at the first byte that is refused.
unfoldable pub is_valid_ascii : Str → Bool → Bool
is_valid_ascii [] allow_space = true
is_valid_ascii (c ∷ text) allow_space =
    let rest = is_valid_ascii text allow_space in
    if nat_eq c 32
    then (if not allow_space then false else rest)
    else if leb 33 c && leb c 126
    then rest
    else false

-- The source keeps `size()` in an `int`: for the strings here, of fewer than 2^31 bytes, that is the
-- length.
unfoldable pub is_valid_username : Str → Bool
is_valid_username username =
    if ltb (length username) 4 || ltb 20 (length username)
    then false
    else is_valid_ascii username false

-- As above, `len` is the length for strings of fewer than 2^31 bytes.
unfoldable pub is_valid_message : Str → Bool
is_valid_message message =
    if ltb (length message) 1 || ltb 128 (length message)
    then false
    else is_valid_ascii message true

-- Bytes from 33 to 126, and the space where it is allowed.
abbrev pub IsPrintable : Bool → ℕ → Type 0
IsPrintable true c = (32 ≤ c) × (c ≤ 126)
IsPrintable false c = (33 ≤ c) × (c ≤ 126)

pub is_valid_ascii_iff :
    (text : Str) (allow_space : Bool)
    → (is_valid_ascii text allow_space ≡ true) ↔ All (IsPrintable allow_space) text
unfolding is_valid_ascii
is_valid_ascii_iff [] b = (λ _. tt, λ _. refl)
is_valid_ascii_iff (c ∷ text) true = ground (arith, is_valid_ascii_iff text true)
is_valid_ascii_iff (c ∷ text) false = ground (arith, is_valid_ascii_iff text false)

-- A username is accepted exactly when it has 4 to 20 bytes, all of them from 33 to 126.
pub is_valid_username_iff :
    (username : Str)
    → (is_valid_username username ≡ true)
      ↔ ((4 ≤ length username) × (length username ≤ 20) × All (IsPrintable false) username)
unfolding is_valid_username
is_valid_username_iff username = ground (arith, is_valid_ascii_iff username false)

-- A message is accepted exactly when it has 1 to 128 bytes, all of them from 32 to 126.
pub is_valid_message_iff :
    (message : Str)
    → (is_valid_message message ≡ true)
      ↔ ((1 ≤ length message) × (length message ≤ 128) × All (IsPrintable true) message)
unfolding is_valid_message
is_valid_message_iff message = ground (arith, is_valid_ascii_iff message true)
