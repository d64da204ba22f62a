-- ===== src/Shared/Memory.antt =====
-- Objects as runs of bytes: what the source does to them by `strcpy`, `memcpy` and by reading a
-- `char` array as a C string. Layouts are those of x86-64 Linux, little-endian.

use native.Mathlib.Nat.{pow-suc}
use inf.Base.{
  All, List, Outcome, Returns, Str, [], ap, append_assoc, arith, crash, drop, drop-append, eq_str,
  eq_ℕ, if◌then◌else◌, length, length-append, length-drop, length-take, ltb, nat_eq, ok, overrun,
  refl, suc, sym, take, take-append, take-append-drop, zero, ℕ, ◌%◌, ◌*◌, ◌++◌, ◌+◌, ◌/◌, ◌<◌, ◌^◌,
  ◌∙◌, ◌∷◌, ◌≡◌, ◌≢◌, ◌≤◌,
}
use inf.Server.Connections.{eq_address}

-- The bytes before the first NUL. Without one the source reads on past the object; the model
-- stops at its end.
unfoldable pub c_string : List ℕ → Str
c_string [] = []
c_string (b ∷ bytes) = let rest = c_string bytes in if nat_eq b 0 then [] else b ∷ rest

abbrev pub read_c_string : List ℕ → ℕ → Str
read_c_string bytes offset = c_string (drop offset bytes)

abbrev pub write_at : List ℕ → ℕ → List ℕ → List ℕ
write_at bytes offset new = take offset bytes ++ (new ++ drop (offset + length new) bytes)

-- `strcpy(object + offset, s.c_str())`. A write past the object ends the run.
unfoldable pub strcpy : List ℕ → ℕ → Str → Outcome (List ℕ)
strcpy bytes offset s =
    if ltb (length bytes) (offset + length (c_string s) + 1)
    then crash overrun
    else ok (write_at bytes offset (c_string s ++ 0 ∷ []))

-- The bytes of a word, the lowest first.
unfoldable pub to_bytes : ℕ → ℕ → List ℕ
to_bytes zero n = []
to_bytes (suc k) n = (n % 256) ∷ to_bytes k (n / 256)

unfoldable pub of_bytes : List ℕ → ℕ
of_bytes [] = 0
of_bytes (b ∷ bytes) = b + 256 * of_bytes bytes

abbrev pub NoNul : Str → Type 0
NoNul s = All (λ b. b ≢ 0) s

pub length-c_string : (bytes : List ℕ) → length (c_string bytes) ≤ length bytes
unfolding c_string
length-c_string [] = omega arith
length-c_string (b ∷ bytes) = ground (arith, length-c_string bytes)

pub c_string-NoNul : (s : Str) (rest : List ℕ) → NoNul s → c_string (s ++ 0 ∷ rest) ≡ s
unfolding c_string
c_string-NoNul [] rest h = refl
c_string-NoNul (b ∷ s) rest h = ground (arith, c_string-NoNul s rest h.1)

pub c_string-append :
    (s : Str) (rest : List ℕ) → NoNul s → c_string (s ++ rest) ≡ s ++ c_string rest
unfolding c_string
c_string-append [] rest h = refl
c_string-append (b ∷ s) rest h = ground (arith, c_string-append s rest h.1)

pub c_string_id : (s : Str) → NoNul s → c_string s ≡ s
unfolding c_string
c_string_id [] h = refl
c_string_id (b ∷ s) h = ground (arith, c_string_id s h.1)

pub length-to_bytes : (k n : ℕ) → length (to_bytes k n) ≡ k
unfolding to_bytes
length-to_bytes zero n = refl
length-to_bytes (suc k) n = ap suc (length-to_bytes k (n / 256))

-- A word that fits its bytes is read back.
pub of_bytes-to_bytes : (k n : ℕ) → n < 256 ^ k → of_bytes (to_bytes k n) ≡ n
unfolding of_bytes to_bytes
of_bytes-to_bytes zero n h = omega arith
of_bytes-to_bytes (suc k) n h =
    omega (arith, pow-suc 256 k, of_bytes-to_bytes k (n / 256) (omega (arith, pow-suc 256 k)))

pub length-write_at :
    (bytes new : List ℕ) (offset : ℕ)
    → offset + length new ≤ length bytes
    → length (write_at bytes offset new) ≡ length bytes
length-write_at bytes new offset h = omega (
  arith,
  length-append (take offset bytes) (new ++ drop (offset + length new) bytes),
  length-append new (drop (offset + length new) bytes),
  length-take offset bytes,
  length-drop (offset + length new) bytes,
)

-- The `k` bytes from offset `j` on.
abbrev pub region : ℕ → ℕ → List ℕ → List ℕ
region j k bytes = take k (drop j bytes)

pub take-take-append :
    (bytes rest : List ℕ) (offset k : ℕ)
    → k ≤ offset
    → offset ≤ length bytes
    → take k (take offset bytes ++ rest) ≡ take k bytes
take-take-append bytes rest offset zero h l = refl
take-take-append bytes rest zero (suc k) h l = absurd (omega arith)
take-take-append [] rest (suc offset) (suc k) h l = absurd (omega arith)
take-take-append (b ∷ bytes) rest (suc offset) (suc k) h l =
    ap (◌∷◌ b) (take-take-append bytes rest offset k (omega arith) (omega arith))

region-below :
    (bytes rest : List ℕ) (offset j k : ℕ)
    → j + k ≤ offset
    → offset ≤ length bytes
    → region j k (take offset bytes ++ rest) ≡ region j k bytes
region-below bytes rest offset zero k h l = take-take-append bytes rest offset k (omega arith) l
region-below bytes rest zero (suc j) k h l = absurd (omega arith)
region-below [] rest (suc offset) (suc j) k h l = absurd (omega arith)
region-below (b ∷ bytes) rest (suc offset) (suc j) k h l =
    region-below bytes rest offset j k (omega arith) (omega arith)

-- A write leaves what is below it, and what it wrote is there.
pub region-write_below :
    (bytes new : List ℕ) (offset j k : ℕ)
    → j + k ≤ offset
    → offset ≤ length bytes
    → region j k (write_at bytes offset new) ≡ region j k bytes
region-write_below bytes new offset j k h l = region-below bytes _ offset j k h l

pub region-write :
    (bytes new : List ℕ) (offset : ℕ)
    → offset ≤ length bytes
    → region offset (length new) (write_at bytes offset new) ≡ new
region-write bytes new offset l =
    rw
      (drop-append (take offset bytes) (new ++ drop (offset + length new) bytes) offset
        (omega (arith, length-take offset bytes)))
      (take-append new (drop (offset + length new) bytes) (length new) refl)

pub c_string-region :
    (bytes : List ℕ) (s : Str)
    → NoNul s
    → take (length s + 1) bytes ≡ s ++ 0 ∷ []
    → c_string bytes ≡ s
c_string-region bytes s h e =
    ap c_string (sym (take-append-drop (length s + 1) bytes))
    ∙ ap (λ (t : List ℕ). c_string (t ++ drop (length s + 1) bytes)) e
    ∙ ap c_string (append_assoc s (0 ∷ []) (drop (length s + 1) bytes))
    ∙ c_string-NoNul s (drop (length s + 1) bytes) h

c_string_clean : (s : Str) → NoNul (c_string s)
unfolding c_string
c_string_clean [] = tt
c_string_clean (b ∷ s) = ground (arith, c_string_clean s)

-- A text that fits is copied up to its first NUL, with its terminator.
pub strcpy_fits :
    (bytes : List ℕ) (offset : ℕ) (s : Str)
    → NoNul s
    → offset + length s + 1 ≤ length bytes
    → strcpy bytes offset s ≡ ok (write_at bytes offset (s ++ 0 ∷ []))
unfolding strcpy
strcpy_fits bytes offset s h fits = rw (c_string_id s h) (ground arith)

pub strcpy_overruns :
    (bytes : List ℕ) (offset : ℕ) (s : Str)
    → length bytes < offset + length (c_string s) + 1
    → strcpy bytes offset s ≡ crash overrun
unfolding strcpy
strcpy_overruns bytes offset s over = ground arith

-- What follows the first NUL of a text is not copied.
pub strcpy-c_string :
    (bytes : List ℕ) (offset : ℕ) (s : Str)
    → (strcpy bytes offset s ≡ strcpy bytes offset (c_string s)) × NoNul (c_string s)
unfolding strcpy
strcpy-c_string bytes offset s =
    (rw (c_string_id (c_string s) (c_string_clean s)), c_string_clean s)

-- A copy that fits is read as the text that was copied.
pub strcpy_reads :
    (bytes : List ℕ) (s : Str)
    → length (c_string s) < length bytes
    → Returns (strcpy bytes 0 s) λ p. (c_string p ≡ c_string s) × (length p ≡ length bytes)
strcpy_reads bytes s fits =
    let (same, clean) = strcpy-c_string bytes 0 s in
    let t = c_string s in
    rw same (
      rw (strcpy_fits bytes 0 t clean (omega (arith, fits))) (
        c_string-region (write_at bytes 0 (t ++ 0 ∷ [])) t clean
            (rw (← length-append t (0 ∷ [])) (region-write bytes (t ++ 0 ∷ []) 0 (omega arith))),
        length-write_at bytes (t ++ 0 ∷ []) 0 (omega (arith, fits, length-append t (0 ∷ []))),
      ))
