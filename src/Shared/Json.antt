-- ===== src/Shared/Json.antt =====
-- What the two programs use of jsoncpp, as parameters: the accessors that may throw, the writer and
-- the reader.
use Prim.Native.String.{String}
use text.Mathlib.Text.{◌==◌ as str_eq_native}
use inf.Base.{
  All, List, Option, Outcome, Str, [], eq_str, eq_ℕ, if◌then◌else◌, none, ok, some, ℕ, ◌%◌, ◌^◌,
  ◌∷◌, ◌≡◌, ◌≤◌,
}
use inf.Server.Connections.{eq_address}

-- A member that the program sets on a JSON object: an `int` (its 32-bit pattern) or a text.
pub data Field : Type 0 where
  int : ℕ → Field
  string : Str → Field

abbrev pub Members : Type 0
Members = List (String × Field)

-- The value set under a key: the last, which overwrites those before it.
abbrev pub member : Members → String → Option Field
member [] key = none
member ((k, f) ∷ ms) key =
    let later = member ms key in
    elim later [ some g ↦ some g | none ↦ if str_eq_native k key then some f else none ]

pub record Json : Type 1 where
  -- `Json::Value`.
  pub Value : Type 0
  -- The text of a JSON document.
  pub Text : Type 0
  -- Its bytes, without the NUL at the end: `c_str()`.
  pub bytes : Text → Str
  -- `value[key].asInt()`, as the 32 bits of the `int`.
  pub as_int : Value → String → Outcome ℕ
  -- `value[key].asString()`.
  pub as_string : Value → String → Outcome Str
  -- `FastWriter::write` of an object with these members.
  pub write : Members → Text
  -- `Reader::parse` of a buffer that holds a text and behind it, up to its NUL, these bytes; `none`
  -- where it reports failure.
  pub parse : Text → Str → Option Value

-- Bytes from 1 to 127: UTF-8 of one byte each, and no NUL.
abbrev pub IsAscii : Str → Type 0
IsAscii s = All (λ b. (1 ≤ b) × (b ≤ 127)) s

-- Every text that is set is such a one.
abbrev pub IsPlain : Members → Type 0
IsPlain [] = Unit {0}
IsPlain ((k, int n) ∷ ms) = IsPlain ms
IsPlain ((k, string s) ∷ ms) = IsAscii s × IsPlain ms

-- What jsoncpp documents of them together: a written object is parsed, whatever stands behind it
-- (`failIfExtra` is not set), to a value whose members are those that were set. Its texts are UTF-8,
-- so that other bytes need not come back; here only ASCII is relied on. A number is that of an `int`.
pub record RoundTrips (J : Json) : Type 0 where
  pub parsed : Members → J.Value
  pub parse_write :
      (ms : Members) (behind : Str) → IsPlain ms → J.parse (J.write ms) behind ≡ some (parsed ms)
  pub int_member :
      (ms : Members) (key : String) (n : ℕ)
      → IsPlain ms
      → member ms key ≡ some (int n)
      → J.as_int (parsed ms) key ≡ ok (n % 2 ^ 32)
  pub text_member :
      (ms : Members) (key : String) (s : Str)
      → IsPlain ms
      → member ms key ≡ some (string s)
      → J.as_string (parsed ms) key ≡ ok s
