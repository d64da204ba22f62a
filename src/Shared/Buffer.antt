-- ===== src/Shared/Buffer.antt =====
-- The buffers of BUFFER_SIZE bytes (shared/shared.h) that datagrams are read into, as they are parsed:
-- client/client_connection.cpp, client/client_receiver.cpp, client/login.cpp,
-- server/server_receiver.cpp.
use inf.Base.{
  Bool-cases, List, Option, Outcome, Str, [], ap, append_assoc, arith, crash, drop, eq_str, eq_ℕ,
  if◌then◌else◌, inl, inr, length, length-append, length-drop, nat_eq, none, ok, overrun, refl,
  some, suc, sym, take, zero, ℕ, ◌++◌, ◌+◌, ◌∙◌, ◌∷◌, ◌≡◌, ◌≤◌,
}
use inf.Server.Connections.{eq_address}
use inf.Shared.Json.{Json}

abbrev pub buffer_size : ℕ
buffer_size = 512

-- The bytes before the first NUL, `none` if there is none.
unfoldable pub until_nul : List ℕ → Option Str
until_nul [] = none
until_nul (b ∷ bytes) =
    let rest = until_nul bytes in
    if nat_eq b 0 then some [] else elim rest [ none ↦ none | some s ↦ some (b ∷ s) ]

-- `read` of a datagram into a buffer: what does not fit is lost, and no NUL is added.
abbrev pub read_to_buffer : List ℕ → List ℕ → List ℕ
read_to_buffer buffer datagram = take buffer_size datagram ++ drop (length datagram) buffer

until_nul-end : (memory : List ℕ) → (behind : Str) × (until_nul (memory ++ 0 ∷ []) ≡ some behind)
unfolding until_nul
until_nul-end [] = ([], refl)
until_nul-end (b ∷ memory) =
    let (behind, e) = until_nul-end memory in
    elim (Bool-cases (nat_eq b 0)) [
      | inl nul ↦ ([], rw nul refl)
      | inr other ↦ (b ∷ behind, rw other (rw e refl))
    ]

until_nul-drop :
    (n : ℕ) (memory : List ℕ)
    → n ≤ length memory
    → (behind : Str) × (until_nul (drop n (memory ++ 0 ∷ [])) ≡ some behind)
until_nul-drop zero memory h = until_nul-end memory
until_nul-drop (suc n) [] h = absurd (omega arith)
until_nul-drop (suc n) (b ∷ memory) h = until_nul-drop n memory (omega arith)

drop_last :
    (n : ℕ) (memory : List ℕ)
    → n ≤ length memory
    → drop n (memory ++ 0 ∷ []) ≡ drop n memory ++ 0 ∷ []
drop_last zero memory h = refl
drop_last (suc n) [] h = absurd (omega arith)
drop_last (suc n) (b ∷ memory) h = drop_last n memory (omega arith)

take_all : (n : ℕ) (xs : List ℕ) → length xs ≤ n → take n xs ≡ xs
take_all zero [] h = refl
take_all zero (x ∷ xs) h = absurd (omega arith)
take_all (suc n) [] h = refl
take_all (suc n) (x ∷ xs) h = ap (λ (l : List ℕ). x ∷ l) (take_all n xs (omega arith))

-- A datagram shorter than the buffer leaves the NUL at its end.
pub read_to_buffer-keeps :
    (memory datagram : List ℕ)
    → length memory + 1 ≡ buffer_size
    → length datagram ≤ length memory
    → (kept : List ℕ) × (read_to_buffer (memory ++ 0 ∷ []) datagram ≡ kept ++ 0 ∷ [])
      × (length kept + 1 ≡ buffer_size)
read_to_buffer-keeps memory datagram whole short = (
  datagram ++ drop (length datagram) memory,
  ap (λ (l : List ℕ). l ++ drop (length datagram) (memory ++ 0 ∷ []))
        (take_all buffer_size datagram (omega arith))
      ∙ ap (λ (l : List ℕ). datagram ++ l) (drop_last (length datagram) memory short)
      ∙ sym (append_assoc datagram (drop (length datagram) memory) (0 ∷ [])),
  omega (
    arith,
    short,
    whole,
    length-append datagram (drop (length datagram) memory),
    length-drop (length datagram) memory,
  ),
)

module _ (J : Json) where
  -- `reader.parse` of a buffer, as a C string, that a text was read into. A buffer without a NUL, as
  -- after a text that fills it, is read past its end.
  unfoldable pub parse_buffer : List ℕ → J.Text → Outcome (Option J.Value)
  parse_buffer buffer text = elim (until_nul (drop (length (J.bytes text)) buffer)) [
    | none ↦ crash overrun
    | some behind ↦ ok (J.parse text behind)
  ]

  -- A text shorter than a buffer whose last byte is a NUL is parsed, with some bytes behind it.
  pub parse_buffer_lem :
      (memory : List ℕ) (text : J.Text) (v : J.Value)
      → length (J.bytes text) ≤ length memory
      → ((behind : Str) → J.parse text behind ≡ some v)
      → parse_buffer (memory ++ 0 ∷ []) text ≡ ok (some v)
  unfolding parse_buffer
  parse_buffer_lem memory text v short parsed =
      let (behind, e) = until_nul-drop (length (J.bytes text)) memory short in
      rw (e, parse_buffer) (rw (parsed behind) refl)
