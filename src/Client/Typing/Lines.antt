-- ===== src/Client/Typing/Lines.antt =====
-- What the thread of `fn_user_input` writes, in client/user_input.cpp.
use inf.Base.{
  All, Bool, Bool-cases, List, Option, Outcome, Returns, Returns-bind, Returns-if, Returns-mono,
  Str, [], ap, arith, eq_str, eq_ℕ, false, inl, inr, length, nat_eq, none, not, null, ok, refl,
  some, str_eq, true, ◌<◌, ◌∙◌, ◌∷◌, ◌≡◌, ◌≤◌,
}
use inf.Client.Input.{
  UserInput, UserInputData, follow_word, input_follow, input_quit, input_send, next_token, no_input,
  quit_word, read_command, read_follow, read_send, send_word,
}
use inf.Client.Message.{client_payload_size}
use inf.Client.Typing.{InputRound, Typed, after_command, after_line, fn_user_input}
use inf.Server.Connections.{eq_address}
use inf.Server.Message.Payload.{message-NoNul, username-NoNul}
use inf.Shared.Memory.{NoNul, c_string, c_string_id, length-c_string, strcpy, strcpy_reads}
use inf.Shared.Validation.{is_valid_message, is_valid_username}

-- What is read of the bytes of a command: a text to send is valid and fits the payload, a name to
-- follow is valid and not the user's own. Nothing else but a quit is written.
abbrev pub IsTyped : Str → UserInput → Type 0
IsTyped username (input_send d) =
    (is_valid_message (c_string d) ≡ true) × (length (c_string d) < client_payload_size)
IsTyped username (input_follow d) =
    (is_valid_username (c_string d) ≡ true) × (str_eq (c_string d) username ≡ false)
IsTyped username input_quit = Unit {0}
IsTyped username no_input = ⊥

abbrev IsTypedIfAny : Str → Option UserInput → Type 0
IsTypedIfAny username none = Unit {0}
IsTypedIfAny username (some c) = IsTyped username c

length-next_token : (line : Str) → length (next_token line).1 ≤ length line
unfolding next_token
length-next_token [] = omega arith
length-next_token (c ∷ line) = ground (arith, length-next_token line)

-- Every command is such a one, and only the last is a quit, after which the thread is left.
abbrev pub IsInput : Str → List UserInput → Bool → Type 0
IsInput username [] over = Unit {0}
IsInput username (input_quit ∷ cs) over = (cs ≡ []) × (over ≡ true)
IsInput username (c ∷ cs) over = IsTyped username c × IsInput username cs over

-- A line, if there is one, shorter than 128 bytes.
abbrev pub IsShortLine : Option Str → Type 0
IsShortLine none = Unit {0}
IsShortLine (some line) = length line < client_payload_size

abbrev pub IsShortRound : InputRound → Type 0
IsShortRound r = IsShortLine r.line

module _ (uninitialised : UserInputData) (sized : length uninitialised ≡ client_payload_size) where
  copied_is :
      (text : Str)
      → NoNul text
      → length text < client_payload_size
      → Returns (strcpy uninitialised 0 text) λ d. c_string d ≡ text
  copied_is text clean short =
      Returns-mono (λ d. (c_string d ≡ c_string text) × (length d ≡ length uninitialised))
        (λ d. c_string d ≡ text) (strcpy uninitialised 0 text) (λ d e. e.0 ∙ c_string_id text clean)
        (strcpy_reads uninitialised text (omega (arith, sized, short, length-c_string text)))

  read_send-IsTyped :
      (username text : Str)
      → length text < client_payload_size
      → Returns (read_send uninitialised text) (IsTypedIfAny username)
  unfolding read_send
  read_send-IsTyped username text short =
      Returns-if (IsTypedIfAny username) (null text) (ok none) _ tt
        (elim (Bool-cases (is_valid_message text)) [
          | inr invalid ↦ rw invalid tt
          | inl valid ↦ rw valid (
              Returns-bind _ (IsTypedIfAny username) (strcpy uninitialised 0 text) _
                (copied_is text (message-NoNul text valid) short)
                λ d e. (ap is_valid_message e ∙ valid, rw e short))
        ])

  read_follow-IsTyped :
      (username text : Str)
      → length text < client_payload_size
      → Returns (read_follow uninitialised username text) (IsTypedIfAny username)
  unfolding read_follow
  read_follow-IsTyped username [] short = tt
  read_follow-IsTyped username (c ∷ text) short =
      Returns-if (IsTypedIfAny username) (not (nat_eq c 64)) (ok none) _ tt
        (elim (Bool-cases (is_valid_username text)) [
          | inr invalid ↦ rw invalid tt
          | inl valid ↦ elim (Bool-cases (str_eq text username)) [
            | inl own ↦ rw valid (rw own tt)
            | inr other ↦ rw valid (
                rw other (
                  Returns-bind _ (IsTypedIfAny username) (strcpy uninitialised 0 text) _
                    (copied_is text (username-NoNul text valid) (omega (arith, short)))
                    λ d e. (
                      ap is_valid_username e ∙ valid,
                      ap (λ (n : Str). str_eq n username) e ∙ other,
                    )))
          ]
        ])

  read_command-IsTyped :
      (username line : Str)
      → length line < client_payload_size
      → Returns (read_command uninitialised username line) (IsTypedIfAny username)
  unfolding read_command
  read_command-IsTyped username line short =
      let rest = (next_token line).1 in
      let fits : length rest < client_payload_size = omega (arith, short, length-next_token line) in
      Returns-if (IsTypedIfAny username) (null line) (ok none) _ tt (
        Returns-if (IsTypedIfAny username) (str_eq (next_token line).0 quit_word)
          (ok (some input_quit)) _ tt
          (Returns-if (IsTypedIfAny username) (str_eq (next_token line).0 send_word) _ _
            (read_send-IsTyped username rest fits)
            (Returns-if (IsTypedIfAny username) (str_eq (next_token line).0 follow_word) _ _
              (read_follow-IsTyped username rest fits) tt)))

  after-IsInput :
      (username : Str) (c : Option UserInput) (later : Outcome Typed)
      → IsTypedIfAny username c
      → Returns later (λ t. IsInput username t.0 t.1)
      → Returns (after_command c later) λ t. IsInput username t.0 t.1
  after-IsInput username none later h k = k
  after-IsInput username (some input_quit) later h k = (refl, refl)
  after-IsInput username (some no_input) later h k =
      Returns-bind (λ t. IsInput username t.0 t.1) (λ t. IsInput username t.0 t.1) later _ k
        (λ t i. (h, i))
  after-IsInput username (some (input_send d)) later h k =
      Returns-bind (λ t. IsInput username t.0 t.1) (λ t. IsInput username t.0 t.1) later _ k
        (λ t i. (h, i))
  after-IsInput username (some (input_follow d)) later h k =
      Returns-bind (λ t. IsInput username t.0 t.1) (λ t. IsInput username t.0 t.1) later _ k
        (λ t i. (h, i))

  after_line-IsInput :
      (username : Str) (line : Option Str) (told : Bool) (later : Outcome Typed)
      → IsShortLine line
      → Returns later (λ t. IsInput username t.0 t.1)
      → Returns (after_line uninitialised username line told later) λ t. IsInput username t.0 t.1
  after_line-IsInput username none told later short k = (refl, refl)
  after_line-IsInput username (some buffer) told later short k =
      Returns-if (λ t. IsInput username t.0 t.1) told (ok ([], true)) _ tt
        (Returns-bind (IsTypedIfAny username) (λ t. IsInput username t.0 t.1)
          (read_command uninitialised username buffer) _
          (read_command-IsTyped username buffer short)
          λ c typed. after-IsInput username c later typed k)

  -- If every line that is typed is shorter than 128 bytes, the input thread ends its rounds without
  -- a crash. What it has written then are valid texts shorter than 128 bytes to send, valid names
  -- other than the user's own to follow, and at most one command to quit: the last, after which the
  -- thread is left. The uninitialised object has its size.
  pub fn_user_input_lem :
      (username : Str) (rounds : List InputRound)
      → All IsShortRound rounds
      → Returns (fn_user_input uninitialised username rounds) λ t. IsInput username t.0 t.1
  unfolding fn_user_input
  fn_user_input_lem username [] h = tt
  fn_user_input_lem username (r ∷ rounds) h =
      let others = fn_user_input_lem username rounds h.1 in
      Returns-if (λ t. IsInput username t.0 t.1) r.told_before (ok ([], true)) _ tt
        (after_line-IsInput username r.line r.told_after
          (fn_user_input uninitialised username rounds) h.0 others)
