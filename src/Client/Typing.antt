-- ===== src/Client/Typing.antt =====
-- The loop of `fn_user_input` of client/user_input.cpp. What the system answers in a round is an
-- argument, a round after the other.
pub mod Lines
use inf.Base.{
  Bool, List, Option, Outcome, Str, [], eq_str, eq_ℕ, false, if◌then◌else◌, none, ok, some, true,
  ◌>>=◌, ◌∷◌,
}
use inf.Client.Input.{UserInput, UserInputData, input_quit, read_command}
use inf.Server.Connections.{eq_address}

-- `must_terminate` before the line is asked for, the line, `none` at the end of the input, and
-- `must_terminate` after it.
pub record InputRound : Type 0 where
  pub told_before : Bool
  pub line : Option Str
  pub told_after : Bool

-- The commands that are written, and whether the thread is left.
abbrev pub Typed : Type 0
Typed = List UserInput × Bool

-- A command to quit is the last; any other is followed by those of the later rounds.
abbrev pub after_command : Option UserInput → Outcome Typed → Outcome Typed
after_command none later = later
after_command (some input_quit) later = ok (input_quit ∷ [], true)
after_command (some c) later = later >>= λ t. ok (c ∷ t.0, t.1)

-- What is done with the line.
abbrev pub after_line :
    (uninitialised : UserInputData) (username : Str)
    → Option Str
    → Bool
    → Outcome Typed
    → Outcome Typed
after_line uninitialised username none told later = ok (input_quit ∷ [], true)
after_line uninitialised username (some buffer) told later =
    if told
    then ok ([], true)
    else read_command uninitialised username buffer >>= λ c. after_command c later

unfoldable pub fn_user_input : UserInputData → Str → List InputRound → Outcome Typed
fn_user_input uninitialised username [] = ok ([], false)
fn_user_input uninitialised username (r ∷ rounds) =
    let later = fn_user_input uninitialised username rounds in
    if r.told_before
    then ok ([], true)
    else after_line uninitialised username r.line r.told_after later
