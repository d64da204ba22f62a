-- ===== src/Client/Input.antt =====
-- client/user_input.h, client/user_input.cpp and the first half of the main loop of
-- client/client.cpp: a typed line, the command that it is, and the message that is sent for it.
use inf.Base.{
  Bool, List, Option, Outcome, Str, [], eq_str, eq_ℕ, false, if◌then◌else◌, nat_eq, none, not, null,
  ok, some, str_eq, take, true, ℕ, ◌>>=◌, ◌∷◌,
}
use inf.Client.Message.{ClientMessageData, ClientMsgType, client_follow, client_send}
use inf.Server.Connections.{eq_address}
use inf.Shared.Ids.{MsgIdManager, next_msg_id}
use inf.Shared.Memory.{strcpy}
use inf.Shared.Validation.{is_valid_message, is_valid_username}

abbrev pub UserInputData : Type 0
UserInputData = List ℕ

pub data UserInput : Type 0 where
  no_input : UserInput
  input_follow : UserInputData → UserInput
  input_send : UserInputData → UserInput
  input_quit : UserInput

-- `getline(buffer_stream, token, ' ')` on a line that is not empty: the token, and what is left.
unfoldable pub next_token : Str → Str × Str
next_token [] = ([], [])
next_token (c ∷ text) =
    let rest = next_token text in if nat_eq c 32 then ([], text) else (c ∷ rest.0, rest.1)

abbrev pub quit_word : Str
quit_word = 81 ∷ 85 ∷ 73 ∷ 84 ∷ []

abbrev pub send_word : Str
send_word = 83 ∷ 69 ∷ 78 ∷ 68 ∷ []

abbrev pub follow_word : Str
follow_word = 70 ∷ 79 ∷ 76 ∷ 76 ∷ 79 ∷ 87 ∷ []

module _ (uninitialised : UserInputData) where
  -- What a `SEND` line writes; nothing is left of the line where `getline` fails.
  unfoldable pub read_send : Str → Outcome (Option UserInput)
  read_send token =
      if null token
      then ok none
      else if not (is_valid_message token)
      then ok none
      else strcpy uninitialised 0 token >>= λ input_data. ok (some (input_send input_data))

  unfoldable pub read_follow : Str → Str → Outcome (Option UserInput)
  read_follow username [] = ok none
  read_follow username (c ∷ token) =
      if not (nat_eq c 64)
      then ok none
      else if not (is_valid_username token)
      then ok none
      else if str_eq token username
      then ok none
      else strcpy uninitialised 0 token >>= λ input_data. ok (some (input_follow input_data))

  -- A round of `fn_user_input`: the command that it writes to `user_command`, `none` for a line that
  -- is rejected.
  unfoldable pub read_command : Str → Str → Outcome (Option UserInput)
  read_command username buffer =
      let (token, rest) = next_token buffer in
      if null buffer
      then ok none
      else if str_eq token quit_word
      then ok (some input_quit)
      else if str_eq token send_word
      then read_send rest
      else if str_eq token follow_word
      then read_follow username rest
      else ok none

-- What handling the user's input pushes to the send queue, the ids after it, and `finish_program`.
abbrev pub Reaction : Type 0
Reaction = Option ClientMessageData × MsgIdManager × Bool

module _ (uninitialised_text uninitialised : List ℕ) where
  -- The text is copied to a local array of `size` bytes, and from there to the payload.
  unfoldable pub request : ℕ → ClientMsgType → UserInputData → MsgIdManager → Outcome Reaction
  request size msg_type input_data ids = do
    text ← strcpy (take size uninitialised_text) 0 input_data
    payload ← strcpy uninitialised 0 text
    ok (
      some (record { msg_id = (next_msg_id ids).0; msg_type = msg_type; payload = payload }),
      (next_msg_id ids).1,
      false,
    )

  unfoldable pub handle_user_input : UserInput → MsgIdManager → Outcome Reaction
  handle_user_input no_input ids = ok (none, ids, false)
  handle_user_input (input_follow input_data) ids = request 20 client_follow input_data ids
  handle_user_input (input_send input_data) ids = request 128 client_send input_data ids
  handle_user_input input_quit ids = ok (none, ids, true)
