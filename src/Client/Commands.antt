-- ===== src/Client/Commands.antt =====
-- What comes of a typed line: the message for it, or a write past an array.
use inf.Base.{
  List, Option, Outcome, Returns, Returns-bind, Returns-crash, Returns-mono, Str, [], ap, arith,
  crash, eq_str, eq_ℕ, false, length, length-take, none, ok, overrun, refl, some, str_eq, take,
  true, ℕ, ◌++◌, ◌<◌, ◌>>=◌, ◌∙◌, ◌∷◌, ◌≡◌, ◌≤◌,
}
use inf.Client.Input.{
  Reaction, UserInput, follow_word, handle_user_input, input_follow, input_send, next_token,
  no_input, read_command, read_follow, read_send, request, send_word,
}
use inf.Client.Message.{
  ClientMessageData, ClientMsgType, client_follow, client_members, client_payload_members,
  client_payload_size, client_send, client_type_number,
}
use inf.Server.Connections.{eq_address}
use inf.Server.Message.Payload.{message-NoNul, username-NoNul}
use inf.Shared.Ids.{MsgIdManager, next_msg_id}
use inf.Shared.Json.{Members, int, string}
use inf.Shared.Memory.{
  NoNul, c_string, c_string_id, read_c_string, strcpy, strcpy_overruns, strcpy_reads,
}
use inf.Shared.Validation.{is_valid_message, is_valid_username}

-- The command of a rejected line is the one that was there: none.
abbrev pub pending_input : Option UserInput → UserInput
pending_input none = no_input
pending_input (some user_input) = user_input

module _ (uninitialised_input uninitialised_text uninitialised : List ℕ)
    (sized_input : length uninitialised_input ≡ client_payload_size)
    (sized_text : length uninitialised_text ≡ client_payload_size)
    (sized : length uninitialised ≡ client_payload_size) where
  -- A line is read, and the main loop handles what it wrote.
  abbrev pub typed_line : Str → Str → MsgIdManager → Outcome Reaction
  typed_line username line ids = read_command uninitialised_input username line >>= λ user_input.
      handle_user_input uninitialised_text uninitialised (pending_input user_input) ids

  -- The reaction is to send one message, under the next id, with these members after its id.
  abbrev pub Sends : MsgIdManager → ClientMsgType → Members → Reaction → Type 0
  Sends ids msg_type rest r =
      (m : ClientMessageData) × (r ≡ (some m, (next_msg_id ids).1, false))
      × (client_members m
          ≡ ("msg_id", int (next_msg_id ids).0)
            ∷ ("msg_type", int (client_type_number msg_type))
            ∷ rest)

  pub request_lem :
      (size : ℕ) (msg_type : ClientMsgType) (data' : List ℕ) (ids : MsgIdManager)
      → size ≤ client_payload_size
      → length (c_string data') < size
      → Returns (request uninitialised_text uninitialised size msg_type data' ids) λ r.
        (m : ClientMessageData) × (r ≡ (some m, (next_msg_id ids).1, false))
        × (m.msg_id ≡ (next_msg_id ids).0)
        × (m.msg_type ≡ msg_type)
        × (read_c_string m.payload 0 ≡ c_string data')
  unfolding request
  request_lem size msg_type data' ids le fits =
      Returns-bind _ _ (strcpy (take size uninitialised_text) 0 data') _
        (strcpy_reads (take size uninitialised_text) data'
          (omega (arith, length-take size uninitialised_text, sized_text)))
        λ text t.
          Returns-bind _ _ (strcpy uninitialised 0 text) _
            (strcpy_reads uninitialised text (omega (arith, sized, ap (λ (l : Str). length l) t.0)))
            λ payload p. (_, refl, refl, refl, p.0 ∙ t.0)

  request_overruns :
      (size : ℕ) (msg_type : ClientMsgType) (data' : List ℕ) (ids : MsgIdManager)
      → size ≤ client_payload_size
      → size ≤ length (c_string data')
      → request uninitialised_text uninitialised size msg_type data' ids ≡ crash overrun
  unfolding request
  request_overruns size msg_type data' ids le over =
      rw
        (strcpy_overruns (take size uninitialised_text) 0 data'
          (omega (arith, length-take size uninitialised_text)))
        refl

  send_token : (text : Str) → next_token (send_word ++ 32 ∷ text) ≡ (send_word, text)
  unfolding next_token
  send_token text = refl

  follow_token : (text : Str) → next_token (follow_word ++ 32 ∷ text) ≡ (follow_word, text)
  unfolding next_token
  follow_token text = refl

  read_send_valid :
      (text : Str)
      → is_valid_message text ≡ true
      → read_send uninitialised_input text
        ≡ (strcpy uninitialised_input 0 text >>= λ d. ok (some (input_send d)))
  unfolding read_send
  read_send_valid [] valid = absurd (unfold is_valid_message in ground arith)
  read_send_valid (c ∷ text) valid = rw valid refl

  read_send_line :
      (username text : Str)
      → is_valid_message text ≡ true
      → read_command uninitialised_input username (send_word ++ 32 ∷ text)
        ≡ (strcpy uninitialised_input 0 text >>= λ d. ok (some (input_send d)))
  unfolding read_command str_eq next_token
  read_send_line username text valid = read_send_valid text valid

  -- The line is one that writes the text with this command.
  abbrev Writes : (List ℕ → UserInput) → Str → Option UserInput → Type 0
  Writes command text c = (d : List ℕ) × (c ≡ some (command d)) × (c_string d ≡ text)

  copied :
      (command : List ℕ → UserInput) (text : Str)
      → NoNul text
      → length text < client_payload_size
      → Returns
          (strcpy uninitialised_input 0 text >>= λ d. ok (some (command d)))
          (Writes command text)
  copied command text clean short =
      Returns-bind _ (Writes command text) (strcpy uninitialised_input 0 text) _
        (strcpy_reads uninitialised_input text
          (omega (arith, sized_input, ap (λ (l : Str). length l) (c_string_id text clean))))
        λ d p. (d, refl, p.0 ∙ c_string_id text clean)

  -- The line SEND with a valid text of 127 bytes at most leads to one message with the next id and
  -- that text. Uninitialised objects have their sizes.
  pub send_line_lem :
      (username text : Str) (ids : MsgIdManager)
      → is_valid_message text ≡ true
      → length text < 128
      → Returns
          (typed_line username (send_word ++ 32 ∷ text) ids)
          (Sends ids client_send (("send", string text) ∷ []))
  unfolding handle_user_input client_members client_payload_members
  send_line_lem username text ids valid short = rw (read_send_line username text valid) (
      Returns-bind (Writes input_send text) _ _ _
        (copied input_send text (message-NoNul text valid) short)
        λ c k.
          let (d, e, q) = k in
          rw e (
            Returns-mono _ (Sends ids client_send (("send", string text) ∷ []))
              (request uninitialised_text uninitialised 128 client_send d ids)
              (λ r w.
                let (m, er, e1, e2, e3) = w in
                let read : read_c_string m.payload 0 ≡ text = e3 ∙ q in
                (m, er, rw e1 (rw e2 (rw read refl))))
              (request_lem 128 client_send d ids (omega arith)
                (omega (arith, ap (λ (l : Str). length l) q)))))

  -- The line SEND with a valid text of 128 bytes leads to a write past an array. Uninitialised
  -- objects have their sizes.
  pub send_line_overruns :
      (username text : Str) (ids : MsgIdManager)
      → is_valid_message text ≡ true
      → length text ≡ 128
      → typed_line username (send_word ++ 32 ∷ text) ids ≡ crash overrun
  send_line_overruns username text ids valid full = rw (read_send_line username text valid) (
      rw
        (strcpy_overruns uninitialised_input 0 text (
          omega (
            arith,
            sized_input,
            ap (λ (l : Str). length l) (c_string_id text (message-NoNul text valid)),
          )))
        refl)

  read_follow_line :
      (username name : Str)
      → is_valid_username name ≡ true
      → str_eq name username ≡ false
      → read_command uninitialised_input username (follow_word ++ 32 ∷ 64 ∷ name)
        ≡ (strcpy uninitialised_input 0 name >>= λ d. ok (some (input_follow d)))
  unfolding read_command str_eq next_token read_follow
  read_follow_line username name valid other = rw valid (rw other refl)

  -- The line FOLLOW with a valid name of 19 bytes at most that is not the user's own leads to one
  -- message with the next id and that name. Uninitialised objects have their sizes.
  pub follow_line_lem :
      (username name : Str) (ids : MsgIdManager)
      → is_valid_username name ≡ true
      → str_eq name username ≡ false
      → length name < 20
      → Returns
          (typed_line username (follow_word ++ 32 ∷ 64 ∷ name) ids)
          (Sends ids client_follow (("username", string name) ∷ []))
  unfolding handle_user_input client_members client_payload_members
  follow_line_lem username name ids valid other short =
      rw (read_follow_line username name valid other) (
        Returns-bind (Writes input_follow name) _ _ _
          (copied input_follow name (username-NoNul name valid) (omega arith))
          λ c k.
            let (d, e, q) = k in
            rw e (
              Returns-mono _ (Sends ids client_follow (("username", string name) ∷ []))
                (request uninitialised_text uninitialised 20 client_follow d ids)
                (λ r w.
                  let (m, er, e1, e2, e3) = w in
                  let read : read_c_string m.payload 0 ≡ name = e3 ∙ q in
                  (m, er, rw e1 (rw e2 (rw read refl))))
                (request_lem 20 client_follow d ids (omega arith)
                  (omega (arith, ap (λ (l : Str). length l) q)))))

  -- The line FOLLOW with a valid name of 20 bytes that is not the user's own leads to a write past
  -- an array. Uninitialised objects have their sizes.
  pub follow_line_overruns :
      (username name : Str) (ids : MsgIdManager)
      → is_valid_username name ≡ true
      → str_eq name username ≡ false
      → length name ≡ 20
      → typed_line username (follow_word ++ 32 ∷ 64 ∷ name) ids ≡ crash overrun
  unfolding handle_user_input
  follow_line_overruns username name ids valid other full =
      rw (read_follow_line username name valid other) (
        Returns-crash (Writes input_follow name) _ _ overrun
          (copied input_follow name (username-NoNul name valid) (omega arith))
          λ c k.
            let (d, e, q) = k in
            rw e (
              request_overruns 20 client_follow d ids (omega arith)
                (omega (arith, ap (λ (l : Str). length l) q))))
