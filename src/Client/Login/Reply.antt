-- ===== src/Client/Login/Reply.antt =====
-- What the client reads of a reply to its login, in client/login.cpp.
use inf.Base.{
  Bool, List, Str, [], ap, arith, eq_str, eq_ℕ, false, inl, inr, length, ok, refl, some, true, ℕ,
  ◌%◌, ◌++◌, ◌+◌, ◌<◌, ◌^◌, ◌∙◌, ◌∷◌, ◌≡◌, ◌⊎◌,
}
use inf.Client.Login.{
  LoginLine, already_connected, invalid_type, invalid_username, login_reaction, login_successful,
  read_reply, too_many_sessions,
}
use inf.Server.Connections.{eq_address}
use inf.Server.Message.{
  ServerMessageData, ServerMsgPayload, ServerMsgType, follow_command_fail, follow_command_success,
  login_fail_already_connected_to_different_user, login_fail_invalid_username,
  login_fail_too_many_sessions, login_success, members, payload_members, send_command_fail,
  send_command_success, serialize, server_send_command, type_number,
}
use inf.Shared.Buffer.{buffer_size, parse_buffer_lem}
use inf.Shared.Json.{Json, Members, RoundTrips, int}

abbrev pub is_login_success : ServerMsgType → Bool
is_login_success login_success = true
is_login_success _ = false

-- What is printed of a reply of this type.
abbrev pub line_of : ServerMsgType → LoginLine
line_of login_success = login_successful
line_of login_fail_invalid_username = invalid_username
line_of login_fail_too_many_sessions = too_many_sessions
line_of login_fail_already_connected_to_different_user = already_connected
line_of other = invalid_type (type_number other)

-- The types of the replies to a login, whose messages have no text.
abbrev pub IsReplyType : ServerMsgType → Type 0
IsReplyType ty =
    (ty ≡ login_success)
    ⊎ ((ty ≡ login_fail_invalid_username)
        ⊎ ((ty ≡ login_fail_too_many_sessions)
            ⊎ (ty ≡ login_fail_already_connected_to_different_user)))

abbrev pub bare_members : ℕ → ℕ → Members
bare_members i ty = ("msg_id", int i) ∷ ("msg_type", int ty) ∷ []

reaction_lem :
    (ty : ServerMsgType) → login_reaction (type_number ty) ≡ (is_login_success ty, line_of ty)
unfolding login_reaction
reaction_lem login_success = refl
reaction_lem login_fail_invalid_username = refl
reaction_lem login_fail_too_many_sessions = refl
reaction_lem login_fail_already_connected_to_different_user = refl
reaction_lem server_send_command = refl
reaction_lem follow_command_fail = refl
reaction_lem follow_command_success = refl
reaction_lem send_command_fail = refl
reaction_lem send_command_success = refl

type_number-small : (ty : ServerMsgType) → type_number ty % 2 ^ 32 ≡ type_number ty
type_number-small server_send_command = refl
type_number-small follow_command_fail = refl
type_number-small follow_command_success = refl
type_number-small send_command_fail = refl
type_number-small send_command_success = refl
type_number-small login_success = refl
type_number-small login_fail_invalid_username = refl
type_number-small login_fail_too_many_sessions = refl
type_number-small login_fail_already_connected_to_different_user = refl

module _ (J : Json) (R : RoundTrips J) (ctime : ℕ → Str) where
  no_text :
      (ty : ServerMsgType) (p : ServerMsgPayload) → IsReplyType ty → payload_members ctime ty p ≡ []
  unfolding payload_members
  no_text ty p (inl e) = ap (λ (t : ServerMsgType). payload_members ctime t p) e
  no_text ty p (inr (inl e)) = ap (λ (t : ServerMsgType). payload_members ctime t p) e
  no_text ty p (inr (inr (inl e))) = ap (λ (t : ServerMsgType). payload_members ctime t p) e
  no_text ty p (inr (inr (inr e))) = ap (λ (t : ServerMsgType). payload_members ctime t p) e

  reply-members :
      (m : ServerMessageData)
      → IsReplyType m.msg_type
      → members ctime m ≡ bare_members m.msg_id (type_number m.msg_type)
  unfolding members
  reply-members m h =
      ap
        (λ (ms : Members).
          ("msg_id", int m.msg_id) ∷ ("msg_type", int (type_number m.msg_type)) ∷ ms)
        (no_text m.msg_type m.payload h)

  module _ (memory : List ℕ) (whole : length memory + 1 ≡ buffer_size)
      (bare_short : (i ty : ℕ) → length (J.bytes (J.write (bare_members i ty))) < buffer_size) where
    abbrev buffer : List ℕ
    buffer = memory ++ 0 ∷ []

    bare_lem :
        (i : ℕ) (ty : ServerMsgType)
        → read_reply J buffer (some (J.write (bare_members i (type_number ty))))
          ≡ ok (some (is_login_success ty, line_of ty))
    unfolding read_reply
    bare_lem i ty =
        let ms = bare_members i (type_number ty) in
        rw
          (
            parse_buffer_lem J memory (J.write ms) (RoundTrips.parsed R ms)
                (omega (arith, whole, bare_short i (type_number ty)))
                (λ behind. R.parse_write ms behind tt),
            read_reply,
          )
          (rw (R.int_member ms "msg_type" (type_number ty) tt refl)
            (rw (type_number-small ty) (rw (reaction_lem ty) refl)))

    pub read_reply_lem :
        (m : ServerMessageData)
        → IsReplyType m.msg_type
        → read_reply J buffer (some (serialize J ctime m))
          ≡ ok (some (is_login_success m.msg_type, line_of m.msg_type))
    read_reply_lem m h =
        ap (λ (ms : Members). read_reply J buffer (some (J.write ms))) (reply-members m h)
        ∙ bare_lem m.msg_id m.msg_type
