-- ===== src/Client/Session/Texts.antt =====
-- The texts that the server writes for a message are ASCII: what the client of client/client.cpp
-- shows of it.
use inf.Base.{
  All, All-append, Bool, Bool-cases, Option-cases, Str, [], arith, eq_str, eq_ℕ, false, inl, inr,
  length, nat_eq, true, ℕ, ◌∷◌, ◌≡◌, ◌≤◌,
}
use inf.Server.Connections.{eq_address}
use inf.Server.Message.{server_send_command, type_number}
use inf.Server.NotificationManager.Fan.{shown_author}
use inf.Server.Persistence.{UserPersistence, get_username_from_user_id}
use inf.Server.Persistence.Invariant.{IsWellFormed}
use inf.Shared.Json.{IsAscii, Members, int, string}
use inf.Shared.Validation.{IsPrintable, is_valid_username, is_valid_username_iff}

pub printable-IsAscii : (b : Bool) (s : Str) → All (IsPrintable b) s → IsAscii s
printable-IsAscii b [] h = tt
printable-IsAscii true (c ∷ s) h = (ground arith, printable-IsAscii true s h.1)
printable-IsAscii false (c ∷ s) h = (ground arith, printable-IsAscii false s h.1)

pub username-IsAscii :
    (p : UserPersistence) (u : ℕ) → IsWellFormed p → IsAscii (get_username_from_user_id p u)
unfolding get_username_from_user_id
username-IsAscii p u v = elim (Option-cases (p.id_to_user u)) [
  | inl e ↦ rw (e, get_username_from_user_id) tt
  | inr (d, e) ↦
      let valid : is_valid_username d.persistent_data.username ≡ true =
        ground (arith, v.data_ok u) in
      rw (e, get_username_from_user_id)
        (printable-IsAscii false d.persistent_data.username
          ((is_valid_username_iff d.persistent_data.username).0 valid).2)
]

pub author-IsAscii :
    (author body : Str) → IsAscii author → IsAscii body → IsAscii (shown_author author body)
author-IsAscii author body h k = elim (Bool-cases (nat_eq (length author) 20)) [
  | inl full ↦ rw full (All-append (λ b. (1 ≤ b) × (b ≤ 127)) author body h k)
  | inr short ↦ rw short h
]

-- What `serialize` sets for a text of this author and time.
abbrev pub text_members : Str → Str → Str → ℕ → Members
text_members author body time i =
    ("msg_id", int i)
    ∷ ("msg_type", int (type_number server_send_command))
    ∷ ("username", string author)
    ∷ ("body", string body)
    ∷ ("time", string time)
    ∷ []
