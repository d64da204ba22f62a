-- ===== src/Server/Message/Payload.antt =====
-- What a client reads of the texts that a handler copied into a payload.
use inf.Base.{
  All, Bool, Bool-cases, List, Returns, Str, [], ap, append_assoc, arith, crash, drop, eq_str, eq_ℕ,
  false, if◌then◌else◌, inl, inr, length, length-append, nat_eq, overrun, subst, sym, take,
  take-append, take-append-drop, true, ℕ, ◌++◌, ◌+◌, ◌<◌, ◌^◌, ◌∙◌, ◌∷◌, ◌≡◌, ◌≤◌,
}
use inf.Server.Connections.{eq_address}
use inf.Server.Message.{
  ServerMsgPayload, body_offset, message_payload, payload_body, payload_size, payload_timestap,
  payload_username, timestap_offset, username_payload,
}
use inf.Shared.Memory.{
  NoNul, c_string, c_string-append, c_string-region, length-to_bytes, length-write_at, of_bytes,
  of_bytes-to_bytes, region, region-write, region-write_below, strcpy, strcpy-c_string, strcpy_fits,
  strcpy_overruns, take-take-append, to_bytes, write_at,
}
use inf.Shared.Validation.{
  IsPrintable, is_valid_message, is_valid_message_iff, is_valid_username, is_valid_username_iff,
}

valid_NoNul : (b : Bool) (s : Str) → All (IsPrintable b) s → NoNul s
valid_NoNul b [] h = tt
valid_NoNul true (c ∷ s) h = (ground arith, valid_NoNul true s h.1)
valid_NoNul false (c ∷ s) h = (ground arith, valid_NoNul false s h.1)

pub username-NoNul : (s : Str) → is_valid_username s ≡ true → NoNul s
username-NoNul s h = valid_NoNul false s ((is_valid_username_iff s).0 h).2

pub message-NoNul : (s : Str) → is_valid_message s ≡ true → NoNul s
message-NoNul s h = valid_NoNul true s ((is_valid_message_iff s).0 h).2

module _ (uninitialised : ServerMsgPayload) (sized : length uninitialised ≡ payload_size) where
  clean_payload_lem :
      (s : Str)
      → NoNul s
      → length s < payload_size
      → Returns (strcpy uninitialised 0 s) λ p. (payload_username p ≡ s) × (length p ≡ payload_size)
  clean_payload_lem s clean fits = rw (strcpy_fits uninitialised 0 s clean (omega arith)) (
    c_string-region (write_at uninitialised 0 (s ++ 0 ∷ [])) s clean (
        rw (← length-append s (0 ∷ [])) (region-write uninitialised (s ++ 0 ∷ []) 0 (omega arith))),
    length-write_at uninitialised (s ++ 0 ∷ []) 0 (omega (arith, length-append s (0 ∷ []))) ∙ sized,
  )

  -- The reply to a follow request holds the requested name, up to its first NUL, where it fits.
  pub username_payload_lem :
      (username : Str)
      → length (c_string username) < payload_size
      → Returns
          (username_payload uninitialised username)
          λ p. (payload_username p ≡ c_string username) × (length p ≡ payload_size)
  unfolding username_payload
  username_payload_lem username fits =
      let (same, clean) = strcpy-c_string uninitialised 0 username in
      rw same (clean_payload_lem (c_string username) clean fits)

  pub username_payload_overruns :
      (username : Str)
      → payload_size ≤ length (c_string username)
      → username_payload uninitialised username ≡ crash overrun
  unfolding username_payload
  username_payload_overruns username over = strcpy_overruns uninitialised 0 username (omega arith)

  module _ (u b : Str) (timestamp : ℕ) (clean_u : NoNul u) (clean_b : NoNul b)
      (short_u : length u ≤ 20) (short_b : length b ≤ 128) (small : timestamp < 2 ^ 64) where
    abbrev named : ServerMsgPayload
    named = write_at uninitialised 0 (u ++ 0 ∷ [])

    abbrev filled : ServerMsgPayload
    filled = write_at named body_offset (b ++ 0 ∷ [])

    abbrev complete : ServerMsgPayload
    complete = write_at filled timestap_offset (to_bytes 8 timestamp)

    length-named : length named ≡ payload_size
    length-named =
        length-write_at uninitialised (u ++ 0 ∷ []) 0 (omega (arith, length-append u (0 ∷ [])))
        ∙ sized

    length-filled : length filled ≡ payload_size
    length-filled =
        length-write_at named (b ++ 0 ∷ []) body_offset
          (omega (arith, length-append b (0 ∷ []), length-named))
        ∙ length-named

    length-complete : length complete ≡ payload_size
    length-complete =
        length-write_at filled (to_bytes 8 timestamp) timestap_offset
          (omega (arith, length-to_bytes 8 timestamp, length-filled))
        ∙ length-filled

    named_username : region 0 (length u + 1) named ≡ u ++ 0 ∷ []
    named_username =
        rw (← length-append u (0 ∷ [])) (region-write uninitialised (u ++ 0 ∷ []) 0 (omega arith))

    -- What lies before the body stays as the first copy left it.
    complete_username : (k : ℕ) → k ≤ 20 → region 0 k complete ≡ region 0 k named
    complete_username k h =
        region-write_below filled (to_bytes 8 timestamp) timestap_offset 0 k (omega arith)
          (omega (arith, length-filled))
        ∙ region-write_below named (b ++ 0 ∷ []) body_offset 0 k (omega arith)
            (omega (arith, length-named))

    complete_body : region body_offset (length b + 1) complete ≡ b ++ 0 ∷ []
    complete_body =
        region-write_below filled (to_bytes 8 timestamp) timestap_offset body_offset (length b + 1)
          (omega arith) (omega (arith, length-filled))
        ∙ rw (← length-append b (0 ∷ []))
            (region-write named (b ++ 0 ∷ []) body_offset (omega (arith, length-named)))

    read_body : payload_body complete ≡ b
    read_body = c_string-region (drop body_offset complete) b clean_b complete_body

    read_timestap : payload_timestap complete ≡ timestamp
    unfolding to_bytes
    read_timestap =
        ap of_bytes (
          region-write filled (to_bytes 8 timestamp) timestap_offset (omega (arith, length-filled)))
        ∙ of_bytes-to_bytes 8 timestamp small

    read_short : length u ≤ 19 → payload_username complete ≡ u
    read_short short =
        c_string-region complete u clean_u
          (complete_username (length u + 1) (omega arith) ∙ named_username)

    -- A username of 20 bytes fills its array, so that reading it goes on into the body.
    read_full : length u ≡ 20 → payload_username complete ≡ u ++ b
    read_full full =
        ap c_string (sym (take-append-drop 20 complete))
        ∙ ap (λ (t : List ℕ). c_string (t ++ drop 20 complete)) first
        ∙ c_string-append u (drop 20 complete) clean_u
        ∙ ap (◌++◌ u) read_body
      where
        first : take 20 complete ≡ u
        first =
            complete_username 20 (omega arith)
            ∙ sym (take-take-append named [] 21 20 (omega arith) (omega (arith, length-named)))
            ∙ ap (λ (t : List ℕ). take 20 (t ++ []))
                (subst (λ (k : ℕ). take k named ≡ u ++ 0 ∷ []) {y = 21} (omega arith)
                  named_username)
            ∙ ap (take 20) (append_assoc u (0 ∷ []) [])
            ∙ take-append u (0 ∷ []) 20 full

    read_username : payload_username complete ≡ (if nat_eq (length u) 20 then u ++ b else u)
    read_username = elim (Bool-cases (nat_eq (length u) 20)) [
      | inl full ↦ rw full (read_full (ground arith))
      | inr short ↦ rw short (read_short (ground arith))
    ]

    -- An author's name of 20 bytes at most and a text of 128 at most, both without NUL, are copied
    -- with a time of 64 bits into a payload without an overrun. What is read back is the text, the
    -- time, and the name: for a name of 20 bytes, the name with the text behind it. Uninitialised
    -- objects have their sizes.
    pub message_payload_lem : Returns (message_payload uninitialised u b timestamp) λ p.
        (payload_username p ≡ (if nat_eq (length u) 20 then u ++ b else u))
        × (payload_body p ≡ b)
        × (payload_timestap p ≡ timestamp)
        × (length p ≡ payload_size)
    unfolding message_payload
    message_payload_lem = rw (strcpy_fits uninitialised 0 u clean_u (omega arith)) (
        rw (strcpy_fits named body_offset b clean_b (omega (arith, length-named)))
          (read_username, read_body, read_timestap, length-complete))
