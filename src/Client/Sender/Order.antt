-- ===== src/Client/Sender/Order.antt =====
-- What the sender writes: all that was pushed, in order, up to the logout and with it.
use inf.Base.{
  All, Bool, List, [], ap, append-nil, append_assoc, ap₂, eq_str, eq_ℕ, false, inl, inr, refl, sym,
  true, ◌++◌, ◌||◌, ◌∙◌, ◌∷◌, ◌≡◌, ◌⊎◌,
}
use inf.Client.Message.{ClientMessageData, serialize_client_message}
use inf.Client.Sender.{SenderState, fn_client_sender, is_logout, send_batch}
use inf.Server.Connections.{eq_address}
use inf.Shared.Json.{Json}

-- No message of a list is a logout.
abbrev pub IsLogoutFree : List ClientMessageData → Type 0
IsLogoutFree = All (λ (m : ClientMessageData). is_logout m.msg_type ≡ false)

-- The drains one after the other.
abbrev pub concat : List (List ClientMessageData) → List ClientMessageData
concat [] = []
concat (batch ∷ drains) = batch ++ concat drains

module _ (J : Json) where
  abbrev pub texts : List ClientMessageData → List J.Text
  texts [] = []
  texts (m ∷ ms) = serialize_client_message J m ∷ texts ms

  abbrev any_logout : List ClientMessageData → Bool
  any_logout [] = false
  any_logout (m ∷ ms) = is_logout m.msg_type || any_logout ms

  abbrev pub sender : List J.Text → Bool → SenderState J
  sender w b = record { written = w; must_terminate = b }

  or_assoc : (a b c : Bool) → ((a || b) || c) ≡ (a || (b || c))
  or_assoc true b c = refl
  or_assoc false b c = refl

  or_false : (b : Bool) → (b || false) ≡ b
  or_false true = refl
  or_false false = refl

  unsent : (s : SenderState J) → s ≡ sender (s.written ++ []) (s.must_terminate || false)
  unsent s = rw (append-nil s.written) (rw (or_false s.must_terminate) refl)

  nil_of_append : (xs ys : List ClientMessageData) → xs ++ ys ≡ [] → xs ≡ []
  nil_of_append [] ys e = refl
  nil_of_append (x ∷ xs) ys e = absurd cc

  -- A batch holds the logout, and then it is all that was left, or it holds some of what is before.
  batch_cases :
      (batch rest ms : List ClientMessageData) (logout : ClientMessageData)
      → IsLogoutFree ms
      → is_logout logout.msg_type ≡ true
      → batch ++ rest ≡ ms ++ logout ∷ []
      → ((any_logout batch ≡ true) × (batch ≡ ms ++ logout ∷ []))
        ⊎ ((any_logout batch ≡ false)
            × (left_over : List ClientMessageData) × (ms ≡ batch ++ left_over)
            × (rest ≡ left_over ++ logout ∷ [])
            × IsLogoutFree left_over)
  batch_cases [] rest ms logout none_yet is e = inr (refl, ms, refl, e, none_yet)
  batch_cases (x ∷ batch) rest [] logout none_yet is e =
      let last : batch ++ rest ≡ [] = cc in
      let empty = nil_of_append batch rest last in
      let same : x ≡ logout = cc in inl (rw same (rw is refl), cc)
  batch_cases (x ∷ batch) rest (m ∷ ms) logout none_yet is e =
      let same : x ≡ m = cc in
      let tails : batch ++ rest ≡ ms ++ logout ∷ [] = cc in
      let plain : is_logout x.msg_type ≡ false =
        ap (λ (y : ClientMessageData). is_logout y.msg_type) same ∙ none_yet.0 in
      elim (batch_cases batch rest ms logout none_yet.1 is tails) [
        | inl (any, all) ↦ inl (rw plain any, cc)
        | inr (any, left_over, before, after, free) ↦ inr (rw plain any, left_over, cc, after, free)
      ]

  send_batch_lem :
      (s : SenderState J) (ms : List ClientMessageData)
      → send_batch J s ms ≡ record {
        written = s.written ++ texts ms;
        must_terminate = s.must_terminate || any_logout ms;
      }
  unfolding send_batch
  send_batch_lem s [] = unsent s
  send_batch_lem s (m ∷ ms) =
      send_batch_lem
        (sender (s.written ++ serialize_client_message J m ∷ [])
          (s.must_terminate || is_logout m.msg_type))
        ms
      ∙ ap₂ (λ (w : List J.Text) (b : Bool). sender w b)
          (append_assoc s.written (serialize_client_message J m ∷ []) (texts ms))
          (or_assoc s.must_terminate (is_logout m.msg_type) (any_logout ms))

  texts-append : (xs ys : List ClientMessageData) → texts (xs ++ ys) ≡ texts xs ++ texts ys
  texts-append [] ys = refl
  texts-append (x ∷ xs) ys = ap (◌∷◌ (serialize_client_message J x)) (texts-append xs ys)

  -- However the drains cut what was pushed, if that is messages that are no logouts and then a logout:
  -- the thread leaves its loop, and has written all of the messages in order, the logout last.
  pub fn_client_sender_lem :
      (s : SenderState J) (drains : List (List ClientMessageData)) (ms : List ClientMessageData)
      (logout : ClientMessageData)
      → s.must_terminate ≡ false
      → IsLogoutFree ms
      → is_logout logout.msg_type ≡ true
      → concat drains ≡ ms ++ logout ∷ []
      → fn_client_sender J s drains ≡ (sender (s.written ++ texts (ms ++ logout ∷ [])) true, true)
  unfolding fn_client_sender
  fn_client_sender_lem s [] ms logout running none_yet is e =
      absurd (let h = nil_of_append ms (logout ∷ []) (sym e) in cc)
  fn_client_sender_lem s (batch ∷ drains) ms logout running none_yet is e =
      elim (batch_cases batch (concat drains) ms logout none_yet is e) [
        | inl (any, all) ↦
            let sent : send_batch J s batch ≡ sender (s.written ++ texts (ms ++ logout ∷ [])) true =
              send_batch_lem s batch ∙ rw (any, running) (rw all refl) in
            rw sent refl
        | inr (any, left_over, before, after, free) ↦
            let sent : send_batch J s batch ≡ sender (s.written ++ texts batch) false =
              send_batch_lem s batch ∙ rw (any, running) refl in
            let written : (s.written ++ texts batch) ++ texts (left_over ++ logout ∷ [])
                ≡ s.written ++ texts (ms ++ logout ∷ []) =
              append_assoc s.written (texts batch) (texts (left_over ++ logout ∷ []))
              ∙ ap (◌++◌ s.written) (
                  sym (texts-append batch (left_over ++ logout ∷ []))
                  ∙ ap texts (
                      sym (append_assoc batch left_over (logout ∷ []))
                      ∙ ap (λ (l : List ClientMessageData). l ++ logout ∷ []) (sym before))) in
            rw sent (
              fn_client_sender_lem (sender (s.written ++ texts batch) false) drains left_over logout
                refl free is after
              ∙ ap (λ (w : List J.Text). (sender w true, true)) written)
      ]
