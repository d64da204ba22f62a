-- ===== src/Server/NotificationManager/Fan.antt =====
-- The loop of `add_notification` over the followers: who is messaged at once, who is left for later.
use inf.Server.Connections
use inf.Base.{
  All, Bool-cases, List, Returns, Returns-bind, Returns-mono, Str, [], ap, append-nil, append_assoc,
  arith, eq_str, eq_ℕ, if◌then◌else◌, inl, inr, length, nat_eq, refl, subst, sym, true, ℕ, ◌++◌,
  ◌<◌, ◌^◌, ◌∙◌, ◌∷◌, ◌≡◌, ◌≤◌,
}
use inf.Server.Connections.{Address, UserConnectionManager, eq_address, get_next_msg_id}
use inf.Server.Connections.Invariant.{IsConsistent, get_next_msg_id-IsConsistent}
use inf.Server.Message.{
  ServerAction, ServerMsgPayload, action_message_address, action_message_user, message_payload,
  payload_body, payload_size, payload_timestap, payload_username, server_send_command,
}
use inf.Server.Message.Payload.{message-NoNul, message_payload_lem}
use inf.Server.NotificationManager.{FanOut, fan_out, fan_out_step, notify_online}
use inf.Server.Persistence.{UserPersistence}
use inf.Server.Persistence.Invariant.{IsUser}
use inf.Shared.Memory.{NoNul}
use inf.Shared.Validation.{is_valid_message, is_valid_message_iff}

-- The followers that are online, and those that are not, in the order of the follower list.
unfoldable pub online_followers : UserConnectionManager → List ℕ → List ℕ
online_followers c [] = []
online_followers c (f ∷ fs) =
    let rest = online_followers c fs in if Connections.user_id_exists c f then f ∷ rest else rest

unfoldable pub offline_followers : UserConnectionManager → List ℕ → List ℕ
offline_followers c [] = []
offline_followers c (f ∷ fs) =
    let rest = offline_followers c fs in if Connections.user_id_exists c f then rest else f ∷ rest

-- What a client reads as the author of a message; a name of 20 bytes runs into the text.
abbrev pub shown_author : Str → Str → Str
shown_author author body = if nat_eq (length author) 20 then author ++ body else author

-- The action sends the user this author's message of this time.
abbrev pub IsDelivery : Str → Str → ℕ → ℕ → ServerAction → Type 0
IsDelivery author body timestamp u (action_message_user user_id m) =
    (user_id ≡ u)
    × (m.msg_type ≡ server_send_command)
    × (payload_username m.payload ≡ shown_author author body)
    × (payload_body m.payload ≡ body)
    × (payload_timestap m.payload ≡ timestamp)
IsDelivery author body timestamp u (action_message_address address m) = ⊥

-- One such action for each user, in order.
abbrev pub Deliveries : Str → Str → ℕ → List ℕ → List ServerAction → Type 0
Deliveries author body timestamp [] [] = Unit {0}
Deliveries author body timestamp [] (a ∷ acts) = ⊥
Deliveries author body timestamp (u ∷ us) [] = ⊥
Deliveries author body timestamp (u ∷ us) (a ∷ acts) =
    IsDelivery author body timestamp u a × Deliveries author body timestamp us acts

-- The same users are online, at the same addresses.
pub record SameSessions (c d : UserConnectionManager) : Type 0 where
  pub same_exists : (u : ℕ) → Connections.user_id_exists d u ≡ Connections.user_id_exists c u
  pub same_owner : (a : Address) → d.address_to_user_id a ≡ c.address_to_user_id a

pub SameSessions-refl : (c : UserConnectionManager) → SameSessions c c
SameSessions-refl c = record { same_exists = λ u. refl; same_owner = λ a. refl }

pub get_next_msg_id-SameSessions :
    (c : UserConnectionManager) (u : ℕ) → SameSessions c (get_next_msg_id c u).1
unfolding get_next_msg_id Connections.user_id_exists
get_next_msg_id-SameSessions c u = record {
  same_exists = λ w. ground arith;
  same_owner = λ a. ground arith;
}

pub online-same :
    (c d : UserConnectionManager) (fs : List ℕ)
    → SameSessions c d
    → (online_followers d fs ≡ online_followers c fs)
      × (offline_followers d fs ≡ offline_followers c fs)
unfolding online_followers offline_followers
online-same c d [] s = (refl, refl)
online-same c d (f ∷ fs) s = ground (arith, s.same_exists f, online-same c d fs s)

Deliveries-append :
    (author body : Str) (timestamp : ℕ) (us ws : List ℕ) (xs ys : List ServerAction)
    → Deliveries author body timestamp us xs
    → Deliveries author body timestamp ws ys
    → Deliveries author body timestamp (us ++ ws) (xs ++ ys)
Deliveries-append author body timestamp [] ws [] ys h k = k
Deliveries-append author body timestamp [] ws (x ∷ xs) ys h k = absurd h
Deliveries-append author body timestamp (u ∷ us) ws [] ys h k = absurd h
Deliveries-append author body timestamp (u ∷ us) ws (x ∷ xs) ys h k =
    (h.0, Deliveries-append author body timestamp us ws xs ys h.1 k)

-- The first follower and the rest, seen from one state.
online-cons :
    (c d : UserConnectionManager) (f : ℕ) (fs : List ℕ)
    → SameSessions c d
    → (online_followers c (f ∷ []) ++ online_followers d fs ≡ online_followers c (f ∷ fs))
      × (offline_followers c (f ∷ []) ++ offline_followers d fs ≡ offline_followers c (f ∷ fs))
unfolding online_followers offline_followers
online-cons c d f fs s = ground (arith, online-same c d fs s)

pub SameSessions-trans :
    (c d e : UserConnectionManager) → SameSessions c d → SameSessions d e → SameSessions c e
SameSessions-trans c d e s t = record {
  same_exists = λ u. t.same_exists u ∙ s.same_exists u;
  same_owner = λ a. t.same_owner a ∙ s.same_owner a;
}

module _ (uninitialised : ServerMsgPayload) (sized : length uninitialised ≡ payload_size)
    (p : UserPersistence) (author body : Str) (timestamp : ℕ) (clean_author : NoNul author)
    (short_author : length author ≤ 20) (valid : is_valid_message body ≡ true)
    (small : timestamp < 2 ^ 64) where
  -- From state `s` the loop over the followers ends in `t`.
  pub record Fanned (s : FanOut) (fs : List ℕ) (t : FanOut) : Type 0 where
    pub consistent : IsConsistent t.connections
    pub same : SameSessions s.connections t.connections
    pub left_over : t.offline_users ≡ s.offline_users ++ offline_followers s.connections fs
    pub sent :
        (acts : List ServerAction) × (t.pending_actions ≡ s.pending_actions ++ acts)
        × Deliveries author body timestamp (online_followers s.connections fs) acts

  Fanned-trans :
      (s t r : FanOut) (f : ℕ) (fs : List ℕ)
      → Fanned s (f ∷ []) t
      → Fanned t fs r
      → Fanned s (f ∷ fs) r
  Fanned-trans s t r f fs one more =
      let joined = online-cons s.connections t.connections f fs one.same in
      let (xs, ex, hx) = one.sent in
      let (ys, ey, hy) = more.sent in
      record {
        consistent = more.consistent;
        same = SameSessions-trans s.connections t.connections r.connections one.same more.same;
        left_over =
            more.left_over
            ∙ ap (λ (l : List ℕ). l ++ offline_followers t.connections fs) one.left_over
            ∙ append_assoc s.offline_users _ _
            ∙ ap (◌++◌ s.offline_users) joined.1;
        sent = (
          xs ++ ys,
          ey ∙ ap (λ (l : List ServerAction). l ++ ys) ex ∙ append_assoc s.pending_actions xs ys,
          subst (λ (l : List ℕ). Deliveries author body timestamp l (xs ++ ys)) joined.0
              (Deliveries-append author body timestamp _ _ xs ys hx hy),
        );
      }

  notify_online_lem :
      (s : FanOut) (f : ℕ)
      → IsConsistent s.connections
      → Connections.user_id_exists s.connections f ≡ true
      → Returns (notify_online uninitialised author timestamp body s f) (Fanned s (f ∷ []))
  unfolding notify_online online_followers offline_followers
  notify_online_lem s f v on =
      Returns-bind _ (Fanned s (f ∷ [])) (message_payload uninitialised author body timestamp) _
        (message_payload_lem uninitialised sized author body timestamp clean_author
          (message-NoNul body valid) short_author (((is_valid_message_iff body).0 valid).1) small)
        λ payload h. record {
          consistent = get_next_msg_id-IsConsistent s.connections v f;
          same = get_next_msg_id-SameSessions s.connections f;
          left_over = rw on (sym (append-nil s.offline_users));
          sent = rw on (_ ∷ [], refl, ((refl, refl, h.0, h.1, h.2), tt));
        }

  fan_out_step_lem :
      (s : FanOut) (f : ℕ)
      → IsConsistent s.connections
      → IsUser p f
      → Returns (fan_out_step uninitialised p author timestamp body s f) (Fanned s (f ∷ []))
  unfolding fan_out_step online_followers offline_followers
  fan_out_step_lem s f v user = elim (Bool-cases (Connections.user_id_exists s.connections f)) [
    | inl on ↦ rw (on, fan_out_step) (notify_online_lem s f v on)
    | inr off ↦
        rw (off, user)
          (record {
            consistent = v;
            same = SameSessions-refl s.connections;
            left_over = rw off refl;
            sent = rw off ([], sym (append-nil s.pending_actions), tt);
          })
  ]

  -- With followers that are users, a consistent state, an author's name without NUL of 20 bytes at
  -- most, a valid text and a time of 64 bits, the loop ends well: each follower that is online is
  -- sent the text under that name (a name of 20 bytes is shown with the text behind it), in order,
  -- and nobody else; the others are left over, in order; sessions stay as they were. Uninitialised
  -- objects have their sizes.
  pub fan_out_lem :
      (s : FanOut) (fs : List ℕ)
      → IsConsistent s.connections
      → All (IsUser p) fs
      → Returns (fan_out uninitialised p author timestamp body s fs) (Fanned s fs)
  unfolding fan_out online_followers offline_followers
  fan_out_lem s [] v users = record {
    consistent = v;
    same = SameSessions-refl s.connections;
    left_over = sym (append-nil s.offline_users);
    sent = ([], sym (append-nil s.pending_actions), tt);
  }
  fan_out_lem s (f ∷ fs) v users =
      Returns-bind (Fanned s (f ∷ [])) (Fanned s (f ∷ fs))
        (fan_out_step uninitialised p author timestamp body s f)
        (λ t. fan_out uninitialised p author timestamp body t fs) (fan_out_step_lem s f v users.0)
        (λ t one.
          Returns-mono (Fanned t fs) (Fanned s (f ∷ fs))
            (fan_out uninitialised p author timestamp body t fs)
            (λ r more. Fanned-trans s t r f fs one more) (fan_out_lem t fs one.consistent users.1))
