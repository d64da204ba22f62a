-- ===== src/Server/Handler/Follow.antt =====
-- `handle_follow_command`: who follows whom afterwards, and what the client is told.
use inf.Server.Persistence
use inf.Base.{
  Bool, Bool-cases, List, Option-cases, Returns, Returns-bind, Str, [], ap, arith, contains, crash,
  eq_str, eq_ℕ, false, if◌then◌else◌, inl, inr, length, nat_eq, not, overrun, refl, str_eq,
  str_eq_iff, true, ℕ, ◌&&◌, ◌++◌, ◌<◌, ◌∙◌, ◌∷◌, ◌≡◌, ◌≢◌, ◌≤◌,
}
use inf.Server.Connections.{eq_address, get_next_msg_id}
use inf.Server.Handler.{ClientMessageHandler, follow, follow_username, message_user}
use inf.Server.Handler.Invariant.{IsNext, IsSound, take_msg_id-IsSound}
use inf.Server.Message.{
  ServerAction, ServerMsgPayload, ServerMsgType, follow_command_success, payload_size,
  payload_username, username_payload,
}
use inf.Server.Message.Payload.{username_payload_lem, username_payload_overruns}
use inf.Server.NotificationManager.Counts.{references-same}
use inf.Server.NotificationManager.Keeps.{IsCounted-same}
use inf.Server.Persistence.{
  UserPersistence, add_follow, get_followers, get_user_id_from_username, get_username_from_user_id,
}
use inf.Server.Persistence.Invariant.{
  IsUser, IsWellFormed, add_follow-IsWellFormed, contains-append,
}
use inf.Server.Persistence.Pending.{waiting}
use inf.Server.Persistence.Users.{get_followers-add_follow, username_iff_user_id}
use inf.Shared.Ids.{invalid_user_id}
use inf.Shared.Memory.{c_string}

abbrev pub is_success : ServerMsgType → Bool
is_success follow_command_success = true
is_success _ = false

follow_waiting : (p : UserPersistence) (v f u : ℕ) → waiting (add_follow p v f) u ≡ waiting p u
unfolding add_follow
follow_waiting p v f u = ground arith

follow_last : (p : UserPersistence) (v f : ℕ) → (add_follow p v f).last_user_id ≡ p.last_user_id
unfolding add_follow
follow_last p v f = ground arith

module _ (p : UserPersistence) (v : IsWellFormed p) (u : ℕ) (user : IsUser p u)
    (username : Str) where
  -- The name is the follower's own exactly when it has the follower's id.
  own_name :
      get_user_id_from_username p username ≢ invalid_user_id
      → str_eq (get_username_from_user_id p u) username
        ≡ nat_eq (get_user_id_from_username p username) u
  own_name known = ground (
    arith,
    str_eq_iff (get_username_from_user_id p u) username,
    username_iff_user_id p v username (get_user_id_from_username p username) known,
    username_iff_user_id p v username u,
    user_proper,
  )
    where
      user_proper : u ≢ invalid_user_id
      user_proper = unfold Persistence.user_id_exists in ground (arith, v.data_ok u)

  abbrev followed : ℕ
  followed = get_user_id_from_username p username

  nobody_follows_zero : get_followers p invalid_user_id ≡ []
  unfolding get_followers
  nobody_follows_zero = ground (arith, v.data_ok invalid_user_id)

  nobody_follows_self : contains u (get_followers p u) ≡ false
  unfolding get_followers contains
  nobody_follows_self = elim (Option-cases (p.id_to_user u)) [
    | inl e ↦ ground arith
    | inr (d, e) ↦ ground (arith, v.data_ok u)
  ]

  nobody_follows_unknown :
      (f w : ℕ)
      → nat_eq followed invalid_user_id ≡ true
      → nat_eq w followed ≡ true
      → contains f (get_followers p w) ≡ false
  unfolding contains
  nobody_follows_unknown f w unknown same =
      let zero_id : w ≡ invalid_user_id = ground arith in
      ground (arith, nobody_follows_zero, ap (get_followers p) zero_id)

  pub follow-IsWellFormed : IsWellFormed (follow p u username).0
  unfolding follow
  follow-IsWellFormed = elim (Bool-cases (nat_eq followed invalid_user_id)) [
    | inl unknown ↦ rw unknown v
    | inr known ↦ elim (Bool-cases (nat_eq followed u)) [
      | inl own ↦ rw (known, own_name (ground arith), own) v
      | inr other ↦
          rw (known, own_name (ground arith), other)
            (add_follow-IsWellFormed p v followed u (ground arith))
    ]
  ]

  -- For well-formed users and a follower that is a user, the reply says success exactly when the
  -- name is another user's. The follower is then in that user's list, and it is not in the list of
  -- the name's user otherwise; no other membership changes.
  pub contains-follow :
      (w f : ℕ)
      → (is_success (follow p u username).1 ≡ (
          not (nat_eq (get_user_id_from_username p username) invalid_user_id)
          && not (nat_eq (get_user_id_from_username p username) u)))
        × (contains f (get_followers (follow p u username).0 w) ≡ (
            if nat_eq w (get_user_id_from_username p username) && nat_eq f u
            then is_success (follow p u username).1
            else contains f (get_followers p w)))
  unfolding follow
  contains-follow w f = elim (Bool-cases (nat_eq followed invalid_user_id)) [
    | inl unknown ↦ ground (arith, nobody_follows_unknown f w)
    | inr known ↦ ground (
      arith,
      own_name (ground arith),
      nobody_follows_self,
      get_followers-add_follow p followed u w,
      contains-append f u (get_followers p w),
      username_iff_user_id p v username followed (ground arith),
    )
  ]

module _ (uninitialised : ServerMsgPayload) (sized : length uninitialised ≡ payload_size)
    (h : ClientMessageHandler) (s : IsSound h) (acts : List ServerAction) (u : ℕ)
    (user : IsUser h.user_persistence u) (username : Str) where
  abbrev followed_state : ClientMessageHandler
  followed_state = record h {
    connection_manager = (get_next_msg_id h.connection_manager u).1;
    user_persistence = (follow h.user_persistence u username).0;
  }

  follow_same :
      (w : ℕ)
      → (waiting followed_state.user_persistence w ≡ waiting h.user_persistence w)
        × (followed_state.user_persistence.last_user_id ≡ h.user_persistence.last_user_id)
        × (Persistence.user_id_exists followed_state.user_persistence w
            ≡ Persistence.user_id_exists h.user_persistence w)
  unfolding follow
  follow_same w =
      let v = get_user_id_from_username h.user_persistence username in
      ground (
        arith,
        follow_waiting h.user_persistence v u w,
        follow_last h.user_persistence v u,
        get_followers-add_follow h.user_persistence v u w,
      )

  follow_IsNext : IsNext h followed_state
  follow_IsNext = record {
    sound = record {
      users = follow-IsWellFormed h.user_persistence s.users u user username;
      sessions = (take_msg_id-IsSound h s u).sessions;
      counts =
          IsCounted-same h.user_persistence followed_state.user_persistence h.notification_manager
            []
            (references-same h.user_persistence followed_state.user_persistence (follow_same 0).1
              (λ w. (follow_same w).0))
            s.counts;
      linked = λ w on. (follow_same w).2 ∙ (take_msg_id-IsSound h s u).linked w on;
    };
    few_users = omega (arith, (follow_same 0).1);
    few_notifications = omega arith;
  }

  -- From a sound state, a follow request of a user ends well if the name, up to its first NUL, is
  -- shorter than the payload. The new state is sound, with the users that the decision leaves, and
  -- the one action is the decision's reply to that user with that part of the name. Uninitialised
  -- objects have their sizes.
  pub follow_username_lem :
      length (c_string username) < payload_size
      → Returns (follow_username uninitialised h acts u username) λ t.
        IsNext h t.0
        × (t.0.user_persistence ≡ (follow h.user_persistence u username).0)
        × (payload : ServerMsgPayload) × (t.1
            ≡ acts
              ++ message_user u
                  (get_next_msg_id h.connection_manager u).0
                  (follow h.user_persistence u username).1
                  payload
                ∷ [])
        × (payload_username payload ≡ c_string username)
  unfolding follow_username
  follow_username_lem fits =
      Returns-bind _ _ (username_payload uninitialised username) _
        (username_payload_lem uninitialised sized username fits)
        λ payload e. (follow_IsNext, refl, payload, refl, e.0)

  -- From any sound state, a follow request with a name that has as many bytes before its first NUL
  -- as the payload, or more, is a write past the payload. Uninitialised objects have their sizes.
  pub follow_username_overruns :
      payload_size ≤ length (c_string username)
      → follow_username uninitialised h acts u username ≡ crash overrun
  unfolding follow_username
  follow_username_overruns over =
      rw (username_payload_overruns uninitialised sized username over) refl
