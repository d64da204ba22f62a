-- ===== src/Server/Handler/LoginAnswer.antt =====
-- What a login is answered with, and that the answer tells whether the address is logged in.
use inf.Server.Connections
use inf.Base.{
  Bool-cases, List, Option, Returns, Returns-mono, Str, [], ap, arith, eq_str, eq_ℕ, inl, inr,
  length, none, not, refl, some, subst, sym, true, ℕ, ◌&&◌, ◌∙◌, ◌∷◌, ◌≡◌, ◌≢◌, ◌⊎◌,
}
use inf.Server.Connections.{
  Address, UserConnectionManager, add_or_update_user_address, address_eq_iff, eq_address,
  get_next_msg_id, session_available,
}
use inf.Server.Connections.Invariant.{IsConsistent}
use inf.Server.Connections.Sessions.{owner, owner-add}
use inf.Server.Handler.{
  ClientMessageHandler, Handled, answer_login, complete_login, login, login_refusal, login_user,
  message_address,
}
use inf.Server.Handler.Delivery.{Delivered}
use inf.Server.Handler.Invariant.{HasRoom, IsSound}
use inf.Server.Handler.Login.{
  before_loop, complete_login_delivers, known-IsSound, login_refusal_free,
}
use inf.Server.Message.{
  ServerAction, ServerMessageData, ServerMsgPayload, ServerMsgType, action_message_address,
  login_fail_already_connected_to_different_user, login_fail_invalid_username,
  login_fail_too_many_sessions, login_success, payload_size, zero_payload,
}
use inf.Server.NotificationManager.Fan.{get_next_msg_id-SameSessions}
use inf.Server.Persistence.{
  UserPersistence, add_or_update_user, drain_pending_notifications, get_user_id_from_username,
}
use inf.Server.Persistence.Invariant.{IsUser}
use inf.Server.Persistence.Pending.{
  SameUsers, SameUsers-refl, drain_pending_notifications-SameUsers,
}
use inf.Server.Persistence.Users.{add_or_update_user_lem}
use inf.Shared.Ids.{invalid_user_id}
use inf.Shared.Validation.{is_valid_username}

module _ (uninitialised : ServerMsgPayload) (sized : length uninitialised ≡ payload_size) where
  abbrev pub IsLoginFailure : ServerMsgType → Type 0
  IsLoginFailure response_type =
      (response_type ≡ login_fail_invalid_username)
      ⊎ (response_type ≡ login_fail_too_many_sessions)
      ⊎ (response_type ≡ login_fail_already_connected_to_different_user)

  -- The first action is the answer at the address: of success, and then the address is the named
  -- user's now, or of a failure, and then nobody's address has changed.
  pub record IsAnswered (h : ClientMessageHandler) (username : Str) (a : Address) (t : Handled)
      : Type 0 where
    pub message : ServerMessageData
    pub later : List ServerAction
    pub first : t.1 ≡ action_message_address a message ∷ later
    pub told :
        ((message.msg_type ≡ login_success)
          × (owner t.0.connection_manager a
              ≡ some (get_user_id_from_username t.0.user_persistence username)))
        ⊎ (IsLoginFailure message.msg_type
            × ((b : Address) → owner t.0.connection_manager b ≡ owner h.connection_manager b))

  -- A login that is not refused gives the address to the user.
  owner_added :
      (c : UserConnectionManager) (u : ℕ) (a : Address)
      → IsConsistent c
      → login_refusal c u a ≡ none
      → owner (add_or_update_user_address c u a) a ≡ some u
  owner_added c u a v e =
      owner-add c v u a a (login_refusal_free c u a v e)
      ∙ unfold login_refusal in ground (arith, e, address_eq_iff a a)

  pub record IsCompleted (h : ClientMessageHandler) (u : ℕ) (a : Address) (t : Handled)
      : Type 0 where
    reply_id : ℕ
    later : List ServerAction
    first : t.1 ≡ message_address a reply_id login_success ∷ later
    pub owned : owner t.0.connection_manager a ≡ some u
    pub same_users : SameUsers h.user_persistence t.0.user_persistence

  pub completed_lem :
      (h : ClientMessageHandler) (s : IsSound h) (u : ℕ) (a : Address)
      → IsUser h.user_persistence u
      → u ≢ invalid_user_id
      → login_refusal h.connection_manager u a ≡ none
      → Returns (complete_login uninitialised h [] u a) (IsCompleted h u a)
  completed_lem h s u a user proper e =
      let free = login_refusal_free h.connection_manager u a s.sessions e in
      let added = add_or_update_user_address h.connection_manager u a in
      let owns : owner (get_next_msg_id added u).1 a ≡ some u =
        (get_next_msg_id-SameSessions added u).same_owner a
        ∙ owner_added h.connection_manager u a s.sessions e in
      elim (Bool-cases (Connections.user_id_exists h.connection_manager u)) [
        | inl had ↦
            unfold complete_login in
            rw had (record {
              reply_id = (get_next_msg_id added u).0;
              later = [];
              first = refl;
              owned = owns;
              same_users = SameUsers-refl h.user_persistence;
            })
        | inr new ↦
            Returns-mono
              (Delivered uninitialised sized u
                (before_loop uninitialised sized h s [] u a user proper free)
                (drain_pending_notifications h.user_persistence u).0)
              (IsCompleted h u a) (complete_login uninitialised h [] u a)
              (λ t d.
                let (acts, sent, k) = d.sent in
                record {
                  reply_id = (get_next_msg_id added u).0;
                  later = acts;
                  first = sent;
                  owned = d.same.same_owner a ∙ owns;
                  same_users =
                      subst (λ (p : UserPersistence). SameUsers h.user_persistence p) (sym d.users)
                        (drain_pending_notifications-SameUsers h.user_persistence u);
                })
              (complete_login_delivers uninitialised sized h s [] u a user proper free new)
      ]

  refusal_type :
      (c : UserConnectionManager) (u : ℕ) (a : Address) (response_type : ServerMsgType)
      → login_refusal c u a ≡ some response_type
      → IsLoginFailure response_type
  unfolding login_refusal
  refusal_type c u a response_type e =
      elim (Bool-cases (Connections.user_id_exists c u && not (session_available c u))) [
        | inl many ↦ inr (inl (ground arith))
        | inr free ↦ inr (inr (ground arith))
      ]

  module _ (h : ClientMessageHandler) (s : IsSound h) (room : HasRoom h) (username : Str)
      (a : Address) (valid : is_valid_username username ≡ true) where
    abbrev pub known_users : ClientMessageHandler
    known_users = record h { user_persistence = (add_or_update_user h.user_persistence username).1 }

    abbrev pub user_id : ℕ
    user_id = (add_or_update_user h.user_persistence username).0

    completed-IsAnswered :
        (t : Handled) → IsCompleted known_users user_id a t → IsAnswered h username a t
    unfolding get_user_id_from_username
    completed-IsAnswered t c =
        let f = add_or_update_user_lem h.user_persistence s.users username [] 0 room.user_room in
        record {
          message = record {
            msg_id = c.reply_id;
            msg_type = login_success;
            payload = zero_payload;
          };
          later = c.later;
          first = c.first;
          told = inl (
            refl,
            c.owned
                ∙ ap some (
                    sym f.1
                    ∙ rw (c.same_users.same_names username, get_user_id_from_username) refl),
          );
        }

    answer_login_told :
        (refusal : Option ServerMsgType)
        → login_refusal h.connection_manager user_id a ≡ refusal
        → Returns
            (answer_login uninitialised known_users [] user_id a refusal)
            (IsAnswered h username a)
    unfolding answer_login
    answer_login_told (some response_type) e = record {
      message = record { msg_id = 0; msg_type = response_type; payload = zero_payload };
      later = [];
      first = refl;
      told = inr (refusal_type h.connection_manager user_id a response_type e, λ b. refl);
    }
    answer_login_told none e =
        let f = add_or_update_user_lem h.user_persistence s.users username [] 0 room.user_room in
        Returns-mono (IsCompleted known_users user_id a) (IsAnswered h username a)
          (complete_login uninitialised known_users [] user_id a) completed-IsAnswered
          (completed_lem known_users (known-IsSound uninitialised sized h s room username valid)
            user_id a f.3 f.0 e)

  -- In a sound state that can number one more user and one more message, a login, whose actions are
  -- the first of its datagram, is answered at its address before anything else. Either the answer
  -- is login_success and the address is then the named user's, or it is one of the three failures
  -- and every address is whose it was. Uninitialised objects have their sizes.
  pub login_answered_lem :
      (h : ClientMessageHandler)
      → IsSound h
      → HasRoom h
      → (username : Str) (a : Address)
      → Returns (login uninitialised h [] username a) (IsAnswered h username a)
  login_answered_lem h s room username a = elim (Bool-cases (is_valid_username username)) [
    | inl valid ↦
        unfold login login_user in
        rw valid (
          answer_login_told h s room username a valid
            (login_refusal h.connection_manager (user_id h s room username a valid) a) refl)
    | inr invalid ↦
        unfold login in
        rw invalid (record {
          message = record {
            msg_id = 0;
            msg_type = login_fail_invalid_username;
            payload = zero_payload;
          };
          later = [];
          first = refl;
          told = inr (inl refl, λ b. refl);
        })
  ]
