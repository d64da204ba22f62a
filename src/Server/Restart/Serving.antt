-- ===== src/Server/Restart/Serving.antt =====
-- What the server's main loop does to the users is kept over a restart.
use inf.Base.{
  Bool-cases, List, Option, Returns, Returns-bind, Returns-if, Returns-mono, Str, [], arith, eq_str,
  eq_ℕ, false, inl, inr, length, nat_eq, none, not, ok, refl, some, str_eq, str_eq_iff, subst, sym,
  true, ℕ, ◌+◌, ◌<◌, ◌^◌, ◌≡◌, ◌≢◌,
}
use inf.Server.Connections.{
  Address, address_exists, eq_address, get_user_id_from_address, remove_address,
}
use inf.Server.Disk.{DiskOperationsManagment}
use inf.Server.Disk.Directory.{IsFileName}
use inf.Server.Handler.{
  ClientMessageHandler, Handled, answer_login, complete_login, follow, follow_username,
  handle_follow_command, handle_incoming_datagram, handle_login, handle_logout, handle_send_command,
  login, login_refusal, login_user, send_message,
}
use inf.Server.Handler.Datagram.{IsReadable, logged_in_user, removed_sound}
use inf.Server.Handler.Follow.{follow_username_lem}
use inf.Server.Handler.Invariant.{HasRoom, IsNext, IsSound}
use inf.Server.Handler.Login.{known-IsSound}
use inf.Server.Handler.LoginAnswer.{IsCompleted, completed_lem, known_users, user_id}
use inf.Server.Handler.Send.{IsSent, send_message_lem, send_message_rejected}
use inf.Server.Message.{ServerAction, ServerMsgPayload, ServerMsgType, payload_size}
use inf.Server.Persistence.{UserPersistence, get_user_id_from_username, get_username_from_user_id}
use inf.Server.Persistence.Users.{add_or_update_user_lem, username_iff_user_id}
use inf.Server.Restart.{user_limit}
use inf.Server.Restart.Kept.{same-IsKept}
use inf.Server.Restart.Mirror.{IsKept, known}
use inf.Server.Restart.Step.{add_follow-IsKept, add_or_update_user-IsKept}
use inf.Shared.Ids.{invalid_user_id}
use inf.Shared.Json.{Json}
use inf.Shared.Validation.{is_valid_message, is_valid_username}

-- The user of another name than the follower's is another user.
other_user :
    (s : DiskOperationsManagment) (p : UserPersistence) (u : ℕ) (username : Str)
    → IsKept s p
    → nat_eq (get_user_id_from_username p username) invalid_user_id ≡ false
    → str_eq (get_username_from_user_id p u) username ≡ false
    → get_user_id_from_username p username ≢ u
other_user s p u username k somebody other e =
    let proper : u ≢ invalid_user_id = λ (z : u ≡ invalid_user_id). ground arith in
    let name = ((username_iff_user_id p k.sound username u proper).0 e).1 in
    ground (arith, str_eq_iff (get_username_from_user_id p u) username)

-- A follow request leaves the users in step with the folder.
follow-IsKept :
    (s : DiskOperationsManagment) (p : UserPersistence) (u : ℕ) (username : Str)
    → IsKept s p
    → IsKept s (follow p u username).0
unfolding follow
follow-IsKept s p u username k =
    elim (Bool-cases (nat_eq (get_user_id_from_username p username) invalid_user_id)) [
      | inl nobody ↦ rw (nobody, follow) k
      | inr somebody ↦ elim (Bool-cases (str_eq (get_username_from_user_id p u) username)) [
        | inl oneself ↦ rw (somebody, follow, oneself) k
        | inr other ↦
            rw (somebody, follow, other)
              (add_follow-IsKept s p k (get_user_id_from_username p username) u
                (other_user s p u username k somebody other))
      ]
    ]

-- A valid name in the datagram is one that a file can have.
abbrev pub IsNamed : (J : Json) → J.Value → Type 0
IsNamed J v =
    Returns (J.as_string v "username")
      λ username. is_valid_username username ≡ true → IsFileName username

module _ (uninitialised : ServerMsgPayload) (sized : length uninitialised ≡ payload_size)
    (folder : DiskOperationsManagment) (h : ClientMessageHandler) (s : IsSound h) (room : HasRoom h)
    (k : IsKept folder h.user_persistence) where
  abbrev pub StaysKept : Handled → Type 0
  StaysKept t = IsKept folder t.0.user_persistence

  answer-StaysKept :
      (username : Str) (a : Address) (valid : is_valid_username username ≡ true)
      → IsKept folder (known_users uninitialised sized h s room username a valid).user_persistence
      → (refusal : Option ServerMsgType)
      → login_refusal h.connection_manager (user_id uninitialised sized h s room username a valid) a
        ≡ refusal
      → Returns
          (answer_login uninitialised
            (known_users uninitialised sized h s room username a valid)
            []
            (user_id uninitialised sized h s room username a valid)
            a
            refusal)
          StaysKept
  unfolding answer_login
  answer-StaysKept username a valid k' (some response_type) e = k'
  answer-StaysKept username a valid k' none e =
      let known_state = known_users uninitialised sized h s room username a valid in
      let u = user_id uninitialised sized h s room username a valid in
      let f = add_or_update_user_lem h.user_persistence s.users username [] 0 room.user_room in
      Returns-mono (IsCompleted uninitialised sized known_state u a) StaysKept
        (complete_login uninitialised known_state [] u a)
        (λ t c.
          same-IsKept folder known_state.user_persistence k' t.0.user_persistence c.same_users)
        (completed_lem uninitialised sized known_state
          (known-IsSound uninitialised sized h s room username valid) u a f.3 f.0 e)

  login-StaysKept :
      (username : Str) (a : Address)
      → (is_valid_username username ≡ true → IsFileName username)
      → h.user_persistence.last_user_id + 4 < user_limit
      → Returns (login uninitialised h [] username a) StaysKept
  login-StaysKept username a named few = elim (Bool-cases (is_valid_username username)) [
    | inl valid ↦
        unfold login login_user in
        rw valid (
          answer-StaysKept username a valid
            (add_or_update_user-IsKept folder h.user_persistence k username (named valid) few) _
            refl)
    | inr invalid ↦ unfold login in rw invalid k
  ]

  send-StaysKept :
      (acts : List ServerAction) (now u : ℕ) (sent : Str)
      → now < 2 ^ 64
      → Returns (send_message uninitialised h acts now u sent) StaysKept
  send-StaysKept acts now u sent small = elim (Bool-cases (is_valid_message sent)) [
    | inl valid ↦
        Returns-mono (IsSent uninitialised sized h s acts now u sent) StaysKept
          (send_message uninitialised h acts now u sent)
          (λ t r. same-IsKept folder h.user_persistence k t.0.user_persistence r.same_users)
          (send_message_lem uninitialised sized h s acts now u sent room small valid)
    | inr invalid ↦ rw (send_message_rejected uninitialised sized h s acts now u sent invalid) k
  ]

  logout-StaysKept :
      (acts : List ServerAction) (a : Address) → Returns (handle_logout h acts a) StaysKept
  unfolding handle_logout
  logout-StaysKept acts a =
      Returns-if StaysKept (not (address_exists h.connection_manager a)) (ok (h, acts)) _ k (
        Returns-bind (λ c. IsNext h (record h { connection_manager = c })) StaysKept
          (remove_address h.connection_manager a)
          (λ c. ok (record h { connection_manager = c }, acts)) (removed_sound h s a) (λ c n. k))

  module _ (J : Json) (now : ℕ) (small : now < 2 ^ 64) (v : J.Value) (a : Address)
      (readable : IsReadable J v) (few : h.user_persistence.last_user_id + 4 < user_limit)
      (named : IsNamed J v) where
    handle_login-StaysKept : Returns (handle_login J uninitialised h [] v a) StaysKept
    unfolding handle_login
    handle_login-StaysKept =
        Returns-bind _ StaysKept (J.as_string v "username") _ named
          (λ username n. login-StaysKept username a n few)

    handle_send_command-StaysKept :
        Returns (handle_send_command J uninitialised h [] now v a) StaysKept
    unfolding handle_send_command
    handle_send_command-StaysKept =
        Returns-if StaysKept
          (nat_eq (get_user_id_from_address h.connection_manager a) invalid_user_id) (ok (h, [])) _
          k
          (Returns-bind _ StaysKept (J.as_string v "send") _ readable.send_read
            (λ sent n. send-StaysKept [] now _ sent small))

    handle_follow_command-StaysKept :
        Returns (handle_follow_command J uninitialised h [] v a) StaysKept
    unfolding handle_follow_command
    handle_follow_command-StaysKept =
        elim (Bool-cases
          (nat_eq (get_user_id_from_address h.connection_manager a) invalid_user_id)) [
            | inl unknown ↦ rw unknown k
            | inr known ↦ rw known (
                Returns-bind _ StaysKept (J.as_string v "username") _ readable.username_read
                  (λ username fits.
                    Returns-mono _ StaysKept
                      (follow_username uninitialised h []
                        (get_user_id_from_address h.connection_manager a) username)
                      (λ t r. subst (IsKept folder) (sym r.1) (
                        follow-IsKept folder h.user_persistence
                          (get_user_id_from_address h.connection_manager a) username k))
                      (follow_username_lem uninitialised sized h s [] _
                        (logged_in_user J uninitialised sized h s room now small a known) username
                        fits)))
          ]

    pub handle_incoming_datagram-StaysKept :
        Returns (handle_incoming_datagram J uninitialised h [] now v a) StaysKept
    unfolding handle_incoming_datagram
    handle_incoming_datagram-StaysKept =
        Returns-bind _ StaysKept (J.as_int v "msg_id") _ readable.id_read λ client_msg_id i.
          Returns-bind _ StaysKept (J.as_int v "msg_type") _ readable.type_read λ client_msg_type j.
            Returns-if StaysKept (nat_eq client_msg_type 0) _ _ handle_login-StaysKept (
              Returns-if StaysKept (nat_eq client_msg_type 1) _ _ (logout-StaysKept [] a) (
                Returns-if StaysKept (nat_eq client_msg_type 2) _ _ handle_send_command-StaysKept (
                  Returns-if StaysKept (nat_eq client_msg_type 3) _ _
                    handle_follow_command-StaysKept k)))
