-- ===== src/Server/Handler/Datagram.antt =====
-- `handle_incoming_datagram`: any datagram that can be read leaves the managers sound.
use inf.Server.Connections
use inf.Base.{
  Bool-cases, List, Option-cases, Returns, Returns-and, Returns-bind, Returns-if, Returns-mono, Str,
  arith, eq_str, eq_ℕ, false, if◌then◌else◌, inl, inr, length, nat_eq, none, refl, some, true, ℕ,
  ◌<◌, ◌==◌, ◌^◌, ◌≡◌,
}
use inf.Server.Connections.{
  Address, UserConnectionData, UserConnectionManager, address_eq_iff, address_exists, close_session,
  eq_address, get_user_id_from_address, remove_address,
}
use inf.Server.Connections.Invariant.{remove_address-IsConsistent, remove_address_closes}
use inf.Server.Connections.Sessions.{owner, owner-remove}
use inf.Server.Handler.{
  ClientMessageHandler, follow_username, handle_follow_command, handle_incoming_datagram,
  handle_login, handle_logout, handle_send_command, send_message,
}
use inf.Server.Handler.Follow.{follow_username_lem}
use inf.Server.Handler.Invariant.{
  HasRoom, IsNext, IsSound, get_user_id_from_address-linked, take_msg_id-IsSound,
}
use inf.Server.Handler.Login.{login_lem}
use inf.Server.Handler.Send.{IsSent, send_message_lem, send_message_rejected}
use inf.Server.Message.{ServerAction, ServerMsgPayload, payload_size}
use inf.Server.Persistence.Invariant.{IsUser}
use inf.Server.Restart.Mirror.{known}
use inf.Shared.Ids.{invalid_user_id}
use inf.Shared.Json.{Json}
use inf.Shared.Memory.{c_string}
use inf.Shared.Validation.{is_valid_message}

exists-close :
    (c : UserConnectionManager) (u w : ℕ) (d : UserConnectionData) (a : Address)
    → c.user_id_to_connection_data u ≡ some d
    → Connections.user_id_exists (close_session c u d a) w ≡ true
    → Connections.user_id_exists c w ≡ true
unfolding close_session Connections.user_id_exists
exists-close c u w d a e h = ground arith

module _ (h : ClientMessageHandler) (s : IsSound h) where
  pub removed_sound :
      (a : Address)
      → Returns
          (remove_address h.connection_manager a)
          λ c. IsNext h (record h { connection_manager = c })
  unfolding remove_address
  removed_sound a = elim (Option-cases (h.connection_manager.address_to_user_id a)) [
    | inl unknown ↦
        rw (unknown, remove_address)
          (record { sound = s; few_users = omega arith; few_notifications = omega arith })
    | inr (u, hu) ↦
        let (d, hd, e) = remove_address_closes h.connection_manager s.sessions a u hu in
        rw e (record {
          sound = record {
            users = s.users;
            sessions = rw e at (remove_address-IsConsistent h.connection_manager s.sessions a);
            counts = s.counts;
            linked = λ w on. s.linked w (exists-close h.connection_manager u w d a hd on);
          };
          few_users = omega arith;
          few_notifications = omega arith;
        })
  ]

  -- From a sound state, a logout from any address ends well, asks for no action, forgets the
  -- address and no other, and leaves a sound state.
  pub handle_logout_lem :
      (acts : List ServerAction) (a : Address)
      → Returns (handle_logout h acts a) λ t.
        IsNext h t.0
        × (t.1 ≡ acts)
        × ((b : Address)
            → owner t.0.connection_manager b
              ≡ (if a == b then none else owner h.connection_manager b))
  unfolding handle_logout address_exists
  handle_logout_lem acts a = elim (Option-cases (h.connection_manager.address_to_user_id a)) [
    | inl unknown ↦ rw unknown (
      record { sound = s; few_users = omega arith; few_notifications = omega arith },
      refl,
      λ b. ground (arith, address_eq_iff a b),
    )
    | inr (u, hu) ↦ rw hu (
        Returns-bind
          (λ c.
            IsNext h (record h { connection_manager = c })
            × ((b : Address) → owner c b ≡ (if a == b then none else owner h.connection_manager b)))
          _ (remove_address h.connection_manager a) _
          (Returns-and _ _ (remove_address h.connection_manager a) (removed_sound a)
            (owner-remove h.connection_manager s.sessions a))
          (λ c r. (r.0, refl, r.1)))
  ]

-- What the handlers need of jsoncpp to read a datagram: its accessors do not throw, and a name that
-- a follow request asks for is shorter than a payload.
pub record IsReadable (J : Json) (v : J.Value) : Type 0 where
  pub id_read : Returns (J.as_int v "msg_id") λ n. Unit
  pub type_read : Returns (J.as_int v "msg_type") λ n. Unit
  pub username_read : Returns (J.as_string v "username") λ s. length (c_string s) < payload_size
  pub send_read : Returns (J.as_string v "send") λ s. Unit

module _ (J : Json) (uninitialised : ServerMsgPayload) (sized : length uninitialised ≡ payload_size)
    (h : ClientMessageHandler) (s : IsSound h) (room : HasRoom h) (now : ℕ)
    (small : now < 2 ^ 64) where
  pub ignored : IsNext h h
  ignored = record { sound = s; few_users = omega arith; few_notifications = omega arith }

  pub logged_in_user :
      (a : Address)
      → nat_eq (get_user_id_from_address h.connection_manager a) invalid_user_id ≡ false
      → IsUser h.user_persistence (get_user_id_from_address h.connection_manager a)
  logged_in_user a e = s.linked _ (get_user_id_from_address-linked h s a (ground arith))

  send_sound :
      (acts : List ServerAction) (u : ℕ) (sent : Str)
      → Returns (send_message uninitialised h acts now u sent) λ t. IsNext h t.0
  send_sound acts u sent = elim (Bool-cases (is_valid_message sent)) [
    | inl valid ↦
        Returns-mono (IsSent uninitialised sized h s acts now u sent) (λ t. IsNext h t.0)
          (send_message uninitialised h acts now u sent) (λ t r. r.next)
          (send_message_lem uninitialised sized h s acts now u sent room small valid)
    | inr invalid ↦
        rw (send_message_rejected uninitialised sized h s acts now u sent invalid) (record {
          sound = take_msg_id-IsSound h s u;
          few_users = omega arith;
          few_notifications = omega arith;
        })
  ]

  module _ (acts : List ServerAction) (v : J.Value) (a : Address) (readable : IsReadable J v) where
    login_sound : Returns (handle_login J uninitialised h acts v a) λ t. IsNext h t.0
    unfolding handle_login
    login_sound =
        Returns-bind _ (λ t. IsNext h t.0) (J.as_string v "username") _ readable.username_read
          (λ username k. login_lem uninitialised sized h s room acts username a)

    send_command_sound :
        Returns (handle_send_command J uninitialised h acts now v a) λ t. IsNext h t.0
    unfolding handle_send_command
    send_command_sound =
        elim (Bool-cases
          (nat_eq (get_user_id_from_address h.connection_manager a) invalid_user_id)) [
            | inl unknown ↦ rw unknown ignored
            | inr known ↦ rw known (
                Returns-bind _ (λ t. IsNext h t.0) (J.as_string v "send") _ readable.send_read
                  (λ sent k. send_sound acts _ sent))
          ]

    follow_command_sound :
        Returns (handle_follow_command J uninitialised h acts v a) λ t. IsNext h t.0
    unfolding handle_follow_command
    follow_command_sound =
        elim (Bool-cases
          (nat_eq (get_user_id_from_address h.connection_manager a) invalid_user_id)) [
            | inl unknown ↦ rw unknown ignored
            | inr known ↦ rw known (
                Returns-bind _ (λ t. IsNext h t.0) (J.as_string v "username") _
                  readable.username_read
                  (λ username fits.
                    Returns-mono _ (λ t. IsNext h t.0)
                      (follow_username uninitialised h acts
                        (get_user_id_from_address h.connection_manager a) username)
                      (λ t r. r.0)
                      (follow_username_lem uninitialised sized h s acts _ (logged_in_user a known)
                        username fits)))
          ]

    logout_sound : Returns (handle_logout h acts a) λ t. IsNext h t.0
    logout_sound =
        Returns-mono _ (λ t. IsNext h t.0) (handle_logout h acts a) (λ t r. r.0)
          (handle_logout_lem h s acts a)

    -- From a sound state that can number one more user and one more message, a datagram that can be
    -- read is handled without a crash at any time of 64 bits; the new state is sound, and has
    -- numbered one user and one message more at most. Uninitialised objects have their sizes.
    pub handle_incoming_datagram-IsSound :
        Returns (handle_incoming_datagram J uninitialised h acts now v a) λ t. IsNext h t.0
    unfolding handle_incoming_datagram
    handle_incoming_datagram-IsSound =
        Returns-bind _ (λ t. IsNext h t.0) (J.as_int v "msg_id") _ readable.id_read
          λ client_msg_id k.
            Returns-bind _ (λ t. IsNext h t.0) (J.as_int v "msg_type") _ readable.type_read
              λ client_msg_type k'. Returns-if _ (nat_eq client_msg_type 0) _ _ login_sound (
                Returns-if _ (nat_eq client_msg_type 1) _ _ logout_sound (
                  Returns-if _ (nat_eq client_msg_type 2) _ _ send_command_sound
                    (Returns-if _ (nat_eq client_msg_type 3) _ _ follow_command_sound ignored)))
