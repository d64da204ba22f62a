-- ===== src/Server/Handler/Send.antt =====
-- `handle_send_command`: every follower gets the message, now or at its next login.
use inf.Server.Connections
use inf.Base.{
  List, Returns, Returns-bind, Str, [], ap, append_assoc, contains, eq_str, eq_ℕ, false,
  if◌then◌else◌, length, nat_eq, not, null, ok, refl, some, subst, true, ℕ, ◌&&◌, ◌++◌, ◌<◌, ◌^◌,
  ◌∙◌, ◌∷◌, ◌≡◌,
}
use inf.Server.Connections.{eq_address, get_next_msg_id}
use inf.Server.Handler.{ClientMessageHandler, Handled, message_user, publish, send_message}
use inf.Server.Handler.Invariant.{HasRoom, IsNext, IsSound, take_msg_id-IsSound}
use inf.Server.Handler.Publish.{Published, publish_lem}
use inf.Server.Message.{
  ServerAction, ServerMsgPayload, payload_size, send_command_fail, send_command_success,
  zero_payload,
}
use inf.Server.NotificationManager.Counts.{stored_content}
use inf.Server.NotificationManager.Fan.{
  Deliveries, SameSessions, SameSessions-trans, get_next_msg_id-SameSessions, offline_followers,
  online-same, online_followers,
}
use inf.Server.Persistence.{get_followers, get_username_from_user_id}
use inf.Server.Persistence.Pending.{SameUsers, waiting}
use inf.Shared.Ids.{increment}
use inf.Shared.Validation.{is_valid_message}

module _ (uninitialised : ServerMsgPayload) (sized : length uninitialised ≡ payload_size)
    (h : ClientMessageHandler) (s : IsSound h) (acts : List ServerAction) (now u : ℕ)
    (sent : Str) where
  abbrev reply_id : ℕ
  reply_id = (get_next_msg_id h.connection_manager u).0

  -- The managers after the reply's message id is taken.
  abbrev numbered : ClientMessageHandler
  numbered = record h { connection_manager = (get_next_msg_id h.connection_manager u).1 }

  numbered_sessions : SameSessions h.connection_manager numbered.connection_manager
  numbered_sessions = get_next_msg_id-SameSessions h.connection_manager u

  -- From a sound state, an invalid text changes nothing but the sender's last message id, and is
  -- answered as failed. Uninitialised objects have their sizes.
  pub send_message_rejected :
      is_valid_message sent ≡ false
      → send_message uninitialised h acts now u sent
        ≡ ok (numbered, acts ++ message_user u reply_id send_command_fail zero_payload ∷ [])
  unfolding send_message
  send_message_rejected invalid = rw invalid refl

  -- What a valid message of user `u` leads to.
  pub record IsSent (t : Handled) : Type 0 where
    pub next : IsNext h t.0
    -- Names, ids, followers and sessions are as they were.
    pub same_users : SameUsers h.user_persistence t.0.user_persistence
    pub same_sessions : SameSessions h.connection_manager t.0.connection_manager
    -- One message for each follower that is online, in the order of the list; then the reply.
    pub delivered :
        (new : List ServerAction) × (t.1
          ≡ acts ++ (new ++ message_user u reply_id send_command_success zero_payload ∷ []))
        × Deliveries
            (get_username_from_user_id h.user_persistence u)
            sent
            now
            (online_followers h.connection_manager (get_followers h.user_persistence u))
            new
    -- One reference more for each other follower, and for nobody else.
    pub left_waiting :
        (w : ℕ)
        → waiting t.0.user_persistence w ≡ (
            if contains w (get_followers h.user_persistence u)
              && not (Connections.user_id_exists h.connection_manager w)
            then waiting h.user_persistence w
              ++ record {
                user_id = u;
                notification_id = increment h.notification_manager.notification_id;
              }
                ∷ []
            else waiting h.user_persistence w)
    -- The message is stored under the next id if somebody waits for it; no stored message is lost.
    pub stored :
        (id : ℕ)
        → stored_content t.0.notification_manager id ≡ (
            if not
                (null (offline_followers h.connection_manager (get_followers h.user_persistence u)))
              && nat_eq (increment h.notification_manager.notification_id) id
            then some (sent, now)
            else stored_content h.notification_manager id)

  Published-IsSent :
      (room : HasRoom h) (small : now < 2 ^ 64) (valid : is_valid_message sent ≡ true) (r : Handled)
      → Published uninitialised sized numbered
          (take_msg_id-IsSound h s u)
          (record { user_room = room.user_room; notification_room = room.notification_room })
          now
          u
          small
          sent
          valid
          acts
          r
      → IsSent (r.0, r.1 ++ message_user u reply_id send_command_success zero_payload ∷ [])
  Published-IsSent room small valid r b =
      let followers = get_followers h.user_persistence u in
      let (new, e, d) = b.delivered in
      let (online, offline) =
        online-same h.connection_manager numbered.connection_manager followers numbered_sessions in
      record {
        next = record {
          sound = b.next.sound;
          few_users = b.next.few_users;
          few_notifications = b.next.few_notifications;
        };
        same_users = b.same_users;
        same_sessions =
            SameSessions-trans h.connection_manager numbered.connection_manager
              r.0.connection_manager numbered_sessions b.same_sessions;
        delivered = (
          new,
          ap
                (λ (l : List ServerAction).
                  l ++ message_user u reply_id send_command_success zero_payload ∷ [])
                e
              ∙ append_assoc acts new _,
          subst
              (λ (l : List ℕ).
                Deliveries (get_username_from_user_id h.user_persistence u) sent now l new)
              online d,
        );
        left_waiting =
            λ w. b.left_waiting w ∙ rw (SameSessions.same_exists numbered_sessions w) refl;
        stored = λ id. b.stored id ∙ rw offline refl;
      }

  -- From a sound state with room for one more message, a valid text of user `u` is answered as
  -- sent, after one message with it under the name of `u` (a name of 20 bytes is shown with the
  -- text behind it) to each follower that is online, in the order of the list. Each other follower,
  -- and nobody else, has one reference more to the message, which is stored under the next id if
  -- there is such a follower; other stored messages, users and sessions stay, and the new state is
  -- sound. Uninitialised objects have their sizes.
  pub send_message_lem :
      HasRoom h
      → now < 2 ^ 64
      → is_valid_message sent ≡ true
      → Returns (send_message uninitialised h acts now u sent) IsSent
  unfolding send_message
  send_message_lem room small valid = rw valid (
      Returns-bind _ IsSent (publish uninitialised numbered acts now u sent) _
        (publish_lem uninitialised sized numbered (take_msg_id-IsSound h s u)
          (record { user_room = room.user_room; notification_room = room.notification_room }) now u
          small sent valid acts)
        (λ r b. Published-IsSent room small valid r b))
