-- ===== src/Server/Handler/Publish.antt =====
-- What `handle_send_command` does for a valid text: every follower gets it, now or later.
use inf.Server.Connections
use inf.Server.NotificationManager
use inf.Base.{
  All, Bool-cases, List, Returns, Returns-bind, Str, [], append-nil, arith, contains, eq_str, eq_ℕ,
  if◌then◌else◌, inl, inr, length, nat_eq, not, null, refl, some, sym, true, ℕ, ◌&&◌, ◌++◌, ◌<◌,
  ◌^◌, ◌∙◌, ◌∷◌, ◌≡◌,
}
use inf.Server.Connections.{eq_address}
use inf.Server.Handler.{ClientMessageHandler, Handled, publish}
use inf.Server.Handler.Delivery.{username_clean}
use inf.Server.Handler.Invariant.{HasRoom, IsNext, IsSound}
use inf.Server.Message.{ServerAction, ServerMsgPayload, payload_size}
use inf.Server.Notification.{PendingNotification}
use inf.Server.NotificationManager.{FanOut, NotificationManager, fan_out, store_notification}
use inf.Server.NotificationManager.Counts.{stored_content}
use inf.Server.NotificationManager.Fan.{
  Deliveries, Fanned, SameSessions, SameSessions-refl, fan_out_lem, offline_followers,
  online_followers,
}
use inf.Server.NotificationManager.Keeps.{
  store_notification-IsCounted, store_notification-SameUsers,
}
use inf.Server.NotificationManager.Stored.{
  contains-offline, length-offline, offline-Distinct, offline-users, store_notification-id,
  store_notification_lem,
}
use inf.Server.Persistence.{get_followers, get_username_from_user_id}
use inf.Server.Persistence.Followers.{followers-Distinct, followers-users, length-followers}
use inf.Server.Persistence.Invariant.{Distinct, IsUser}
use inf.Server.Persistence.Pending.{
  SameUsers, SameUsers-IsWellFormed, SameUsers-exists, SameUsers-refl, waiting,
}
use inf.Shared.Ids.{increment, word_values}
use inf.Shared.Validation.{is_valid_message}

module _ (uninitialised : ServerMsgPayload) (sized : length uninitialised ≡ payload_size)
    (h : ClientMessageHandler) (s : IsSound h) (room : HasRoom h) (now u : ℕ) (small : now < 2 ^ 64)
    (sent : Str) (valid : is_valid_message sent ≡ true) where
  abbrev followers : List ℕ
  followers = get_followers h.user_persistence u

  abbrev offline : List ℕ
  offline = offline_followers h.connection_manager followers

  abbrev author : Str
  author = get_username_from_user_id h.user_persistence u

  -- The pending notification of this message.
  abbrev pending : PendingNotification
  pending = record {
    user_id = u;
    notification_id = increment h.notification_manager.notification_id;
  }

  -- What publishing does: the new state `t` and the actions, after those in `acts`.
  pub record Published (acts : List ServerAction) (t : Handled) : Type 0 where
    pub next : IsNext h t.0
    pub same_users : SameUsers h.user_persistence t.0.user_persistence
    pub same_sessions : SameSessions h.connection_manager t.0.connection_manager
    -- One message for each follower that is online, in the order of the list, and nothing else.
    pub delivered :
        (new : List ServerAction) × (t.1 ≡ acts ++ new)
        × Deliveries author sent now (online_followers h.connection_manager followers) new
    -- One pending notification for each other follower, and for nobody else.
    pub left_waiting :
        (w : ℕ)
        → waiting t.0.user_persistence w ≡ (
            if contains w followers && not (Connections.user_id_exists h.connection_manager w)
            then waiting h.user_persistence w ++ pending ∷ []
            else waiting h.user_persistence w)
    -- The message is stored if somebody waits for it; no stored message is lost.
    pub stored :
        (id : ℕ)
        → stored_content t.0.notification_manager id ≡ (
            if not (null offline) && nat_eq pending.notification_id id
            then some (sent, now)
            else stored_content h.notification_manager id)

  abbrev fan_start : List ServerAction → FanOut
  fan_start acts = record {
    connections = h.connection_manager;
    pending_actions = acts;
    offline_users = [];
  }

  abbrev Fan : List ServerAction → FanOut → Type 0
  Fan acts =
      Fanned uninitialised sized h.user_persistence author sent now
        (username_clean h.user_persistence u s.users).0
        (username_clean h.user_persistence u s.users).1 valid small (fan_start acts) followers

  -- The state after the loop `r`, with the message stored.
  abbrev stored_state : FanOut → ClientMessageHandler
  stored_state r =
      let stored =
        store_notification h.user_persistence h.notification_manager u now sent r.offline_users in
      record {
        user_persistence = stored.0;
        connection_manager = r.connections;
        notification_manager = stored.1;
      }

  offline_facts :
      All (IsUser h.user_persistence) offline × Distinct offline × (length offline < word_values)
  offline_facts = (
    offline-users h.user_persistence h.connection_manager followers
        (followers-users h.user_persistence s.users u),
    offline-Distinct h.connection_manager followers
        (followers-Distinct h.user_persistence s.users u),
    omega (
      arith,
      length-offline h.connection_manager followers,
      length-followers h.user_persistence s.users u,
      s.users.small,
    ),
  )

  store_sound : (acts : List ServerAction) (r : FanOut) → Fan acts r → IsNext h (stored_state r)
  store_sound acts r f = rw (f.left_over) (record {
    sound = record {
      users = SameUsers-IsWellFormed h.user_persistence _ same s.users;
      sessions = f.consistent;
      counts =
          store_notification-IsCounted h.user_persistence h.notification_manager u now sent offline
            s.users offline_facts.0 offline_facts.2 room.notification_room valid small s.counts;
      linked = λ w on.
          SameUsers-exists h.user_persistence _ same w
          ∙ s.linked w (sym (f.same.same_exists w) ∙ on);
    };
    few_users = omega (arith, same.same_last);
    few_notifications =
        store_notification-id h.user_persistence h.notification_manager u now sent offline
          room.notification_room;
  })
    where
      same :
          SameUsers h.user_persistence
            (store_notification h.user_persistence h.notification_manager u now sent offline).0
      same =
          store_notification-SameUsers h.user_persistence h.notification_manager u now sent offline

  Fan-Published :
      (acts : List ServerAction) (r : FanOut)
      → Fan acts r
      → Published acts (stored_state r, r.pending_actions)
  Fan-Published acts r f = record {
    next = store_sound acts r f;
    same_users =
        store_notification-SameUsers h.user_persistence h.notification_manager u now sent
          r.offline_users;
    same_sessions = f.same;
    delivered = f.sent;
    left_waiting = λ w. rw f.left_over (
        (store_notification_lem h.user_persistence h.notification_manager u now sent offline w 0
          offline_facts.0 offline_facts.1).0
        ∙ rw (contains-offline h.connection_manager w followers) refl);
    stored = λ id. rw f.left_over (
        (store_notification_lem h.user_persistence h.notification_manager u now sent offline u id
          offline_facts.0 offline_facts.1).1);
  }

  -- A user without followers publishes to nobody.
  alone_Published : (acts : List ServerAction) → followers ≡ [] → Published acts (h, acts)
  alone_Published acts e = record {
    next = record { sound = s; few_users = omega arith; few_notifications = omega arith };
    same_users = SameUsers-refl h.user_persistence;
    same_sessions = SameSessions-refl h.connection_manager;
    delivered = ([], sym (append-nil acts), unfold online_followers in rw e tt);
    left_waiting = λ w. unfold contains in rw e refl;
    stored = λ id. unfold offline_followers in rw e refl;
  }

  pub publish_lem :
      (acts : List ServerAction)
      → Returns (publish uninitialised h acts now u sent) (Published acts)
  unfolding publish NotificationManager.add_notification
  publish_lem acts = elim (Bool-cases (null followers)) [
    | inl alone ↦ rw alone (alone_Published acts (ground arith))
    | inr some_followers ↦ rw some_followers (
        Returns-bind
          (λ q. Published acts (
            record { user_persistence = q.0; connection_manager = q.1; notification_manager = q.2 },
            q.3,
          ))
          (Published acts)
          (NotificationManager.add_notification uninitialised h.user_persistence
            h.connection_manager h.notification_manager acts u now followers sent)
          _
          (Returns-bind (Fan acts) _
            (fan_out uninitialised h.user_persistence author now sent (fan_start acts) followers) _
            (fan_out_lem uninitialised sized h.user_persistence author sent now
              (username_clean h.user_persistence u s.users).0
              (username_clean h.user_persistence u s.users).1 valid small (fan_start acts) followers
              s.sessions (followers-users h.user_persistence s.users u))
            (λ r f. Fan-Published acts r f))
          (λ q k. k))
  ]
