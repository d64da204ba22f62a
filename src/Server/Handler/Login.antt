-- ===== src/Server/Handler/Login.antt =====
-- `handle_login`: no crash, and the managers stay sound.
use inf.Server.Connections
use inf.Base.{
  Bool-cases, List, Option, Option-cases, Returns, Returns-mono, Str, [], arith, eq_str, eq_ℕ,
  false, inl, inr, length, none, refl, some, sym, true, ℕ, ◌++◌, ◌∙◌, ◌∷◌, ◌≡◌, ◌≢◌,
}
use inf.Server.Connections.{
  Address, UserConnectionManager, add_or_update_user_address, eq_address, get_next_msg_id,
  get_user_id_from_address,
}
use inf.Server.Connections.Invariant.{
  IsConsistent, IsFreeFor, add_or_update_user_address-IsConsistent,
}
use inf.Server.Handler.{
  ClientMessageHandler, Handled, answer_login, complete_login, login, login_refusal, login_user,
  message_address,
}
use inf.Server.Handler.Delivery.{Delivered, deliver_lem}
use inf.Server.Handler.Invariant.{HasRoom, IsNext, IsSound, take_msg_id-IsSound}
use inf.Server.Handler.LoginUsers.{
  add_last, exists-add, keeps_IsUser, references-add_or_update_user,
}
use inf.Server.Message.{ServerAction, ServerMsgPayload, ServerMsgType, login_success, payload_size}
use inf.Server.Notification.{PendingNotification}
use inf.Server.NotificationManager.Counts.{IsUser-le}
use inf.Server.NotificationManager.Keeps.{IsCounted-same, drain-IsCounted}
use inf.Server.Persistence.{UserPersistence, add_or_update_user, drain_pending_notifications}
use inf.Server.Persistence.Invariant.{IsUser, add_or_update_user-IsWellFormed}
use inf.Server.Persistence.Pending.{
  SameUsers, SameUsers-IsWellFormed, SameUsers-exists, drain_pending_notifications-SameUsers,
}
use inf.Server.Persistence.Users.{add_or_update_user_lem}
use inf.Shared.Ids.{invalid_user_id}
use inf.Shared.Validation.{is_valid_username}

-- The state after a login that went through: it has numbered nothing new.
pub record Completed (h t : ClientMessageHandler) : Type 0 where
  pub sound : IsSound t
  same_last : t.user_persistence.last_user_id ≡ h.user_persistence.last_user_id
  same_id : t.notification_manager.notification_id ≡ h.notification_manager.notification_id

-- A login that is not refused may add its address.
pub login_refusal_free :
    (c : UserConnectionManager) (u : ℕ) (a : Address)
    → IsConsistent c
    → login_refusal c u a ≡ none
    → IsFreeFor c u a
unfolding login_refusal get_user_id_from_address
login_refusal_free c u a v h = elim (Option-cases (c.address_to_user_id a)) [
  | inl e ↦ inl e
  | inr (w, e) ↦ inr (ground (arith, v.held a w e, v.alive w))
]

module _ (uninitialised : ServerMsgPayload) (sized : length uninitialised ≡ payload_size)
    (h : ClientMessageHandler) (s : IsSound h) where
  -- The managers after the address is added and the reply's id is taken.
  abbrev pub greeted : ℕ → Address → ClientMessageHandler
  greeted u a = record h {
    connection_manager =
        (get_next_msg_id (add_or_update_user_address h.connection_manager u a) u).1;
  }

  greeted-IsSound :
      (u : ℕ) (a : Address)
      → IsUser h.user_persistence u
      → u ≢ invalid_user_id
      → IsFreeFor h.connection_manager u a
      → IsSound (greeted u a)
  greeted-IsSound u a user proper free = take_msg_id-IsSound added added_sound u
    where
      added : ClientMessageHandler
      added = record h { connection_manager = add_or_update_user_address h.connection_manager u a }

      added_sound : IsSound added
      added_sound = record {
        users = s.users;
        sessions =
            add_or_update_user_address-IsConsistent h.connection_manager s.sessions u a proper free;
        counts = s.counts;
        linked = λ w on. elim (exists-add h.connection_manager u w a on) [
          | inl before ↦ s.linked w before
          | inr same ↦ rw same user
        ];
      }

  module _ (acts : List ServerAction) (u : ℕ) (a : Address) (user : IsUser h.user_persistence u)
      (proper : u ≢ invalid_user_id) (free : IsFreeFor h.connection_manager u a) where
    abbrev pub drained : List PendingNotification × UserPersistence
    drained = drain_pending_notifications h.user_persistence u

    -- The state in which the loop over the waiting messages starts.
    abbrev pub before_loop : Handled
    before_loop = (
      record h {
        connection_manager = (greeted u a).connection_manager;
        user_persistence = drained.1;
      },
      acts
          ++ message_address a
              (get_next_msg_id (add_or_update_user_address h.connection_manager u a) u).0
              login_success
            ∷ [],
    )

    after_loop :
        (t : Handled) → Delivered uninitialised sized u before_loop drained.0 t → Completed h t.0
    after_loop t d = record {
      sound = record {
        users = rw d.users (SameUsers-IsWellFormed h.user_persistence drained.1 same s.users);
        sessions = d.consistent;
        counts = rw d.users d.counted;
        linked = λ w on. rw d.users (
            SameUsers-exists h.user_persistence drained.1 same w
            ∙ (greeted-IsSound u a user proper free).linked w (sym (d.same.same_exists w) ∙ on));
      };
      same_last = rw d.users same.same_last;
      same_id = d.same_id;
    }
      where
        same : SameUsers h.user_persistence drained.1
        same = drain_pending_notifications-SameUsers h.user_persistence u

    -- The first login of a user runs through all that waits for it.
    pub complete_login_delivers :
        Connections.user_id_exists h.connection_manager u ≡ false
        → Returns
            (complete_login uninitialised h acts u a)
            (Delivered uninitialised sized u before_loop drained.0)
    unfolding complete_login
    complete_login_delivers new = rw new (
        deliver_lem uninitialised sized u before_loop drained.0
          (SameUsers-IsWellFormed h.user_persistence drained.1
            (drain_pending_notifications-SameUsers h.user_persistence u) s.users)
          (greeted-IsSound u a user proper free).sessions
          (drain-IsCounted h.user_persistence h.notification_manager u
            (IsUser-le h.user_persistence u s.users user) s.counts))

    -- A login that goes through keeps the state sound, whether or not messages were waiting.
    pub complete_login_lem : Returns (complete_login uninitialised h acts u a) λ t. Completed h t.0
    unfolding complete_login
    complete_login_lem = elim (Bool-cases (Connections.user_id_exists h.connection_manager u)) [
      | inl had ↦ rw had (record {
        sound = greeted-IsSound u a user proper free;
        same_last = refl;
        same_id = refl;
      })
      | inr new ↦
          Returns-mono (Delivered uninitialised sized u before_loop drained.0)
            (λ t. Completed h t.0) (complete_login uninitialised h acts u a) after_loop
            (complete_login_delivers new)
    ]

module _ (uninitialised : ServerMsgPayload) (sized : length uninitialised ≡ payload_size)
    (h : ClientMessageHandler) (s : IsSound h) (room : HasRoom h) where
  -- The managers after the user of the name is looked up or added.
  abbrev known : Str → ClientMessageHandler
  known username = record h {
    user_persistence = (add_or_update_user h.user_persistence username).1;
  }

  pub known-IsSound :
      (username : Str) → is_valid_username username ≡ true → IsSound (known username)
  known-IsSound username valid = record {
    users =
        add_or_update_user-IsWellFormed h.user_persistence s.users username valid room.user_room;
    sessions = s.sessions;
    counts =
        IsCounted-same h.user_persistence (known username).user_persistence h.notification_manager
          []
          (λ id.
            references-add_or_update_user h.user_persistence username id s.users room.user_room)
          s.counts;
    linked = λ w on. keeps_IsUser h.user_persistence username w (s.linked w on);
  }

  refuse_lem : (username : Str) → is_valid_username username ≡ true → IsNext h (known username)
  refuse_lem username valid = record {
    sound = known-IsSound username valid;
    few_users = omega (arith, add_last h.user_persistence username room.user_room);
    few_notifications = omega arith;
  }

  Completed-IsNext :
      (username : Str) (t : ClientMessageHandler) → Completed (known username) t → IsNext h t
  Completed-IsNext username t c = record {
    sound = c.sound;
    few_users = omega (arith, c.same_last, add_last h.user_persistence username room.user_room);
    few_notifications = omega (arith, c.same_id);
  }

  module _ (acts : List ServerAction) (username : Str) (a : Address)
      (valid : is_valid_username username ≡ true) where
    abbrev id : ℕ
    id = (add_or_update_user h.user_persistence username).0

    id_proper : (id ≢ invalid_user_id) × IsUser (known username).user_persistence id
    id_proper =
        let f = add_or_update_user_lem h.user_persistence s.users username [] 0 room.user_room in
        (f.0, f.3)

    answer_login_lem :
        (refusal : Option ServerMsgType)
        → login_refusal h.connection_manager id a ≡ refusal
        → Returns (answer_login uninitialised (known username) acts id a refusal) λ t. IsNext h t.0
    unfolding answer_login
    answer_login_lem (some response_type) e = refuse_lem username valid
    answer_login_lem none e =
        Returns-mono (λ t. Completed (known username) t.0) (λ t. IsNext h t.0)
          (complete_login uninitialised (known username) acts id a)
          (λ t c. Completed-IsNext username t.0 c)
          (complete_login_lem uninitialised sized (known username) (known-IsSound username valid)
            acts id a id_proper.1 id_proper.0
            (login_refusal_free h.connection_manager id a s.sessions e))

    login_user_lem : Returns (login_user uninitialised h acts username a) λ t. IsNext h t.0
    unfolding login_user
    login_user_lem = answer_login_lem (login_refusal h.connection_manager id a) refl

  -- From a sound state that can number one more user and one more message, a login with whatever
  -- name from whatever address ends well, and leaves a sound state that has numbered one user and
  -- one message more at most. Uninitialised objects have their sizes.
  pub login_lem :
      (acts : List ServerAction) (username : Str) (a : Address)
      → Returns (login uninitialised h acts username a) λ t. IsNext h t.0
  unfolding login
  login_lem acts username a = elim (Bool-cases (is_valid_username username)) [
    | inl valid ↦ rw valid (login_user_lem acts username a valid)
    | inr invalid ↦
        rw invalid (record { sound = s; few_users = omega arith; few_notifications = omega arith })
  ]
