-- ===== src/Server/Handler/OfflineMessage.antt =====
-- The way of a message to a follower that is offline when it is sent.
use inf.Server.Connections
use inf.Base.{
  All, Bool-cases, List, Outcome, Returns, Returns-mono, Str, [], ap, append_assoc, arith, contains,
  eq_str, eq_ℕ, false, inl, inr, length, nat_eq, none, null, ok, refl, some, subst, sym, true, ℕ,
  ◌++◌, ◌<◌, ◌^◌, ◌∙◌, ◌∷◌, ◌≡◌,
}
use inf.Server.Connections.{Address, eq_address}
use inf.Server.Connections.Sessions.{owner}
use inf.Server.Handler.{ClientMessageHandler, Handled, login, message_address, send_message}
use inf.Server.Handler.Delivery.{StoredDeliveries}
use inf.Server.Handler.FirstLogin.{IsWelcomed, StoredDeliveries-last, first_login}
use inf.Server.Handler.Invariant.{HasRoom, IsSound}
use inf.Server.Handler.Send.{IsSent, send_message_lem}
use inf.Server.Message.{ServerAction, ServerMsgPayload, login_success, payload_size}
use inf.Server.Notification.{PendingNotification}
use inf.Server.NotificationManager.Counts.{stored_content}
use inf.Server.NotificationManager.Fan.{IsDelivery, offline_followers}
use inf.Server.NotificationManager.Stored.{contains-offline}
use inf.Server.Persistence.{get_followers, get_username_from_user_id}
use inf.Server.Persistence.Followers.{followers-users}
use inf.Server.Persistence.Invariant.{IsUser}
use inf.Server.Persistence.Pending.{SameUsers-exists, SameUsers-username, waiting}
use inf.Shared.Ids.{increment}
use inf.Shared.Validation.{is_valid_message}

contains-All : (P : ℕ → Type 0) (f : ℕ) (xs : List ℕ) → contains f xs ≡ true → All P xs → P f
unfolding contains
contains-All P f [] e h = absurd (ground arith)
contains-All P f (x ∷ xs) e h = elim (Bool-cases (nat_eq x f)) [
  | inl same ↦ subst P (ground arith) h.0
  | inr other ↦ contains-All P f xs (ground arith) h.1
]

contains-null : (f : ℕ) (xs : List ℕ) → contains f xs ≡ true → null xs ≡ false
unfolding contains
contains-null f [] e = absurd (ground arith)
contains-null f (x ∷ xs) e = refl

module _ (uninitialised : ServerMsgPayload) (sized : length uninitialised ≡ payload_size)
    (h : ClientMessageHandler) (s : IsSound h) (room : HasRoom h) (acts : List ServerAction)
    (now u : ℕ) (small : now < 2 ^ 64) (sent : Str) (valid : is_valid_message sent ≡ true) (f : ℕ)
    (follows : contains f (get_followers h.user_persistence u) ≡ true)
    (offline : Connections.user_id_exists h.connection_manager f ≡ false) (t : Handled)
    (sends : send_message uninitialised h acts now u sent ≡ ok t) where
  pub after_send : IsSent uninitialised sized h s acts now u sent t
  after_send =
      subst (λ (o : Outcome Handled). Returns o (IsSent uninitialised sized h s acts now u sent))
        sends (send_message_lem uninitialised sized h s acts now u sent room small valid)

  abbrev pending : PendingNotification
  pending = record {
    user_id = u;
    notification_id = increment h.notification_manager.notification_id;
  }

  pub follower_known : IsUser h.user_persistence f
  follower_known =
      contains-All (IsUser h.user_persistence) f (get_followers h.user_persistence u) follows
        (followers-users h.user_persistence s.users u)

  waiting_after : waiting t.0.user_persistence f ≡ waiting h.user_persistence f ++ pending ∷ []
  waiting_after = IsSent.left_waiting after_send f ∙ rw follows (rw offline refl)

  stored_after : stored_content t.0.notification_manager pending.notification_id ≡ some (sent, now)
  stored_after =
      let left_over : null
            (offline_followers h.connection_manager (get_followers h.user_persistence u))
          ≡ false =
        contains-null f _ (
          contains-offline h.connection_manager f (get_followers h.user_persistence u)
          ∙ rw follows (rw offline refl)) in
      IsSent.stored after_send pending.notification_id ∙ rw left_over (ground arith)

  -- What the follower's login leads to: its last action delivers the message.
  abbrev pub Received : Handled → Type 0
  Received r =
      (before : List ServerAction) × (d : ServerAction) × (r.1 ≡ before ++ d ∷ [])
      × IsDelivery (get_username_from_user_id h.user_persistence u) sent now f d

  last_delivered :
      (new : List ServerAction)
      → StoredDeliveries t.0.user_persistence
          (stored_content t.0.notification_manager)
          f
          (waiting t.0.user_persistence f)
          new
      → (before : List ServerAction) × (d : ServerAction) × (new ≡ before ++ d ∷ [])
        × IsDelivery (get_username_from_user_id h.user_persistence u) sent now f d
  last_delivered new k =
      let (before, d, e, i) =
        StoredDeliveries-last t.0.user_persistence (stored_content t.0.notification_manager) f
          pending (waiting h.user_persistence f) new (rw waiting_after at k) in
      (
        before,
        d,
        e,
        rw
            (SameUsers-username h.user_persistence t.0.user_persistence
              (IsSent.same_users after_send) u)
            at (rw stored_after at i),
      )

  -- From a sound state with room for one more message, after user `u` has sent a valid text, a
  -- follower that was offline and then logs in under its name, from an address that nobody is
  -- logged in at, receives the message: the login ends well, and its last action is the delivery of
  -- the text under the name of `u`, with the time of sending (a name of 20 bytes is shown with the
  -- text behind it). Uninitialised objects have their sizes.
  pub offline_follower_receives :
      (acts' : List ServerAction) (a : Address)
      → owner t.0.connection_manager a ≡ none
      → Returns
          (login uninitialised t.0 acts' (get_username_from_user_id h.user_persistence f) a)
          Received
  offline_follower_receives acts' a unknown =
      let b = after_send in
      subst (λ (name : Str). Returns (login uninitialised t.0 acts' name a) Received)
        (SameUsers-username h.user_persistence t.0.user_persistence b.same_users f)
        (Returns-mono _ Received _
          (λ r w.
            let (msg_id, new, e, k) = IsWelcomed.delivered w in
            let (before, d, e', i) = last_delivered new k in
            let prefix : List ServerAction = acts' ++ message_address a msg_id login_success ∷ [] in
            (
              prefix ++ before,
              d,
              e ∙ ap (◌++◌ prefix) e' ∙ sym (append_assoc prefix before (d ∷ [])),
              i,
            ))
          (first_login uninitialised sized t.0 b.next.sound acts' f
            (SameUsers-exists h.user_persistence t.0.user_persistence b.same_users f
              ∙ follower_known)
            a (b.same_sessions.same_exists f ∙ offline) unknown))
