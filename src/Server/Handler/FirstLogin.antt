-- ===== src/Server/Handler/FirstLogin.antt =====
-- A user's first login, and with it the way of a message to a follower that was offline.
use inf.Server.Connections
use inf.Server.Persistence
use inf.Base.{
  List, Option, Option-cases, Returns, Returns-mono, Str, [], ap, arith, eq_str, eq_ℕ, false,
  if◌then◌else◌, inl, inr, length, nat_eq, none, refl, subst, true, ℕ, ◌++◌, ◌∷◌, ◌≡◌, ◌≢◌,
}
use inf.Server.Connections.{Address, eq_address, get_user_id_from_address}
use inf.Server.Connections.Sessions.{owner}
use inf.Server.Handler.{
  ClientMessageHandler, Handled, answer_login, complete_login, login, login_refusal, login_user,
  message_address,
}
use inf.Server.Handler.Delivery.{Delivered, IsDeliveryOf, StoredDeliveries}
use inf.Server.Handler.Invariant.{IsSound}
use inf.Server.Handler.Login.{before_loop, complete_login_delivers}
use inf.Server.Message.{ServerAction, ServerMsgPayload, login_success, payload_size}
use inf.Server.Notification.{PendingNotification}
use inf.Server.NotificationManager.Counts.{stored_content}
use inf.Server.Persistence.{
  UserPersistence, add_or_update_user, drain_pending_notifications, get_username_from_user_id,
}
use inf.Server.Persistence.Invariant.{IsUser, IsWellFormed}
use inf.Server.Persistence.Pending.{
  SameUsers-username, drain_lem, drain_pending_notifications-SameUsers, waiting,
}
use inf.Shared.Ids.{invalid_user_id}
use inf.Shared.Validation.{is_valid_username}

StoredDeliveries-names :
    (p q : UserPersistence) (text : ℕ → Option (Str × ℕ)) (u : ℕ) (xs : List PendingNotification)
    (acts : List ServerAction)
    → ((w : ℕ) → get_username_from_user_id q w ≡ get_username_from_user_id p w)
    → StoredDeliveries q text u xs acts
    → StoredDeliveries p text u xs acts
StoredDeliveries-names p q text u [] [] e h = tt
StoredDeliveries-names p q text u [] (a ∷ acts) e h = absurd h
StoredDeliveries-names p q text u (x ∷ xs) [] e h = absurd h
StoredDeliveries-names p q text u (x ∷ xs) (a ∷ acts) e h = (
  subst (λ (n : Str). IsDeliveryOf (text x.notification_id) n u a) (e x.user_id) h.0,
  StoredDeliveries-names p q text u xs acts e h.1,
)

-- The action for the last of the pending notifications is the last.
pub StoredDeliveries-last :
    (p : UserPersistence) (text : ℕ → Option (Str × ℕ)) (u : ℕ) (x : PendingNotification)
    (xs : List PendingNotification) (acts : List ServerAction)
    → StoredDeliveries p text u (xs ++ x ∷ []) acts
    → (before : List ServerAction) × (a : ServerAction) × (acts ≡ before ++ a ∷ [])
      × IsDeliveryOf (text x.notification_id) (get_username_from_user_id p x.user_id) u a
StoredDeliveries-last p text u x [] [] h = absurd h
StoredDeliveries-last p text u x [] (a ∷ []) h = ([], a, refl, h.0)
StoredDeliveries-last p text u x [] (a ∷ b ∷ acts) h = absurd h.1
StoredDeliveries-last p text u x (y ∷ xs) [] h = absurd h
StoredDeliveries-last p text u x (y ∷ xs) (b ∷ acts) h =
    let (before, a, e, d) = StoredDeliveries-last p text u x xs acts h.1 in
    (b ∷ before, a, ap (◌∷◌ b) e, d)

-- A user's own name is valid, and its login finds the user.
pub known_user :
    (p : UserPersistence) (f : ℕ)
    → IsWellFormed p
    → IsUser p f
    → (is_valid_username (get_username_from_user_id p f) ≡ true)
      × (f ≢ invalid_user_id)
      × (add_or_update_user p (get_username_from_user_id p f) ≡ (f, p))
unfolding get_username_from_user_id add_or_update_user Persistence.user_id_exists
known_user p f v h = elim (Option-cases (p.id_to_user f)) [
  | inl e ↦ absurd (ground arith)
  | inr (d, e) ↦
      (ground (arith, v.data_ok f), ground (arith, v.data_ok f), ground (arith, v.data_ok f))
]

module _ (uninitialised : ServerMsgPayload) (sized : length uninitialised ≡ payload_size)
    (h : ClientMessageHandler) (s : IsSound h) (acts : List ServerAction) (f : ℕ)
    (user : IsUser h.user_persistence f) (a : Address)
    (offline : Connections.user_id_exists h.connection_manager f ≡ false)
    (unknown : owner h.connection_manager a ≡ none) where
  abbrev username : Str
  username = get_username_from_user_id h.user_persistence f

  pub not_refused : login_refusal h.connection_manager f a ≡ none
  unfolding login_refusal get_user_id_from_address
  not_refused = ground arith

  pub login_completes :
      login uninitialised h acts username a ≡ complete_login uninitialised h acts f a
  unfolding login
  login_completes =
      let (valid, proper, found) = known_user h.user_persistence f s.users user in
      rw valid (unfold login_user answer_login in rw found (rw not_refused refl))

  -- What the first login of a user leads to.
  pub record IsWelcomed (t : Handled) : Type 0 where
    -- The reply, then a message for each pending notification, in order.
    pub delivered :
        (msg_id : ℕ) × (new : List ServerAction) × (t.1
          ≡ (acts ++ message_address a msg_id login_success ∷ []) ++ new)
        × StoredDeliveries h.user_persistence
            (stored_content h.notification_manager)
            f
            (waiting h.user_persistence f)
            new
    -- Nothing waits for the user any more; the lists of others are as they were.
    pub drained_lists :
        (w : ℕ)
        → waiting t.0.user_persistence w ≡ (if nat_eq f w then [] else waiting h.user_persistence w)

  -- From a sound state, a user that is offline and logs in under its name at an address that nobody
  -- is logged in at gets the reply, and then one message for each of the notifications that waited
  -- for it, in order, with the stored text under its author's name (a name of 20 bytes is shown
  -- with the text behind it). Its list is empty afterwards, and those of others are as they were.
  -- Uninitialised objects have their sizes.
  pub first_login : Returns (login uninitialised h acts username a) IsWelcomed
  first_login =
      let p = h.user_persistence in
      let (valid, proper, found) = known_user p f s.users user in
      rw login_completes (
        Returns-mono
          (Delivered uninitialised sized f
            (before_loop uninitialised sized h s acts f a user proper (inl unknown))
            (drain_pending_notifications p f).0)
          IsWelcomed (complete_login uninitialised h acts f a)
          (λ t d.
            let (new, e, k) = d.sent in
            record {
              delivered = (
                _,
                new,
                e,
                StoredDeliveries-names p (drain_pending_notifications p f).1
                    (stored_content h.notification_manager) f (waiting p f) new
                    (SameUsers-username p (drain_pending_notifications p f).1
                      (drain_pending_notifications-SameUsers p f))
                    (subst
                      (λ (l : List PendingNotification).
                        StoredDeliveries (drain_pending_notifications p f).1
                          (stored_content h.notification_manager) f l new)
                      (drain_lem p f f).0 k),
              );
              drained_lists = λ w. rw d.users ((drain_lem p f w).1);
            })
          (complete_login_delivers uninitialised sized h s acts f a user proper (inl unknown)
            offline))
