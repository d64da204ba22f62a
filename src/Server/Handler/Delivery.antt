-- ===== src/Server/Handler/Delivery.antt =====
-- The loop at the end of `handle_login`: the stored messages that waited for the user.
use inf.Base.{
  List, Option, Option-cases, Returns, Returns-bind, Returns-mono, Str, [], ap, append-nil,
  append_assoc, arith, eq_str, eq_ℕ, inl, inr, length, none, refl, some, subst, sym, true, ℕ, ◌++◌,
  ◌∙◌, ◌∷◌, ◌≡◌, ◌≤◌, ◌⊎◌,
}
use inf.Server.Connections.{eq_address}
use inf.Server.Connections.Invariant.{IsConsistent, get_next_msg_id-IsConsistent}
use inf.Server.Handler.{Handled, deliver, deliver_one}
use inf.Server.Message.{ServerAction, ServerMsgPayload, message_payload, payload_size}
use inf.Server.Message.Payload.{message-NoNul, message_payload_lem, username-NoNul}
use inf.Server.Notification.{PendingNotification}
use inf.Server.NotificationManager.{
  NotificationManager, decrement_pending_users_from, get_notification, notification_exists,
}
use inf.Server.NotificationManager.Counts.{IsCounted, stored_content}
use inf.Server.NotificationManager.Fan.{
  IsDelivery, SameSessions, SameSessions-refl, SameSessions-trans, get_next_msg_id-SameSessions,
}
use inf.Server.NotificationManager.Keeps.{counted_exists, decrement-IsCounted}
use inf.Server.Persistence.{UserPersistence, get_username_from_user_id}
use inf.Server.Persistence.Invariant.{IsWellFormed}
use inf.Shared.Memory.{NoNul}
use inf.Shared.Validation.{is_valid_message_iff, is_valid_username, is_valid_username_iff}

abbrev pub IsDeliveryOf : Option (Str × ℕ) → Str → ℕ → ServerAction → Type 0
IsDeliveryOf none author u a = ⊥
IsDeliveryOf (some (body, timestamp)) author u a = IsDelivery author body timestamp u a

-- One action for each pending notification, in order, with the stored text under its author.
abbrev pub StoredDeliveries :
    UserPersistence
    → (ℕ → Option (Str × ℕ))
    → ℕ
    → List PendingNotification
    → List ServerAction
    → Type 0
StoredDeliveries p text u [] [] = Unit {0}
StoredDeliveries p text u [] (a ∷ acts) = ⊥
StoredDeliveries p text u (x ∷ xs) [] = ⊥
StoredDeliveries p text u (x ∷ xs) (a ∷ acts) =
    IsDeliveryOf (text x.notification_id) (get_username_from_user_id p x.user_id) u a
    × StoredDeliveries p text u xs acts

-- A table that has lost entries, and otherwise has the texts that it had.
abbrev pub Shrinks : (ℕ → Option (Str × ℕ)) → (ℕ → Option (Str × ℕ)) → Type 0
Shrinks old new = (id : ℕ) → (new id ≡ none) ⊎ (new id ≡ old id)

IsDeliveryOf-Shrinks :
    (o n : Option (Str × ℕ)) (author : Str) (u : ℕ) (a : ServerAction)
    → (n ≡ none) ⊎ (n ≡ o)
    → IsDeliveryOf n author u a
    → IsDeliveryOf o author u a
IsDeliveryOf-Shrinks o n author u a (inl e) h = absurd (rw e at h)
IsDeliveryOf-Shrinks o n author u a (inr e) h = rw e at h

StoredDeliveries-Shrinks :
    (p : UserPersistence) (old new : ℕ → Option (Str × ℕ)) (u : ℕ) (xs : List PendingNotification)
    (acts : List ServerAction)
    → Shrinks old new
    → StoredDeliveries p new u xs acts
    → StoredDeliveries p old u xs acts
StoredDeliveries-Shrinks p old new u [] [] s h = tt
StoredDeliveries-Shrinks p old new u [] (a ∷ acts) s h = absurd h
StoredDeliveries-Shrinks p old new u (x ∷ xs) [] s h = absurd h
StoredDeliveries-Shrinks p old new u (x ∷ xs) (a ∷ acts) s h = (
  IsDeliveryOf-Shrinks (old x.notification_id) (new x.notification_id)
      (get_username_from_user_id p x.user_id) u a (s x.notification_id) h.0,
  StoredDeliveries-Shrinks p old new u xs acts s h.1,
)

decrement-Shrinks :
    (n : NotificationManager) (i : ℕ)
    → Shrinks (stored_content n) (stored_content (decrement_pending_users_from n i))
unfolding decrement_pending_users_from notification_exists
decrement-Shrinks n i id = elim (Option-cases (n.notification_id_to_notification i)) [
  | inl e ↦ inr (ground arith)
  | inr (x, e) ↦ ground arith
]

same_id-decrement :
    (n : NotificationManager) (i : ℕ)
    → (decrement_pending_users_from n i).notification_id ≡ n.notification_id
unfolding decrement_pending_users_from notification_exists
same_id-decrement n i = ground arith

-- Usernames fit a payload's array, and have no NUL.
pub username_clean :
    (p : UserPersistence) (u : ℕ)
    → IsWellFormed p
    → NoNul (get_username_from_user_id p u) × (length (get_username_from_user_id p u) ≤ 20)
unfolding get_username_from_user_id
username_clean p u v = elim (Option-cases (p.id_to_user u)) [
  | inl e ↦ rw (e, get_username_from_user_id) (tt, omega arith)
  | inr (d, e) ↦
      let valid : is_valid_username d.persistent_data.username ≡ true =
        ground (arith, v.data_ok u) in
      rw (e, get_username_from_user_id)
        (
          username-NoNul d.persistent_data.username valid,
          ((is_valid_username_iff d.persistent_data.username).0 valid).1,
        )
]

module _ (uninitialised : ServerMsgPayload) (sized : length uninitialised ≡ payload_size)
    (u : ℕ) where
  -- From `s` the loop over the pending notifications `xs` ends in `t`.
  pub record Delivered (s : Handled) (xs : List PendingNotification) (t : Handled) : Type 0 where
    pub users : t.0.user_persistence ≡ s.0.user_persistence
    pub consistent : IsConsistent t.0.connection_manager
    pub same : SameSessions s.0.connection_manager t.0.connection_manager
    pub counted : IsCounted s.0.user_persistence t.0.notification_manager []
    pub same_id :
        t.0.notification_manager.notification_id ≡ s.0.notification_manager.notification_id
    pub sent :
        (acts : List ServerAction) × (t.1 ≡ s.1 ++ acts)
        × StoredDeliveries s.0.user_persistence (stored_content s.0.notification_manager) u xs acts

  -- One round, for `x` with `xs` still to come.
  record DeliveredOne (s : Handled) (x : PendingNotification) (xs : List PendingNotification)
      (t : Handled) : Type 0 where
    users : t.0.user_persistence ≡ s.0.user_persistence
    consistent : IsConsistent t.0.connection_manager
    same : SameSessions s.0.connection_manager t.0.connection_manager
    counted : IsCounted s.0.user_persistence t.0.notification_manager xs
    same_id : t.0.notification_manager.notification_id ≡ s.0.notification_manager.notification_id
    shrinks :
        Shrinks (stored_content s.0.notification_manager) (stored_content t.0.notification_manager)
    sent :
        (a : ServerAction) × (t.1 ≡ s.1 ++ a ∷ [])
        × IsDeliveryOf
            (stored_content s.0.notification_manager x.notification_id)
            (get_username_from_user_id s.0.user_persistence x.user_id)
            u
            a

  Delivered-trans :
      (s t r : Handled) (x : PendingNotification) (xs : List PendingNotification)
      → DeliveredOne s x xs t
      → Delivered t xs r
      → Delivered s (x ∷ xs) r
  Delivered-trans s t r x xs one more =
      let (a, ea, ha) = one.sent in
      let (acts, e, h) = more.sent in
      record {
        users = more.users ∙ one.users;
        consistent = more.consistent;
        same =
            SameSessions-trans s.0.connection_manager t.0.connection_manager r.0.connection_manager
              one.same more.same;
        counted =
            subst (λ (p : UserPersistence). IsCounted p r.0.notification_manager []) one.users
              more.counted;
        same_id = more.same_id ∙ one.same_id;
        sent = (
          a ∷ acts,
          e ∙ ap (λ (l : List ServerAction). l ++ acts) ea ∙ append_assoc s.1 (a ∷ []) acts,
          (
            ha,
            StoredDeliveries-Shrinks s.0.user_persistence (stored_content s.0.notification_manager)
                (stored_content t.0.notification_manager) u xs acts one.shrinks
                (subst
                  (λ (p : UserPersistence).
                    StoredDeliveries p (stored_content t.0.notification_manager) u xs acts)
                  one.users h),
          ),
        );
      }

  deliver_one_lem :
      (s : Handled) (x : PendingNotification) (xs : List PendingNotification)
      → IsWellFormed s.0.user_persistence
      → IsConsistent s.0.connection_manager
      → IsCounted s.0.user_persistence s.0.notification_manager (x ∷ xs)
      → Returns (deliver_one uninitialised u s x) (DeliveredOne s x xs)
  unfolding deliver_one
  deliver_one_lem s x xs w v c =
      let p = s.0.user_persistence in
      let n = s.0.notification_manager in
      let (stored, found, valid, small) = counted_exists p n x xs c in
      let author = get_username_from_user_id p x.user_id in
      let clean = username_clean p x.user_id w in
      rw (found, deliver_one)
        (Returns-bind _ (DeliveredOne s x xs)
          (message_payload uninitialised author stored.message stored.timestamp) _
          (message_payload_lem uninitialised sized author stored.message stored.timestamp clean.0
            (message-NoNul stored.message valid) clean.1
            (((is_valid_message_iff stored.message).0 valid).1) small)
          λ payload h. record {
            users = refl;
            consistent = get_next_msg_id-IsConsistent s.0.connection_manager v u;
            same = get_next_msg_id-SameSessions s.0.connection_manager u;
            counted = decrement-IsCounted p n x xs c;
            same_id = same_id-decrement n x.notification_id;
            shrinks = decrement-Shrinks n x.notification_id;
            sent = (_, refl, unfold get_notification in rw found (refl, refl, h.0, h.1, h.2));
          })

  -- If the state is well-formed and consistent and the counts of pending users include the
  -- references to serve, the loop ends well: every one of them finds its message and is sent, in
  -- order, with the stored text under its author's name (a name of 20 bytes is shown with the text
  -- behind it); the counts are right without them, and users and sessions stay as they were.
  -- Uninitialised objects have their sizes.
  pub deliver_lem :
      (s : Handled) (xs : List PendingNotification)
      → IsWellFormed s.0.user_persistence
      → IsConsistent s.0.connection_manager
      → IsCounted s.0.user_persistence s.0.notification_manager xs
      → Returns (deliver uninitialised u s xs) (Delivered s xs)
  unfolding deliver
  deliver_lem s [] w v c = record {
    users = refl;
    consistent = v;
    same = SameSessions-refl s.0.connection_manager;
    counted = c;
    same_id = refl;
    sent = ([], sym (append-nil s.1), tt);
  }
  deliver_lem s (x ∷ xs) w v c =
      Returns-bind (DeliveredOne s x xs) (Delivered s (x ∷ xs)) (deliver_one uninitialised u s x)
        (λ t. deliver uninitialised u t xs) (deliver_one_lem s x xs w v c)
        λ t one.
          Returns-mono (Delivered t xs) (Delivered s (x ∷ xs)) (deliver uninitialised u t xs)
            (λ r more. Delivered-trans s t r x xs one more)
            (deliver_lem t xs (rw one.users w) one.consistent (rw one.users one.counted))
