-- ===== src/Server/Handler/Invariant.antt =====
-- What holds of the three managers between two datagrams.
use inf.Server.Connections
use inf.Base.{
  Option-cases, [], arith, eq_str, eq_ℕ, inl, inr, refl, sym, total, true, ℕ, ◌+◌, ◌<◌, ◌∙◌, ◌≡◌,
  ◌≢◌, ◌≤◌,
}
use inf.Server.Connections.{
  Address, eq_address, get_next_msg_id, get_user_id_from_address, new_connection_manager,
}
use inf.Server.Connections.Invariant.{
  IsConsistent, get_next_msg_id-IsConsistent, new_connection_manager-IsConsistent,
}
use inf.Server.Handler.{ClientMessageHandler}
use inf.Server.NotificationManager.{new_notification_manager}
use inf.Server.NotificationManager.Counts.{IsCounted, references}
use inf.Server.NotificationManager.Fan.{SameSessions, get_next_msg_id-SameSessions}
use inf.Server.Persistence.{DiskQueue, UserPersistence, new_user_persistence}
use inf.Server.Persistence.Invariant.{IsUser, IsWellFormed, empty-IsWellFormed}
use inf.Server.Persistence.Pending.{waiting}
use inf.Shared.Ids.{int_limit, invalid_user_id, word_values}

pub record IsSound (h : ClientMessageHandler) : Type 0 where
  pub users : IsWellFormed h.user_persistence
  pub sessions : IsConsistent h.connection_manager
  pub counts : IsCounted h.user_persistence h.notification_manager []
  -- Who is logged in is a user.
  pub linked :
      (u : ℕ)
      → Connections.user_id_exists h.connection_manager u ≡ true
      → IsUser h.user_persistence u

-- One more user and one more stored message can be numbered.
pub record HasRoom (h : ClientMessageHandler) : Type 0 where
  pub user_room : h.user_persistence.last_user_id + 1 < int_limit
  pub notification_room : h.notification_manager.notification_id + 1 < word_values

-- The state after a datagram is sound, and has numbered one user and one message more at most.
pub record IsNext (h t : ClientMessageHandler) : Type 0 where
  pub sound : IsSound t
  pub few_users : t.user_persistence.last_user_id ≤ h.user_persistence.last_user_id + 1
  pub few_notifications :
      t.notification_manager.notification_id ≤ h.notification_manager.notification_id + 1

-- The server's state when it starts with these users.
abbrev pub start : UserPersistence → ClientMessageHandler
start p = record {
  user_persistence = p;
  connection_manager = new_connection_manager;
  notification_manager = new_notification_manager;
}

empty_waiting : (q : DiskQueue) (u : ℕ) → waiting (new_user_persistence [] q) u ≡ []
unfolding new_user_persistence
empty_waiting q u = refl

no_references : (q : DiskQueue) (id : ℕ) → references (new_user_persistence [] q) id ≡ 0
unfolding references new_user_persistence total
no_references q id = refl

pub start-IsSound : (q : DiskQueue) → IsSound (start (new_user_persistence [] q))
start-IsSound q = record {
  users = empty-IsWellFormed q;
  sessions = new_connection_manager-IsConsistent;
  counts = record {
    counted = λ id. omega (arith, no_references q id);
    bounded = λ id h. refl;
    id_small = omega arith;
  };
  linked = λ u h. unfold Connections.user_id_exists in cc;
}

module _ (h : ClientMessageHandler) (s : IsSound h) where
  -- The id that an address is logged in under is no user's, or the user is logged in there.
  pub get_user_id_from_address-linked :
      (a : Address)
      → get_user_id_from_address h.connection_manager a ≢ invalid_user_id
      → Connections.user_id_exists h.connection_manager
          (get_user_id_from_address h.connection_manager a)
        ≡ true
  unfolding get_user_id_from_address Connections.user_id_exists
  get_user_id_from_address-linked a proper =
      elim (Option-cases (h.connection_manager.address_to_user_id a)) [
        | inl e ↦ ground arith
        | inr (u, e) ↦ ground (arith, s.sessions.held a u)
      ]

  -- Taking a message id keeps the state sound.
  pub take_msg_id-IsSound :
      (u : ℕ)
      → IsSound (record h { connection_manager = (get_next_msg_id h.connection_manager u).1 })
  take_msg_id-IsSound u = record {
    users = s.users;
    sessions = get_next_msg_id-IsConsistent h.connection_manager s.sessions u;
    counts = s.counts;
    linked = λ w on. s.linked w (
        sym (SameSessions.same_exists (get_next_msg_id-SameSessions h.connection_manager u) w)
        ∙ on);
  }
