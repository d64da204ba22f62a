-- ===== src/Server/Connections/Invariant.antt =====
-- The two maps of the connection manager agree, whatever operations have run.
use inf.Base.{
  Option, Option-cases, Returns, arith, eq_str, eq_ℕ, inl, inr, none, ok, some, ℕ, ◌≡◌, ◌≢◌, ◌⊎◌,
}
use inf.Server.Connections.{
  Address, UserConnectionData, UserConnectionManager, add_or_update_user_address, close_session,
  eq_address, get_next_msg_id, new_connection_manager, remove_address,
}
use inf.Shared.Ids.{invalid_user_id}

-- One of the user's sessions is at the address.
abbrev pub Holds : Option UserConnectionData → Address → Type 0
Holds none a = ⊥
Holds (some d) a = (d.session_one ≡ some a) ⊎ (d.session_two ≡ some a)

-- A user that has connection data has a proper id and a session, and no address twice: the two
-- session pointers are neither both null nor at equal addresses.
abbrev pub IsAlive : ℕ → Option UserConnectionData → Type 0
IsAlive u none = Unit {0}
IsAlive u (some d) = (u ≢ invalid_user_id) × (d.user_id ≡ u) × (d.session_one ≢ d.session_two)

pub record IsConsistent (m : UserConnectionManager) : Type 0 where
  -- An address that is known is a session of its user, and the other way round.
  pub held :
      (a : Address) (u : ℕ)
      → m.address_to_user_id a ≡ some u
      → Holds (m.user_id_to_connection_data u) a
  pub known :
      (a : Address) (u : ℕ)
      → Holds (m.user_id_to_connection_data u) a
      → m.address_to_user_id a ≡ some u
  pub alive : (u : ℕ) → IsAlive u (m.user_id_to_connection_data u)

pub new_connection_manager-IsConsistent : IsConsistent new_connection_manager
new_connection_manager-IsConsistent = record {
  held = λ a u h. cc;
  known = λ a u h. absurd h;
  alive = λ u. tt;
}

-- An address may be added for a user if it is unknown, or is that user's already.
abbrev pub IsFreeFor : UserConnectionManager → ℕ → Address → Type 0
IsFreeFor m u a = (m.address_to_user_id a ≡ none) ⊎ (m.address_to_user_id a ≡ some u)

module _ (m : UserConnectionManager) (v : IsConsistent m) (u : ℕ) (a : Address) where
  open v use {held, known, alive}

  add_held :
      IsFreeFor m u a
      → (b : Address) (w : ℕ) → (add_or_update_user_address m u a).address_to_user_id b ≡ some w
      → Holds ((add_or_update_user_address m u a).user_id_to_connection_data w) b
  unfolding add_or_update_user_address
  add_held free b w h =
      ground (arith, held b w, held b u, held a u, known a w, known b w, alive w, alive u)

  add_known :
      IsFreeFor m u a
      → (b : Address) (w : ℕ)
      → Holds ((add_or_update_user_address m u a).user_id_to_connection_data w) b
      → (add_or_update_user_address m u a).address_to_user_id b ≡ some w
  unfolding add_or_update_user_address
  add_known free b w h =
      ground (arith, held b w, held b u, held a u, known a w, known b w, alive w, alive u)

  add-IsAlive :
      u ≢ invalid_user_id
      → (w : ℕ) → IsAlive w ((add_or_update_user_address m u a).user_id_to_connection_data w)
  unfolding add_or_update_user_address
  add-IsAlive proper w = ground (arith, held a u, known a w, alive w, alive u)

  -- Adding an address for a user with a proper id keeps the state consistent, if the address is
  -- unknown or is that user's already.
  pub add_or_update_user_address-IsConsistent :
      u ≢ invalid_user_id → IsFreeFor m u a → IsConsistent (add_or_update_user_address m u a)
  add_or_update_user_address-IsConsistent proper free = record {
    held = add_held free;
    known = add_known free;
    alive = add-IsAlive proper;
  }

module _ (m : UserConnectionManager) (v : IsConsistent m) (u : ℕ) where
  open v use {held, known, alive}

  pub get_next_msg_id-IsConsistent : IsConsistent (get_next_msg_id m u).1
  unfolding get_next_msg_id
  get_next_msg_id-IsConsistent = record {
    held = λ b w h. ground (arith, held b w, known b w, alive w);
    known = λ b w h. ground (arith, held b w, known b w, alive w);
    alive = λ w. ground (arith, alive w);
  }

module _ (m : UserConnectionManager) (v : IsConsistent m) (a : Address) where
  open v use {held, known, alive}

  -- Under the invariant the lookup by `at` finds the user.
  pub remove_address_closes :
      (u : ℕ)
      → m.address_to_user_id a ≡ some u
      → (d : UserConnectionData) × (m.user_id_to_connection_data u ≡ some d)
        × (remove_address m a ≡ ok (close_session m u d a))
  unfolding remove_address
  remove_address_closes u h = ground (arith, held a u)

  close_held :
      (u : ℕ) (d : UserConnectionData)
      → m.address_to_user_id a ≡ some u
      → m.user_id_to_connection_data u ≡ some d
      → (b : Address) (w : ℕ) → (close_session m u d a).address_to_user_id b ≡ some w
      → Holds ((close_session m u d a).user_id_to_connection_data w) b
  unfolding close_session
  close_held u d ha hd b w h = ground (arith, held b w, held a u, known b w, alive w)

  close_known :
      (u : ℕ) (d : UserConnectionData)
      → m.address_to_user_id a ≡ some u
      → m.user_id_to_connection_data u ≡ some d
      → (b : Address) (w : ℕ) → Holds ((close_session m u d a).user_id_to_connection_data w) b
      → (close_session m u d a).address_to_user_id b ≡ some w
  unfolding close_session
  close_known u d ha hd b w h = ground (arith, held b w, held a u, known b w, known a w, alive w)

  close-IsAlive :
      (u : ℕ) (d : UserConnectionData)
      → m.address_to_user_id a ≡ some u
      → m.user_id_to_connection_data u ≡ some d
      → (w : ℕ) → IsAlive w ((close_session m u d a).user_id_to_connection_data w)
  unfolding close_session
  close-IsAlive u d ha hd w = ground (arith, held a u, alive w)

  -- From a consistent state, removing any address does not throw, and leaves a consistent state.
  pub remove_address-IsConsistent : Returns (remove_address m a) IsConsistent
  unfolding remove_address
  remove_address-IsConsistent = elim (Option-cases (m.address_to_user_id a)) [
    | inl unknown ↦ rw (unknown, remove_address) v
    | inr (u, hu) ↦
        let (d, hd, e) = remove_address_closes u hu in
        rw e (record {
          held = close_held u d hu hd;
          known = close_known u d hu hd;
          alive = close-IsAlive u d hu hd;
        })
  ]
