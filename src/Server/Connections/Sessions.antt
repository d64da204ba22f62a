-- ===== src/Server/Connections/Sessions.antt =====
-- What the connection manager promises its callers, in terms of one abstract map: the owner of
-- each address. A user's sessions are the addresses that it owns.
use inf.Base.{
  Map, Option-cases, Returns, arith, eq_str, eq_ℕ, if◌then◌else◌, inl, inr, nat_eq, none, not, some,
  true, ℕ, ◌&&◌, ◌==◌, ◌||◌, ◌≡◌,
}
use inf.Server.Connections.{
  Address, UserConnectionManager, add_or_update_user_address, address_eq_iff, close_session,
  eq_address, get_next_msg_id, remove_address, session_available, user_id_exists,
}
use inf.Server.Connections.Invariant.{IsConsistent, IsFreeFor, remove_address_closes}
use inf.Shared.Ids.{increment}

-- The abstract view: who is logged in at an address.
abbrev pub owner : UserConnectionManager → Map Address ℕ
owner m = m.address_to_user_id

module _ (m : UserConnectionManager) (v : IsConsistent m) where
  open v use {held, known, alive}

  -- A user exists for the manager exactly when it has a session.
  pub exists_session : (u : ℕ) → user_id_exists m u ≡ true → (a : Address) × (owner m a ≡ some u)
  unfolding user_id_exists
  exists_session u h = elim (Option-cases (m.user_id_to_connection_data u)) [
    | inl e ↦ ground arith
    | inr (d, e) ↦ elim (Option-cases d.session_one) [
      | inl e1 ↦ elim (Option-cases d.session_two) [
        | inl e2 ↦ ground (arith, alive u)
        | inr (a, e2) ↦ (a, ground (arith, known a u))
      ]
      | inr (a, e1) ↦ (a, ground (arith, known a u))
    ]
  ]

  pub session_exists : (u : ℕ) (a : Address) → owner m a ≡ some u → user_id_exists m u ≡ true
  unfolding user_id_exists
  session_exists u a h = ground (arith, held a u)

  -- In a consistent state, adding an address that is free or the user's own gives it to the user if
  -- the user is not logged in or has a session to spare; otherwise it stays with whom it was, as
  -- every other address does.
  pub owner-add :
      (u : ℕ) (a b : Address)
      → IsFreeFor m u a
      → owner (add_or_update_user_address m u a) b ≡ (
          if a == b && (not (user_id_exists m u) || session_available m u)
          then some u
          else owner m b)
  unfolding add_or_update_user_address user_id_exists session_available
  owner-add u a b free =
      ground (arith, held a u, held b u, known a u, known b u, alive u, address_eq_iff a b)

  -- The user id lookup after a removal: the address is unknown, and every other as before.
  pub owner-remove :
      (a : Address)
      → Returns
          (remove_address m a)
          λ n. (b : Address) → owner n b ≡ (if a == b then none else owner m b)
  unfolding remove_address
  owner-remove a = elim (Option-cases (m.address_to_user_id a)) [
    | inl unknown ↦ rw (unknown, remove_address) (λ b. ground (arith, address_eq_iff a b))
    | inr (u, hu) ↦
        let (d, hd, e) = remove_address_closes m v a u hu in
        rw e (λ b. unfold close_session in ground (arith, held a u))
  ]

  -- In a consistent state, after a user that is logged in takes a message id, its next id is one
  -- more, and every other user's is what it was.
  pub get_next_msg_id_lem :
      (u w : ℕ)
      → user_id_exists m u ≡ true
      → (get_next_msg_id (get_next_msg_id m u).1 w).0
        ≡ (if nat_eq u w then increment (get_next_msg_id m u).0 else (get_next_msg_id m w).0)
  unfolding get_next_msg_id user_id_exists
  get_next_msg_id_lem u w h = ground arith
