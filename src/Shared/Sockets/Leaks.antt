-- ===== src/Shared/Sockets/Leaks.antt =====
-- The first candidate that can be used is used, and no other socket stays open.
use inf.Base.{
  Bool, List, Option, Option-cases, [], ap, append-nil, arith, eq_str, eq_ℕ, if◌then◌else◌, inl,
  inr, none, refl, some, sym, ℕ, ◌++◌, ◌∙◌, ◌∷◌, ◌≡◌,
}
use inf.Server.Connections.{eq_address}
use inf.Shared.Sockets.{find_socket, search_from}

abbrev pub as_list : Option ℕ → List ℕ
as_list none = []
as_list (some socket_descriptor) = socket_descriptor ∷ []

module _ (Candidate : Type 0) (socket : Candidate → Option ℕ)
    (attaches : Candidate → ℕ → Bool) where
  -- The socket that a candidate alone leads to.
  abbrev pub usable : Candidate → Option ℕ
  usable c = elim (socket c) [
    | none ↦ none
    | some socket_descriptor ↦ if attaches c socket_descriptor then some socket_descriptor else none
  ]

  abbrev pub first_usable : List Candidate → Option ℕ
  first_usable [] = none
  first_usable (c ∷ cs) = elim (usable c) [
    | none ↦ first_usable cs
    | some socket_descriptor ↦ some socket_descriptor
  ]

  search_lem :
      (opened closed : List ℕ) (cs : List Candidate)
      → opened ≡ closed
      → let r = search_from Candidate socket attaches opened closed cs in
        (r.found ≡ first_usable cs) × (r.opened ≡ r.closed ++ as_list r.found)
  unfolding search_from
  search_lem opened closed [] e = (refl, e ∙ sym (append-nil closed))
  search_lem opened closed (c ∷ cs) e = elim (Option-cases (socket c)) [
    | inl refused ↦ ground (arith, search_lem opened closed cs e)
    | inr (socket_descriptor, made) ↦ ground (
      arith,
      e,
      search_lem (opened ++ socket_descriptor ∷ []) (closed ++ socket_descriptor ∷ []) cs
          (ap (λ (l : List ℕ). l ++ socket_descriptor ∷ []) e),
    )
  ]

  -- The socket that is used is that of the first candidate whose socket can be made and attached,
  -- and there is none if there is no such candidate; the sockets that were opened are those that
  -- were closed, in the same order, and then the one that is used.
  pub find_socket_lem :
      (address_candidates : List Candidate)
      → let r = find_socket Candidate socket attaches (some address_candidates) in
        (r.found ≡ first_usable address_candidates) × (r.opened ≡ r.closed ++ as_list r.found)
  unfolding find_socket
  find_socket_lem address_candidates = search_lem [] [] address_candidates refl
