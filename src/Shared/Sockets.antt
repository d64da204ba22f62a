-- ===== src/Shared/Sockets.antt =====
-- The loops over the address candidates in `connect_to_address_port` (client/client_connection.cpp)
-- and `fn_server_broadcast` (server/server_broadcast.cpp), which are the same but for the call that
-- attaches the socket. What the system answers for a candidate is a parameter.
pub mod Leaks
use inf.Base.{Bool, List, Option, [], eq_str, eq_ℕ, if◌then◌else◌, none, some, ℕ, ◌++◌, ◌∷◌}
use inf.Server.Connections.{eq_address}

-- What came of the loop: the socket that is used, and those that were opened and closed, in order.
pub record Search : Type 0 where
  pub found : Option ℕ
  pub opened : List ℕ
  pub closed : List ℕ

module _ (Candidate : Type 0) (socket : Candidate → Option ℕ)
    (attaches : Candidate → ℕ → Bool) where
  unfoldable pub search_from : List ℕ → List ℕ → List Candidate → Search
  search_from opened closed [] = record { found = none; opened = opened; closed = closed }
  search_from opened closed (c ∷ candidates) = elim (socket c) [
    | none ↦ search_from opened closed candidates
    | some socket_descriptor ↦
        let rest =
          search_from (opened ++ socket_descriptor ∷ []) (closed ++ socket_descriptor ∷ [])
            candidates in
        if attaches c socket_descriptor
        then record {
          found = some socket_descriptor;
          opened = opened ++ socket_descriptor ∷ [];
          closed = closed;
        }
        else rest
  ]

  -- The whole function, for what `getaddrinfo` gives, `none` if it fails.
  unfoldable pub find_socket : Option (List Candidate) → Search
  unfolding search_from
  find_socket none = record { found = none; opened = []; closed = [] }
  find_socket (some address_candidates) = search_from [] [] address_candidates
