-- ===== src/Client/Connection.antt =====
-- client/client_connection.cpp: how the client's socket is found.
use inf.Base.{Bool, List, Option, eq_str, eq_ℕ, ℕ}
use inf.Server.Connections.{eq_address}
use inf.Shared.Sockets.{Search, find_socket}

-- `connect_to_address_port`, for what `getaddrinfo` gives and what `socket` and `connect` answer.
abbrev pub connect_to_address_port :
    (Candidate : Type 0)
    → (Candidate → Option ℕ)
    → (Candidate → ℕ → Bool)
    → Option (List Candidate)
    → Search
connect_to_address_port Candidate socket connects address_candidates =
    find_socket Candidate socket connects address_candidates
