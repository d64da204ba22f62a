-- ===== src/Server/Broadcast.antt =====
-- server/server_broadcast.cpp: how the server's socket is found.
use inf.Base.{Bool, List, Option, eq_str, eq_ℕ, ℕ}
use inf.Server.Connections.{eq_address}
use inf.Shared.Sockets.{Search, find_socket}

-- `fn_server_broadcast`, for what `getaddrinfo` gives and what `socket` and `bind` answer. Where
-- `getaddrinfo` fails, the source also frees a list that was not set, which is left out.
abbrev pub fn_server_broadcast :
    (Candidate : Type 0)
    → (Candidate → Option ℕ)
    → (Candidate → ℕ → Bool)
    → Option (List Candidate)
    → Search
fn_server_broadcast Candidate socket binds address_candidates =
    find_socket Candidate socket binds address_candidates
