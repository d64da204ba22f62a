-- ===== src/Server/Receiver/Order.antt =====
-- What the listener pushes: the datagrams that can be parsed, in order, until it is told to end.
use inf.Base.{Bool, List, [], eq_str, eq_ℕ, false, if◌then◌else◌, none, some, ◌++◌, ◌||◌, ◌∷◌}
use inf.Server.Connections.{eq_address}
use inf.Server.Receiver.{
  ReceiverRound, Reception, ValueAddress, getnameinfo_fails, received, recvfrom_fails,
}
use inf.Shared.Json.{Json}

module _ (J : Json) where
  -- The rounds before the one that reads the flag as set.
  abbrev pub before_flag : List (ReceiverRound J) → List (ReceiverRound J)
  before_flag [] = []
  before_flag (r ∷ rs) = let rest = before_flag rs in if r.must_terminate then [] else r ∷ rest

  abbrev pub flag_seen : List (ReceiverRound J) → Bool
  flag_seen [] = false
  flag_seen (r ∷ rs) = r.must_terminate || flag_seen rs

  abbrev pub parsed_datagram : Reception J → List (ValueAddress J)
  parsed_datagram recvfrom_fails = []
  parsed_datagram (getnameinfo_fails buffer) = []
  parsed_datagram (received buffer a) = elim (J.parse buffer []) [
    | none ↦ []
    | some v ↦ (v, a) ∷ []
  ]

  -- The datagrams of the rounds whose text is a JSON document, with their addresses.
  abbrev pub parsed_datagrams : List (ReceiverRound J) → List (ValueAddress J)
  parsed_datagrams [] = []
  parsed_datagrams (r ∷ rs) = parsed_datagram r.reception ++ parsed_datagrams rs
