-- ===== src/Client/Receiver.antt =====
-- `fn_client_listener` of client/client_receiver.cpp. What a read answers in a round is an argument, a
-- round after the other.
use inf.Base.{
  Bool, List, Option, Outcome, Str, [], ap, append-nil, append_assoc, arith, eq_str, eq_ℕ, false,
  if◌then◌else◌, length, none, ok, refl, some, sym, ℕ, ◌++◌, ◌+◌, ◌<◌, ◌>>=◌, ◌∙◌, ◌∷◌, ◌≡◌, ◌≤◌,
}
use inf.Server.Connections.{eq_address}
use inf.Shared.Buffer.{
  buffer_size, parse_buffer, parse_buffer_lem, read_to_buffer, read_to_buffer-keeps,
}
use inf.Shared.Json.{Json}

pub data ListenerEnd : Type 0 where
  goes_on : ListenerEnd
  -- The thread was left, at the flag or at a text that is no JSON document.
  thread_left : ListenerEnd
  -- A read failed: `read_to_buffer` ends the process.
  process_ended : ListenerEnd

module _ (J : Json) where
  -- A round: the datagram that is read, if the read does not fail, and `must_terminate` at the round's
  -- end.
  pub record ListenerRound : Type 0 where
    pub datagram : Option J.Text
    pub must_terminate : Bool

  unfoldable pub fn_client_listener :
      List ℕ → List J.Value → List ListenerRound → Outcome (List J.Value × ListenerEnd)
  fn_client_listener buffer receive_queue [] = ok (receive_queue, goes_on)
  fn_client_listener buffer receive_queue (r ∷ rounds) = elim r.datagram [
    | none ↦ ok (receive_queue, process_ended)
    | some datagram ↦ parse_buffer J buffer datagram >>= λ (parsed : Option J.Value). elim parsed [
      | none ↦ ok (receive_queue, thread_left)
      | some message_value ↦
          let queue = receive_queue ++ message_value ∷ [] in
          let rest = fn_client_listener (read_to_buffer buffer (J.bytes datagram)) queue rounds in
          if r.must_terminate then ok (queue, thread_left) else rest
    ]
  ]

  -- Each datagram is shorter than the buffer, and parsed whatever stands behind it.
  abbrev pub TextsRead : List J.Text → List J.Value → Type 0
  TextsRead [] [] = Unit {0}
  TextsRead (t ∷ ts) (v ∷ vs) =
      (length (J.bytes t) < buffer_size)
      × ((behind : Str) → J.parse t behind ≡ some v)
      × TextsRead ts vs
  TextsRead _ _ = ⊥

  abbrev pub reads : List J.Text → List ListenerRound
  reads [] = []
  reads (t ∷ ts) = record { datagram = some t; must_terminate = false } ∷ reads ts

  step_lem :
      (memory : List ℕ) (q : List J.Value) (t : J.Text) (v : J.Value) (rounds : List ListenerRound)
      → length (J.bytes t) ≤ length memory
      → ((behind : Str) → J.parse t behind ≡ some v)
      → fn_client_listener
          (memory ++ 0 ∷ [])
          q
          (record { datagram = some t; must_terminate = false } ∷ rounds)
        ≡ fn_client_listener (read_to_buffer (memory ++ 0 ∷ []) (J.bytes t)) (q ++ v ∷ []) rounds
  unfolding fn_client_listener
  step_lem memory q t v rounds short parsed = rw (parse_buffer_lem J memory t v short parsed) refl

  -- From a buffer of 512 bytes with a NUL at its end, datagrams of fewer than 512 bytes, each of
  -- them parsed whatever stands behind it, that are read one after the other while the flag is not
  -- set, are pushed in order, each once, and the thread goes on; what an earlier datagram left in
  -- the buffer does not matter.
  pub fn_client_listener_lem :
      (memory : List ℕ) (q : List J.Value) (ts : List J.Text) (vs : List J.Value)
      → length memory + 1 ≡ buffer_size
      → TextsRead ts vs
      → fn_client_listener (memory ++ 0 ∷ []) q (reads ts) ≡ ok (q ++ vs, goes_on)
  unfolding fn_client_listener
  fn_client_listener_lem memory q [] [] whole h =
      ap (λ (l : List J.Value). ok (l, goes_on)) (sym (append-nil q))
  fn_client_listener_lem memory q [] (v ∷ vs) whole h = absurd h
  fn_client_listener_lem memory q (t ∷ ts) [] whole h = absurd h
  fn_client_listener_lem memory q (t ∷ ts) (v ∷ vs) whole (short, parsed, others) =
      let (kept, same, size) =
        read_to_buffer-keeps memory (J.bytes t) whole (omega (arith, whole, short)) in
      step_lem memory q t v (reads ts) (omega (arith, whole, short)) parsed
      ∙ ap (λ (b : List ℕ). fn_client_listener b (q ++ v ∷ []) (reads ts)) same
      ∙ fn_client_listener_lem kept (q ++ v ∷ []) ts vs size others
      ∙ ap (λ (l : List J.Value). ok (l, goes_on)) (append_assoc q (v ∷ []) vs)
