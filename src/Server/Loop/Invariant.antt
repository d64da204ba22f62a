-- ===== src/Server/Loop/Invariant.antt =====
-- The main loop keeps the managers sound, for as long as numbers last.
use inf.Base.{
  All, List, Returns, Returns-bind, [], arith, eq_str, eq_ℕ, length, suc, ℕ, ◌+◌, ◌<◌, ◌^◌, ◌∷◌,
  ◌≡◌,
}
use inf.Server.Connections.{eq_address}
use inf.Server.Handler.{ClientMessageHandler, handle_incoming_datagram}
use inf.Server.Handler.Datagram.{IsReadable, handle_incoming_datagram-IsSound}
use inf.Server.Handler.Invariant.{IsNext, IsSound}
use inf.Server.Loop.{Datagram, Served, serve, serve_datagram}
use inf.Server.Message.{ServerMsgPayload, payload_size}
use inf.Shared.Ids.{int_limit, word_values}
use inf.Shared.Json.{Json}

module _ (J : Json) (uninitialised : ServerMsgPayload)
    (sized : length uninitialised ≡ payload_size) where
  -- A datagram that can be read, at a time of 64 bits.
  abbrev pub IsServable : Datagram J uninitialised → Type 0
  IsServable d = IsReadable J d.value × (d.now < 2 ^ 64)

  -- A sound state that can number as many users and messages more as there are datagrams.
  pub record CanServe (h : ClientMessageHandler) (n : ℕ) : Type 0 where
    pub sound : IsSound h
    pub user_room : h.user_persistence.last_user_id + n < int_limit
    pub notification_room : h.notification_manager.notification_id + n < word_values

  pub CanServe-next :
      (h t : ClientMessageHandler) (n : ℕ) → CanServe h (suc n) → IsNext h t → CanServe t n
  CanServe-next h t n c i = record {
    sound = i.sound;
    user_room = omega (arith, i.few_users, c.user_room);
    notification_room = omega (arith, i.few_notifications, c.notification_room);
  }

  serve_datagram_lem :
      (s : Served) (d : Datagram J uninitialised) (n : ℕ)
      → CanServe s.0 (suc n)
      → IsServable d
      → Returns (serve_datagram J uninitialised s d) λ t. CanServe t.0 n
  unfolding serve_datagram
  serve_datagram_lem s d n c r =
      Returns-bind (λ t. IsNext s.0 t.0) (λ t. CanServe t.0 n)
        (handle_incoming_datagram J uninitialised s.0 [] d.now d.value d.address) _
        (handle_incoming_datagram-IsSound J uninitialised sized s.0 c.sound
          (record {
            user_room = omega (arith, c.user_room);
            notification_room = omega (arith, c.notification_room);
          })
          d.now r.1 [] d.value d.address r.0)
        (λ t i. CanServe-next s.0 t.0 n c i)

  -- From a sound state that can number as many users and messages more as there are datagrams, the
  -- loop handles any list of datagrams, from whatever addresses, without a crash, and the managers
  -- are sound after it. Each datagram is one that can be read, at a time of 64 bits. Uninitialised
  -- objects have their sizes.
  pub serve-IsSound :
      (s : Served) (ds : List (Datagram J uninitialised))
      → CanServe s.0 (length ds)
      → All IsServable ds
      → Returns (serve J uninitialised s ds) λ t. IsSound t.0
  unfolding serve
  serve-IsSound s [] c r = c.sound
  serve-IsSound s (d ∷ ds) c r =
      Returns-bind (λ t. CanServe t.0 (length ds)) (λ t. IsSound t.0)
        (serve_datagram J uninitialised s d) _ (serve_datagram_lem s d (length ds) c r.0)
        (λ t k. serve-IsSound t ds k r.1)
