-- ===== src/Server/Restart/Service.antt =====
-- A run of the server's main loop, and the restart after it.
use inf.Base.{
  All, List, Returns, Returns-and, Returns-bind, Returns-mono, [], arith, eq_str, eq_ℕ, length,
  some, suc, ℕ, ◌+◌, ◌<◌, ◌∷◌, ◌≡◌,
}
use inf.Server.Connections.{eq_address}
use inf.Server.Disk.{DiskOperationsManagment, update_users_on_disk}
use inf.Server.Handler.{ClientMessageHandler, handle_incoming_datagram}
use inf.Server.Handler.Datagram.{handle_incoming_datagram-IsSound}
use inf.Server.Handler.Invariant.{HasRoom, IsNext}
use inf.Server.Loop.{Datagram, Served, serve, serve_datagram}
use inf.Server.Loop.Invariant.{CanServe, CanServe-next, IsServable}
use inf.Server.Message.{ServerMsgPayload, payload_size}
use inf.Server.Persistence.{UserPersistence, UserPersistentData}
use inf.Server.Restart.{History, load_user_persistence, user_limit}
use inf.Server.Restart.Mirror.{IsKept}
use inf.Server.Restart.Runs.{History-IsKept, IsRestored, mirrored_again}
use inf.Server.Restart.Serving.{IsNamed, handle_incoming_datagram-StaysKept}
use inf.Shared.Json.{Json}

module _ (J : Json) (uninitialised : ServerMsgPayload) (sized : length uninitialised ≡ payload_size)
    (folder : DiskOperationsManagment) where
  -- A datagram that can be read, at a time of 64 bits, in which a valid name is one of a file.
  abbrev pub IsStorableDatagram : Datagram J uninitialised → Type 0
  IsStorableDatagram d = IsServable J uninitialised sized d × IsNamed J d.value

  -- What holds of the managers where `n` datagrams are still to come.
  record IsRunning (h : ClientMessageHandler) (n : ℕ) : Type 0 where
    can_serve : CanServe J uninitialised sized h n
    kept : IsKept folder h.user_persistence
    few : h.user_persistence.last_user_id + n + 3 < user_limit

  datagram-IsRunning :
      (s : Served) (d : Datagram J uninitialised) (n : ℕ)
      → IsRunning s.0 (suc n)
      → IsStorableDatagram d
      → Returns (serve_datagram J uninitialised s d) λ t. IsRunning t.0 n
  unfolding serve_datagram
  datagram-IsRunning s d n r storable =
      let room : HasRoom s.0 = record {
        user_room = omega (arith, r.can_serve.user_room);
        notification_room = omega (arith, r.can_serve.notification_room);
      } in
      let sound = r.can_serve.sound in
      let few : s.0.user_persistence.last_user_id + 4 < user_limit = omega (arith, r.few) in
      Returns-bind (λ t. IsNext s.0 t.0 × IsKept folder t.0.user_persistence) (λ t. IsRunning t.0 n)
        (handle_incoming_datagram J uninitialised s.0 [] d.now d.value d.address) _
        (Returns-and (λ t. IsNext s.0 t.0) (λ t. IsKept folder t.0.user_persistence)
          (handle_incoming_datagram J uninitialised s.0 [] d.now d.value d.address)
          (handle_incoming_datagram-IsSound J uninitialised sized s.0 sound room d.now storable.0.1
            [] d.value d.address storable.0.0)
          (handle_incoming_datagram-StaysKept uninitialised sized folder s.0 sound room r.kept J
            d.now storable.0.1 d.value d.address storable.0.0 few storable.1))
        λ t (i, k). record {
          can_serve = CanServe-next J uninitialised sized s.0 t.0 n r.can_serve i;
          kept = k;
          few = omega (arith, i.few_users, r.few);
        }

  serve-IsRunning :
      (s : Served) (ds : List (Datagram J uninitialised))
      → IsRunning s.0 (length ds)
      → All IsStorableDatagram ds
      → Returns (serve J uninitialised s ds) λ t. IsKept folder t.0.user_persistence
  unfolding serve
  serve-IsRunning s [] r h = r.kept
  serve-IsRunning s (d ∷ ds) r h =
      Returns-bind (λ t. IsRunning t.0 (length ds)) (λ t. IsKept folder t.0.user_persistence)
        (serve_datagram J uninitialised s d) _ (datagram-IsRunning s d (length ds) r h.0)
        (λ t k. serve-IsRunning t ds k h.1)

  -- What is in the queue of the disk, and that a restart from the folder with it written finds the
  -- same users.
  abbrev pub IsRestorable : UserPersistence → Type 0
  IsRestorable p =
      (queue : List UserPersistentData) × (p.disk_managment ≡ some queue)
      × IsRestored p (load_user_persistence (update_users_on_disk folder queue)).0

  -- From a sound state that can number as many users and messages more as there are datagrams, with
  -- ids that stay below 2^30 - 3, whose users are those of some history of runs: the main loop
  -- handles any list of datagrams without a crash, and if the updates that are then in the disk's
  -- queue are written, in order, to the folder of this run, with all files opening, the next run
  -- starts with the same names, the same id, name and followers of each user, and the same last id.
  -- Each datagram is one that can be read, at a time of 64 bits, and a valid name in it has no
  -- slash and is not the directory's. Uninitialised objects have their sizes.
  pub serve-IsRestorable :
      (s : Served) (ds : List (Datagram J uninitialised))
      → History folder s.0.user_persistence
      → CanServe J uninitialised sized s.0 (length ds)
      → s.0.user_persistence.last_user_id + length ds + 3 < user_limit
      → All IsStorableDatagram ds
      → Returns (serve J uninitialised s ds) λ t. IsRestorable t.0.user_persistence
  serve-IsRestorable s ds history can few storable =
      Returns-mono (λ t. IsKept folder t.0.user_persistence)
        (λ t. IsRestorable t.0.user_persistence) (serve J uninitialised s ds)
        (λ t k. (
          k.queue,
          k.queued,
          mirrored_again (update_users_on_disk folder k.queue) t.0.user_persistence k.sound
              k.mirrored,
        ))
        (serve-IsRunning s ds
          (record {
            can_serve = can;
            kept = History-IsKept folder s.0.user_persistence history;
            few = few;
          })
          storable)
