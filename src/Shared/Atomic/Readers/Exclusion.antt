-- ===== src/Shared/Atomic/Readers/Exclusion.antt =====
-- A writer is alone, in every reachable state.
use inf.Base.{
  arith, eq_str, eq_ℕ, refl, suc, update, weight, weight-ge, weight-none, weight-two, weight-update,
  zero, ℕ, ◌+◌, ◌-◌, ◌<◌, ◌≡◌, ◌≢◌,
}
use inf.Server.Connections.{eq_address}
use inf.Shared.Atomic.Readers.{
  Move, Pc, Reach, ReadersVar, Step, System, count_up, entering, first, idle, is_first, is_last,
  last, later, not_first, not_last, owning, pick, queueing, releasing, start, swapping, wait_first,
  wait_leaving, wait_lock, wait_reader, wait_replace, wait_write, within,
}

module _ (A : Type 0) where
  -- Whether the readers have `writer_queue` among them, given their count, and how many of them are
  -- entering and releasing.
  abbrev pub readers_hold : ℕ → ℕ → ℕ → ℕ
  readers_hold zero entering' releasing' = releasing'
  readers_hold (suc zero) entering' releasing' = 1 - entering'
  readers_hold (suc (suc k)) entering' releasing' = 1

  -- What a thread's place says of the object.
  abbrev pub IsFresh : ReadersVar A → Pc A → Type 0
  IsFresh m first = m.reader_count ≡ 1
  IsFresh m (last c) = m.reader_count ≡ 0
  IsFresh m (swapping c new_val) = m.val ≡ c
  IsFresh m _ = Unit {0}

  pub record IsLocked (n : ℕ) (m : ReadersVar A) (pc : ℕ → Pc A) : Type 0 where
    pub queue :
        m.reader_queue
          + (weight (entering A) n pc + (weight (releasing A) n pc + weight (queueing A) n pc))
        ≡ 1
    pub count : m.reader_count ≡ weight (entering A) n pc + weight (within A) n pc
    pub writers :
        m.writer_queue
          + (weight (owning A) n pc
              + readers_hold m.reader_count (weight (entering A) n pc) (weight (releasing A) n pc))
        ≡ 1
    pub fresh : (i : ℕ) → i < n → IsFresh m (pc i)

  -- The test that a step has passed, and what a catch-all clause cannot name.
  abbrev Guard : {m m' : ReadersVar A} {p p' : Pc A} → Move A m p m' p' → Type 0
  Guard {m} (wait_reader g) = 0 < m.reader_queue
  Guard {m} (is_first g) = m.reader_count ≡ 1
  Guard {m} (not_first g) = m.reader_count ≢ 1
  Guard {m} (wait_first g) = 0 < m.writer_queue
  Guard {m} (wait_leaving c g) = 0 < m.reader_queue
  Guard {m} (is_last c g) = m.reader_count ≡ 0
  Guard {m} (not_last c g) = m.reader_count ≢ 0
  Guard {m} (wait_write new_val g) = 0 < m.writer_queue
  Guard {m} (wait_replace new_val g) = 0 < m.writer_queue
  Guard {m} (wait_lock g) = 0 < m.writer_queue
  Guard _ = Unit {0}

  guard : {m m' : ReadersVar A} {p p' : Pc A} (mv : Move A m p m' p') → Guard mv
  guard (wait_reader g) = g
  guard (is_first g) = g
  guard (not_first g) = g
  guard (wait_first g) = g
  guard (wait_leaving c g) = g
  guard (is_last c g) = g
  guard (not_last c g) = g
  guard (wait_write new_val g) = g
  guard (wait_replace new_val g) = g
  guard (wait_lock g) = g
  guard _ = tt

  module _ (n : ℕ) (m : ReadersVar A) (pc : ℕ → Pc A) (v : IsLocked n m pc) (i : ℕ)
      (lt : i < n) where
    -- Thread `i` goes from `p` to `p'`.
    record Mover (p p' : Pc A) : Type 0 where
      here : pc i ≡ p
      own : IsFresh m p
      entering_by :
          weight (entering A) n (update pc i p') + entering A p
          ≡ weight (entering A) n pc + entering A p'
      within_by :
          weight (within A) n (update pc i p') + within A p ≡ weight (within A) n pc + within A p'
      releasing_by :
          weight (releasing A) n (update pc i p') + releasing A p
          ≡ weight (releasing A) n pc + releasing A p'
      queueing_by :
          weight (queueing A) n (update pc i p') + queueing A p
          ≡ weight (queueing A) n pc + queueing A p'
      owning_by :
          weight (owning A) n (update pc i p') + owning A p ≡ weight (owning A) n pc + owning A p'

    mover : (p' : Pc A) → Mover (pc i) p'
    mover p' = record {
      here = refl;
      own = v.fresh i lt;
      entering_by = weight-update (entering A) n pc i p' lt;
      within_by = weight-update (within A) n pc i p' lt;
      releasing_by = weight-update (releasing A) n pc i p' lt;
      queueing_by = weight-update (queueing A) n pc i p' lt;
      owning_by = weight-update (owning A) n pc i p' lt;
    }

    Move-queue :
        {p p' : Pc A} {m' : ReadersVar A}
        → Move A m p m' p'
        → Mover p p'
        → m'.reader_queue
            + (weight (entering A) n (update pc i p')
                + (weight (releasing A) n (update pc i p')
                    + weight (queueing A) n (update pc i p')))
          ≡ 1
    Move-queue count_up f = omega (arith, v.queue, f.entering_by, f.releasing_by, f.queueing_by)
    Move-queue mv f =
        ground (arith, guard mv, v.queue, f.entering_by, f.releasing_by, f.queueing_by)

    Move-count :
        {p p' : Pc A} {m' : ReadersVar A}
        → Move A m p m' p'
        → Mover p p'
        → m'.reader_count
          ≡ weight (entering A) n (update pc i p') + weight (within A) n (update pc i p')
    Move-count count_up f = omega (arith, v.count, f.entering_by, f.within_by)
    Move-count mv f = ground (arith, guard mv, v.count, f.entering_by, f.within_by)

    Move-writers :
        {p p' : Pc A} {m' : ReadersVar A}
        → Move A m p m' p'
        → Mover p p'
        → m'.writer_queue
            + (weight (owning A) n (update pc i p')
                + readers_hold m'.reader_count
                    (weight (entering A) n (update pc i p'))
                    (weight (releasing A) n (update pc i p')))
          ≡ 1
    Move-writers count_up f = ground (arith, v.queue, v.count, v.writers, f.own)
    Move-writers mv f = ground (arith, guard mv, v.queue, v.count, v.writers, f.own)

    Move-IsFresh :
        {p p' : Pc A} {m' : ReadersVar A}
        → Move A m p m' p'
        → Mover p p'
        → (j : ℕ) → j < n
        → IsFresh m' (update pc i p' j)
    Move-IsFresh count_up f j lt' = ground (
      arith,
      v.fresh j lt',
      v.queue,
      weight-ge (entering A) n pc j lt',
      weight-ge (releasing A) n pc j lt',
      weight-ge (queueing A) n pc i lt,
    )
    Move-IsFresh mv f j lt' = ground (
      arith,
      guard mv,
      v.fresh j lt',
      v.queue,
      v.writers,
      weight-ge (entering A) n pc j lt',
      weight-ge (releasing A) n pc j lt',
      weight-ge (queueing A) n pc i lt,
      weight-two (owning A) n pc i j lt lt',
    )

    Move-IsLocked :
        {p p' : Pc A} {m' : ReadersVar A}
        → Move A m p m' p'
        → Mover p p'
        → IsLocked n m' (update pc i p')
    Move-IsLocked mv f = record {
      queue = Move-queue mv f;
      count = Move-count mv f;
      writers = Move-writers mv f;
      fresh = Move-IsFresh mv f;
    }

  Step-IsLocked :
      (n : ℕ) (s t : System A) → IsLocked n s.var s.pc → Step A n s t → IsLocked n t.var t.pc
  Step-IsLocked n s t v (pick i {p} lt mv) =
      Move-IsLocked n s.var s.pc v i lt mv (mover n s.var s.pc v i lt p)

  pub Reach-IsLocked :
      (n : ℕ) (init_val : A) (s : System A) → Reach A n init_val s → IsLocked n s.var s.pc
  Reach-IsLocked n init_val s start = record {
    queue = omega (
      arith,
      weight-none (entering A) n (λ i. idle) (λ i. refl),
      weight-none (releasing A) n (λ i. idle) (λ i. refl),
      weight-none (queueing A) n (λ i. idle) (λ i. refl),
    );
    count = omega (
      arith,
      weight-none (entering A) n (λ i. idle) (λ i. refl),
      weight-none (within A) n (λ i. idle) (λ i. refl),
    );
    writers = omega (
      arith,
      weight-none (releasing A) n (λ i. idle) (λ i. refl),
      weight-none (owning A) n (λ i. idle) (λ i. refl),
    );
    fresh = λ i lt. tt;
  }
  Reach-IsLocked n init_val s (later {s = r} reach step) =
      Step-IsLocked n r s (Reach-IsLocked n init_val r reach) step

  -- In any reachable state of any number of threads, while one is in write, in read_and_replace or
  -- between lock and unlock, with the semaphore of the writers, no other thread is, and none is at
  -- a read of the value.
  pub writer_alone :
      (n : ℕ) (init_val : A) (s : System A) (i j : ℕ)
      → Reach A n init_val s
      → i < n
      → j < n
      → owning A (s.pc i) ≡ 1
      → i ≢ j
      → (owning A (s.pc j) ≡ 0) × (within A (s.pc j) ≡ 0)
  writer_alone n init_val s i j r lt lt' owns other =
      let v = Reach-IsLocked n init_val s r in
      ground (
        arith,
        v.queue,
        v.count,
        v.writers,
        weight-two (owning A) n s.pc i j lt lt' other,
        weight-ge (within A) n s.pc j lt',
      )

  -- A `read_and_replace` returns the value that its own write replaces.
  pub replace_atomic :
      (n : ℕ) (init_val : A) (s : System A) (i : ℕ) (copied_val new_val : A)
      → Reach A n init_val s
      → i < n
      → s.pc i ≡ swapping copied_val new_val
      → s.var.val ≡ copied_val
  replace_atomic n init_val s i copied_val new_val r lt e =
      let f = IsLocked.fresh (Reach-IsLocked n init_val s r) i lt in rw e at f
