-- ===== src/Shared/Atomic/Readers.antt =====
-- AtomicMultipleReadersVar of shared/atomic.h: any number of readers, or one writer. The first reader
-- takes the writers' semaphore, and the last one gives it back.
pub mod Exclusion
pub mod Progress
use inf.Base.{eq_str, eq_ℕ, update, ℕ, ◌+◌, ◌-◌, ◌<◌, ◌≡◌, ◌≢◌}
use inf.Server.Connections.{eq_address}

module _ (A : Type 0) where
  pub record ReadersVar : Type 0 where
    pub val : A
    pub reader_queue : ℕ
    pub writer_queue : ℕ
    pub reader_count : ℕ

  abbrev pub new_readers_var : A → ReadersVar
  new_readers_var init_val = record {
    val = init_val;
    reader_queue = 1;
    writer_queue = 1;
    reader_count = 0;
  }

  -- Where a thread stands, with the local variables that are live there.
  pub data Pc : Type 0 where
    idle : Pc
    -- `read`: with `reader_queue` until `admitted`, and again from `leaving` on.
    arriving : Pc
    counted : Pc
    first : Pc
    admitted : Pc
    reading : Pc
    have_read : (copied_val : A) → Pc
    leaving : (copied_val : A) → Pc
    uncounted : (copied_val : A) → Pc
    last : (copied_val : A) → Pc
    left : (copied_val : A) → Pc
    -- `write`, `read_and_replace`, and between `lock` and `unlock`: with `writer_queue`.
    writing : (new_val : A) → Pc
    written : Pc
    replacing : (new_val : A) → Pc
    swapping : (copied_val new_val : A) → Pc
    replaced : (copied_val : A) → Pc
    locked : Pc

  -- A step of one thread: `sem_wait`, `sem_post`, or one access to the object.
  pub data Move (m : ReadersVar) : Pc → ReadersVar → Pc → Type 0 where
    wait_reader :
        0 < m.reader_queue → Move m idle (record m { reader_queue = m.reader_queue - 1 }) arriving
    count_up : Move m arriving (record m { reader_count = m.reader_count + 1 }) counted
    is_first : m.reader_count ≡ 1 → Move m counted m first
    not_first : m.reader_count ≢ 1 → Move m counted m admitted
    wait_first :
        0 < m.writer_queue → Move m first (record m { writer_queue = m.writer_queue - 1 }) admitted
    post_admitted : Move m admitted (record m { reader_queue = m.reader_queue + 1 }) reading
    copy : Move m reading m (have_read m.val)
    wait_leaving :
        (c : A)
        → 0 < m.reader_queue
        → Move m (have_read c) (record m { reader_queue = m.reader_queue - 1 }) (leaving c)
    count_down :
        (c : A) → Move m (leaving c) (record m { reader_count = m.reader_count - 1 }) (uncounted c)
    is_last : (c : A) → m.reader_count ≡ 0 → Move m (uncounted c) m (last c)
    not_last : (c : A) → m.reader_count ≢ 0 → Move m (uncounted c) m (left c)
    post_last : (c : A) → Move m (last c) (record m { writer_queue = m.writer_queue + 1 }) (left c)
    post_left : (c : A) → Move m (left c) (record m { reader_queue = m.reader_queue + 1 }) idle
    wait_write :
        (new_val : A)
        → 0 < m.writer_queue
        → Move m idle (record m { writer_queue = m.writer_queue - 1 }) (writing new_val)
    store : (new_val : A) → Move m (writing new_val) (record m { val = new_val }) written
    post_written : Move m written (record m { writer_queue = m.writer_queue + 1 }) idle
    wait_replace :
        (new_val : A)
        → 0 < m.writer_queue
        → Move m idle (record m { writer_queue = m.writer_queue - 1 }) (replacing new_val)
    copy_replaced : (new_val : A) → Move m (replacing new_val) m (swapping m.val new_val)
    store_replaced :
        (c new_val : A) → Move m (swapping c new_val) (record m { val = new_val }) (replaced c)
    post_replaced :
        (c : A) → Move m (replaced c) (record m { writer_queue = m.writer_queue + 1 }) idle
    wait_lock :
        0 < m.writer_queue → Move m idle (record m { writer_queue = m.writer_queue - 1 }) locked
    locked_read : Move m locked m locked
    locked_write : (new_val : A) → Move m locked (record m { val = new_val }) locked
    unlock : Move m locked (record m { writer_queue = m.writer_queue + 1 }) idle

  pub record System : Type 0 where
    pub var : ReadersVar
    pub pc : ℕ → Pc

  pub data Step (n : ℕ) (s : System) : System → Type 0 where
    pick :
        (i : ℕ) {m : ReadersVar} {p : Pc}
        → i < n
        → Move s.var (s.pc i) m p
        → Step n s (record { var = m; pc = update s.pc i p })

  abbrev pub new_system : A → System
  new_system init_val = record { var = new_readers_var init_val; pc = λ i. idle }

  pub data Reach (n : ℕ) (init_val : A) : System → Type 0 where
    start : Reach n init_val (new_system init_val)
    later : {s t : System} → Reach n init_val s → Step n s t → Reach n init_val t

  -- A reader that has been counted and may still have to wait for the writers.
  abbrev pub entering : Pc → ℕ
  entering counted = 1
  entering first = 1
  entering _ = 0

  -- A reader that has passed the writers, and is counted still.
  abbrev pub within : Pc → ℕ
  within admitted = 1
  within reading = 1
  within (have_read _) = 1
  within (leaving _) = 1
  within _ = 0

  -- A reader that is not counted any more, and may have to let the writers in.
  abbrev pub releasing : Pc → ℕ
  releasing (uncounted _) = 1
  releasing (last _) = 1
  releasing _ = 0

  -- A reader with `reader_queue` that is neither.
  abbrev pub queueing : Pc → ℕ
  queueing arriving = 1
  queueing admitted = 1
  queueing (leaving _) = 1
  queueing (left _) = 1
  queueing _ = 0

  -- A thread with `writer_queue` to itself.
  abbrev pub owning : Pc → ℕ
  owning (writing _) = 1
  owning written = 1
  owning (replacing _) = 1
  owning (swapping _ _) = 1
  owning (replaced _) = 1
  owning locked = 1
  owning _ = 0
