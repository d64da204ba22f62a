-- ===== src/Examples/Readers.antt =====
-- One thread has the variable locked, and another waits for it as the first reader.
use inf.Base.{arith, eq_str, eq_ℕ, refl, update, ℕ, ◌≡◌}
use inf.Server.Connections.{eq_address}
use inf.Shared.Atomic.Readers.{
  Pc, Reach, ReadersVar, System, arriving, count_up, counted, first, is_first, later, locked,
  new_readers_var, new_system, owning, pick, start, wait_lock, wait_reader, within,
}
use inf.Shared.Atomic.Readers.Exclusion.{writer_alone}
use inf.Shared.Atomic.Readers.Progress.{SomeGoesOn, no_deadlock}

-- The system after a thread's step.
abbrev moved : System ℕ → ℕ → ReadersVar ℕ → Pc ℕ → System ℕ
moved s i m p = record { var = m; pc = update s.pc i p }

abbrev one_locks : System ℕ
one_locks = moved (new_system ℕ 5) 0 (record (new_readers_var ℕ 5) { writer_queue = 0 }) locked

abbrev other_arrives : System ℕ
other_arrives = moved one_locks 1 (record one_locks.var { reader_queue = 0 }) arriving

abbrev other_counts : System ℕ
other_counts = moved other_arrives 1 (record other_arrives.var { reader_count = 1 }) counted

abbrev other_waits : System ℕ
other_waits = moved other_counts 1 other_counts.var first

waiting-Reach : Reach ℕ 2 5 other_waits
waiting-Reach =
    later
      (later
        (later (later start (pick 0 (omega arith) (wait_lock (omega arith))))
          (pick 1 (omega arith) (wait_reader (omega arith))))
        (pick 1 (omega arith) count_up))
      (pick 1 (omega arith) (is_first refl))

writer_alone_example : (owning ℕ (other_waits.pc 1) ≡ 0) × (within ℕ (other_waits.pc 1) ≡ 0)
writer_alone_example =
    writer_alone ℕ 2 5 other_waits 0 1 waiting-Reach (omega arith) (omega arith) refl (omega arith)

no_deadlock_example : SomeGoesOn ℕ 2 other_waits
no_deadlock_example = no_deadlock ℕ 2 5 other_waits 1 waiting-Reach (omega arith) (λ e. cc)
