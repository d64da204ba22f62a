-- ===== src/Shared/Atomic/Readers/Progress.antt =====
-- No deadlock: some call that is under way can always go on.
use inf.Base.{
  ap, arith, dec_lt, eq_str, eq_ℕ, refl, weight, weight-ge, weight-member, ℕ, ℕ_discrete, ◌+◌, ◌<◌,
  ◌≡◌, ◌≢◌,
}
use inf.Server.Connections.{eq_address}
use inf.Shared.Atomic.Readers.{
  Move, Pc, Reach, ReadersVar, System, admitted, arriving, copy, copy_replaced, count_down,
  count_up, counted, entering, first, have_read, idle, is_first, is_last, last, leaving, left,
  locked, not_first, not_last, owning, post_admitted, post_last, post_left, post_replaced,
  post_written, queueing, reading, releasing, replaced, replacing, store, store_replaced, swapping,
  uncounted, unlock, wait_first, wait_leaving, writing, written,
}
use inf.Shared.Atomic.Readers.Exclusion.{IsLocked, Reach-IsLocked}

module _ (A : Type 0) where
  abbrev pub CanStep : ReadersVar A → Pc A → Type 0
  CanStep m p = (m' : ReadersVar A) × (p' : Pc A) × Move A m p m' p'

  -- A thread that is in a method, and does not wait for a semaphore that is taken.
  step_of :
      (m : ReadersVar A) (p : Pc A)
      → p ≢ idle
      → (p ≡ first → 0 < m.writer_queue)
      → ((c : A) → p ≡ have_read c → 0 < m.reader_queue)
      → CanStep m p
  step_of m idle busy w r = absurd (busy refl)
  step_of m arriving busy w r = (_, _, count_up)
  step_of m counted busy w r = elim (ℕ_discrete m.reader_count 1) [
    | yes e ↦ (_, _, is_first e)
    | no e ↦ (_, _, not_first e)
  ]
  step_of m first busy w r = (_, _, wait_first (w refl))
  step_of m admitted busy w r = (_, _, post_admitted)
  step_of m reading busy w r = (_, _, copy)
  step_of m (have_read c) busy w r = (_, _, wait_leaving c (r c refl))
  step_of m (leaving c) busy w r = (_, _, count_down c)
  step_of m (uncounted c) busy w r = elim (ℕ_discrete m.reader_count 0) [
    | yes e ↦ (_, _, is_last c e)
    | no e ↦ (_, _, not_last c e)
  ]
  step_of m (last c) busy w r = (_, _, post_last c)
  step_of m (left c) busy w r = (_, _, post_left c)
  step_of m (writing new_val) busy w r = (_, _, store new_val)
  step_of m written busy w r = (_, _, post_written)
  step_of m (replacing new_val) busy w r = (_, _, copy_replaced new_val)
  step_of m (swapping c new_val) busy w r = (_, _, store_replaced c new_val)
  step_of m (replaced c) busy w r = (_, _, post_replaced c)
  step_of m locked busy w r = (_, _, unlock)

  -- Some thread that is in a method can step.
  abbrev pub SomeGoesOn : ℕ → System A → Type 0
  SomeGoesOn n s = (j : ℕ) × (j < n) × (s.pc j ≢ idle) × CanStep s.var (s.pc j)

  module _ (n : ℕ) (s : System A) (v : IsLocked A n s.var s.pc) where
    owner_goes_on : (j : ℕ) → j < n → 0 < owning A (s.pc j) → SomeGoesOn n s
    owner_goes_on j lt owns = (
      j,
      lt,
      λ e. omega (arith, owns, ap (owning A) e),
      step_of s.var (s.pc j) (λ e. omega (arith, owns, ap (owning A) e))
          (λ e. absurd (omega (arith, owns, ap (owning A) e)))
          (λ c e. absurd (omega (arith, owns, ap (owning A) e))),
    )

    -- A thread with `reader_queue`, where nobody owns `writer_queue`.
    queued_goes_on :
        weight (owning A) n s.pc ≡ 0
        → (j : ℕ) → j < n
        → 0 < entering A (s.pc j) + (releasing A (s.pc j) + queueing A (s.pc j))
        → SomeGoesOn n s
    queued_goes_on nobody j lt queued =
        let busy : s.pc j ≢ idle =
          λ e. omega (arith, queued, ap (entering A) e, ap (releasing A) e, ap (queueing A) e) in
        (
          j,
          lt,
          busy,
          step_of s.var (s.pc j) busy
              (λ e.
                ground
                  (arith, v.fresh j lt, v.queue, v.writers, weight-ge (entering A) n s.pc j lt))
              (λ c e.
                absurd (
                  omega (arith, queued, ap (entering A) e, ap (releasing A) e, ap (queueing A) e))),
        )

    -- A thread in a method, where nobody owns `writer_queue` or has `reader_queue`.
    reader_goes_on :
        weight (entering A) n s.pc + (weight (releasing A) n s.pc + weight (queueing A) n s.pc) ≡ 0
        → (i : ℕ) → i < n
        → s.pc i ≢ idle
        → SomeGoesOn n s
    reader_goes_on nobody i lt busy = (
      i,
      lt,
      busy,
      step_of s.var (s.pc i) busy
          (λ e.
            absurd (omega (arith, nobody, weight-ge (entering A) n s.pc i lt, ap (entering A) e)))
          (λ c e. omega (arith, nobody, v.queue)),
    )

    goes_on : (i : ℕ) → i < n → s.pc i ≢ idle → SomeGoesOn n s
    goes_on i lt busy = elim (dec_lt 0 (weight (owning A) n s.pc)) [
      | yes owned ↦
          let (j, below, owns) = weight-member (owning A) n s.pc owned in owner_goes_on j below owns
      | no not_owned ↦ elim (dec_lt 0 (weight (entering A) n s.pc)) [
        | yes some_enter ↦
            let (j, below, w) = weight-member (entering A) n s.pc some_enter in
            queued_goes_on (omega arith) j below (omega arith)
        | no none_enter ↦ elim (dec_lt 0 (weight (releasing A) n s.pc)) [
          | yes some_release ↦
              let (j, below, w) = weight-member (releasing A) n s.pc some_release in
              queued_goes_on (omega arith) j below (omega arith)
          | no none_release ↦ elim (dec_lt 0 (weight (queueing A) n s.pc)) [
            | yes some_queue ↦
                let (j, below, w) = weight-member (queueing A) n s.pc some_queue in
                queued_goes_on (omega arith) j below (omega arith)
            | no none_queue ↦ reader_goes_on (omega arith) i lt busy
          ]
        ]
      ]
    ]

  -- In any reachable state of any number of threads, if some thread is in a method, then a thread
  -- that is in a method can make its next step.
  pub no_deadlock :
      (n : ℕ) (init_val : A) (s : System A) (i : ℕ)
      → Reach A n init_val s
      → i < n
      → s.pc i ≢ idle
      → SomeGoesOn n s
  no_deadlock n init_val s i r lt busy = goes_on n s (Reach-IsLocked A n init_val s r) i lt busy
