-- ===== src/Server/Worker/Finish.antt =====
-- Once the flag is set, the worker leaves, and what was pushed is handled.
use inf.Base.{Bool, List, [], ap, eq_str, eq_ℕ, false, refl, true, ◌∙◌, ◌∷◌, ◌≡◌}
use inf.Server.Connections.{eq_address}
use inf.Server.Worker.{
  Reach, Threads, WorkerPc, WorkerRun, WorkerStep, at_drain, at_flag, break_loop, by_worker, drain,
  exited, handle, handling, here, next_round, read_flag, step,
}
use inf.Server.Worker.Shutdown.{exited_handled}

module _ (A : Type 0) where
  -- The worker alone gets to its end, with all handled that was pushed.
  abbrev Leaves : Threads A → Type 0
  Leaves s = (t : Threads A) × WorkerRun A s t × (t.worker_pc ≡ exited)

  Leaves-after : (s t : Threads A) → WorkerStep A s t → (Leaves t) → Leaves s
  Leaves-after s t w (r, run, e) = (r, step w run, e)

  step_keeps :
      (s t : Threads A)
      → WorkerStep A s t
      → (t.pushed ≡ s.pushed) × (t.must_terminate ≡ s.must_terminate)
  step_keeps s t (read_flag e same) = rw same (refl, refl)
  step_keeps s t (drain flag e same) = rw same (refl, refl)
  step_keeps s t (handle flag x batch e same) = rw same (refl, refl)
  step_keeps s t (next_round e same) = rw same (refl, refl)
  step_keeps s t (break_loop e same) = rw same (refl, refl)

  run_keeps : (s t : Threads A) → WorkerRun A s t → t.pushed ≡ s.pushed
  run_keeps s t here = refl
  run_keeps s t (step {t = u} w run) = run_keeps u t run ∙ (step_keeps s u w).0

  run-Reach : (s t : Threads A) → Reach A s → WorkerRun A s t → Reach A t
  run-Reach s t r here = r
  run-Reach s t r (step {t = u} w run) = run-Reach u t (by_worker r w) run

  -- From a batch, the worker gets to its end if it does from each state after it.
  through_batch :
      (flag : Bool) (batch : List A) (s : Threads A)
      → s.worker_pc ≡ handling flag batch
      → ((u : Threads A)
          → u.worker_pc ≡ handling flag []
          → u.must_terminate ≡ s.must_terminate
          → Leaves u)
      → Leaves s
  through_batch flag [] s e after = after s e refl
  through_batch flag (x ∷ batch) s e after =
      Leaves-after s _ (handle flag x batch e refl) (through_batch flag batch _ refl after)

  last_batch : (batch : List A) (s : Threads A) → s.worker_pc ≡ handling true batch → Leaves s
  last_batch batch s e =
      through_batch true batch s e λ u h f. Leaves-after u _ (break_loop h refl) (_, here, refl)

  last_drain : (s : Threads A) → s.worker_pc ≡ at_drain true → Leaves s
  last_drain s e = Leaves-after s _ (drain true e refl) (last_batch s.queue _ refl)

  last_round : (s : Threads A) → s.worker_pc ≡ at_flag → s.must_terminate ≡ true → Leaves s
  last_round s e f =
      Leaves-after s _ (read_flag e refl) (last_drain _ (ap (λ (b : Bool). at_drain b) f))

  round :
      (batch : List A) (s : Threads A)
      → s.worker_pc ≡ handling false batch
      → s.must_terminate ≡ true
      → Leaves s
  round batch s e f =
      through_batch false batch s e
        λ u h g. Leaves-after u _ (next_round h refl) (last_round _ refl (g ∙ f))

  Leaves-from :
      (w : WorkerPc A) (s : Threads A) → s.worker_pc ≡ w → s.must_terminate ≡ true → Leaves s
  Leaves-from at_flag s e f = last_round s e f
  Leaves-from (at_drain true) s e f = last_drain s e
  Leaves-from (at_drain false) s e f =
      Leaves-after s _ (drain false e refl) (round s.queue _ refl f)
  Leaves-from (handling true batch) s e f = last_batch batch s e
  Leaves-from (handling false batch) s e f = round batch s e f
  Leaves-from exited s e f = (s, here, e)

  -- In every reachable state in which the flag is set, the worker can run to its end alone, and has
  -- then handled, in order, all that was pushed.
  pub worker_finishes :
      (s : Threads A)
      → Reach A s
      → s.must_terminate ≡ true
      → (t : Threads A) × WorkerRun A s t × (t.worker_pc ≡ exited) × (t.handled ≡ s.pushed)
  worker_finishes s r f =
      let (t, run, e) = Leaves-from s.worker_pc s refl f in
      (t, run, e, exited_handled A t (run-Reach s t r run) e ∙ run_keeps s t run)
