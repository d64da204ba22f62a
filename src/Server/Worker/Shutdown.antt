-- ===== src/Server/Worker/Shutdown.antt =====
-- What is pushed before the flag is set is handled before the main thread goes on.
use inf.Base.{
  Bool, List, [], ap, append-nil, append_assoc, eq_str, eq_ℕ, false, refl, sym, true, ◌++◌, ◌∙◌,
  ◌∷◌, ◌≡◌,
}
use inf.Server.Connections.{eq_address}
use inf.Server.Worker.{
  MainPc, MainStep, Reach, Threads, WorkerPc, WorkerStep, at_drain, at_flag, break_loop, by_main,
  by_worker, drain, exited, handle, handling, in_loop, join, joined, next_round, push, read_flag,
  set_terminate, start,
}

module _ (A : Type 0) where
  abbrev batch_of : WorkerPc A → List A
  batch_of (handling flag batch) = batch
  batch_of _ = []

  -- What the worker read last, and whether it has drained the queue since it read the flag as set.
  abbrev saw_flag : WorkerPc A → Bool
  saw_flag at_flag = false
  saw_flag (at_drain flag) = flag
  saw_flag (handling flag batch) = flag
  saw_flag exited = true

  abbrev is_last_round : WorkerPc A → Bool
  is_last_round (handling flag batch) = flag
  is_last_round exited = true
  is_last_round _ = false

  abbrev has_left : MainPc A → Bool
  has_left in_loop = false
  has_left _ = true

  is_last_round-saw_flag : (w : WorkerPc A) → is_last_round w ≡ true → saw_flag w ≡ true
  is_last_round-saw_flag at_flag e = absurd cc
  is_last_round-saw_flag (at_drain flag) e = absurd cc
  is_last_round-saw_flag (handling flag batch) e = e
  is_last_round-saw_flag exited e = refl

  record IsOrdered (s : Threads A) : Type 0 where
    kept : s.pushed ≡ s.handled ++ (batch_of s.worker_pc ++ s.queue)
    set : s.must_terminate ≡ has_left s.main_pc
    seen : saw_flag s.worker_pc ≡ true → s.must_terminate ≡ true
    drained : is_last_round s.worker_pc ≡ true → s.queue ≡ []
    waited : s.main_pc ≡ joined → s.worker_pc ≡ exited

  main-IsOrdered : (s t : Threads A) → IsOrdered s → MainStep A s t → IsOrdered t
  main-IsOrdered s t v (push x e same) = rw same (record {
    kept =
        ap (λ (l : List A). l ++ x ∷ []) v.kept
        ∙ (append_assoc s.handled (batch_of s.worker_pc ++ s.queue) (x ∷ [])
            ∙ ap (◌++◌ s.handled) (append_assoc (batch_of s.worker_pc) s.queue (x ∷ [])));
    set = v.set;
    seen = v.seen;
    drained = λ h. absurd (
        let f = v.seen (is_last_round-saw_flag s.worker_pc h) in
        let g = v.set ∙ ap has_left e in cc);
    waited = v.waited;
  })
  main-IsOrdered s t v (set_terminate e same) = rw same (record {
    kept = v.kept;
    set = refl;
    seen = λ h. refl;
    drained = v.drained;
    waited = λ h. absurd cc;
  })
  main-IsOrdered s t v (join e e' same) = rw same (record {
    kept = v.kept;
    set = v.set ∙ rw e refl;
    seen = v.seen;
    drained = v.drained;
    waited = λ h. e';
  })

  worker-IsOrdered : (s t : Threads A) → IsOrdered s → WorkerStep A s t → IsOrdered t
  worker-IsOrdered s t v (read_flag e same) = rw same (record {
    kept = v.kept ∙ rw e refl;
    set = v.set;
    seen = λ h. h;
    drained = λ h. absurd cc;
    waited = λ h. absurd (let g = v.waited h in cc);
  })
  worker-IsOrdered s t v (drain flag e same) = rw same (record {
    kept =
        v.kept
        ∙ ap (λ (w : WorkerPc A). s.handled ++ (batch_of w ++ s.queue)) e
        ∙ ap (◌++◌ s.handled) (sym (append-nil s.queue));
    set = v.set;
    seen = λ h. v.seen (ap saw_flag e ∙ h);
    drained = λ h. refl;
    waited = λ h. absurd (let g = v.waited h in cc);
  })
  worker-IsOrdered s t v (handle flag x batch e same) = rw same (record {
    kept =
        v.kept
        ∙ ap (λ (w : WorkerPc A). s.handled ++ (batch_of w ++ s.queue)) e
        ∙ sym (append_assoc s.handled (x ∷ []) (batch ++ s.queue));
    set = v.set;
    seen = λ h. v.seen (ap saw_flag e ∙ h);
    drained = λ h. v.drained (ap is_last_round e ∙ h);
    waited = λ h. absurd (let g = v.waited h in cc);
  })
  worker-IsOrdered s t v (next_round e same) = rw same (record {
    kept = v.kept ∙ rw e refl;
    set = v.set;
    seen = λ h. absurd cc;
    drained = λ h. absurd cc;
    waited = λ h. absurd (let g = v.waited h in cc);
  })
  worker-IsOrdered s t v (break_loop e same) = rw same (record {
    kept = v.kept ∙ rw e refl;
    set = v.set;
    seen = λ h. v.seen (ap saw_flag e);
    drained = λ h. v.drained (ap is_last_round e);
    waited = λ h. refl;
  })

  Reach-IsOrdered : (s : Threads A) → Reach A s → IsOrdered s
  Reach-IsOrdered s start = record {
    kept = refl;
    set = refl;
    seen = λ h. absurd cc;
    drained = λ h. refl;
    waited = λ h. absurd cc;
  }
  Reach-IsOrdered s (by_main {s = t} r m) = main-IsOrdered t s (Reach-IsOrdered t r) m
  Reach-IsOrdered s (by_worker {s = t} r w) = worker-IsOrdered t s (Reach-IsOrdered t r) w

  pub exited_handled : (s : Threads A) → Reach A s → s.worker_pc ≡ exited → s.handled ≡ s.pushed
  exited_handled s r gone =
      let v = Reach-IsOrdered s r in
      let empty = v.drained (ap is_last_round gone) in
      sym (
        v.kept
        ∙ ap (λ (w : WorkerPc A). s.handled ++ (batch_of w ++ s.queue)) gone
        ∙ ap (λ (l : List A). s.handled ++ l) empty
        ∙ append-nil s.handled)

  -- In every reachable state in which the main thread has joined the worker, all that was pushed
  -- has been handled, in order.
  pub all_handled : (s : Threads A) → Reach A s → s.main_pc ≡ joined → s.handled ≡ s.pushed
  all_handled s r e = exited_handled s r ((Reach-IsOrdered s r).waited e)
