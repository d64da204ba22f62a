-- ===== src/Examples/Queues.antt =====
-- A thread that pushes to a queue, and one that writes to a variable.
use inf.Base.{[], arith, eq_str, eq_ℕ, none, refl, some, update, ℕ, ◌<◌, ◌∷◌, ◌≡◌}
use inf.Server.Connections.{eq_address}
use inf.Shared.Atomic.Guarded.{Guarded, Reach, access, enter, later, leave, start}
use inf.Shared.Atomic.Var.{
  Knows, VarBody, VarDone, VarLocal, VarStart, have_written, var_exclusive, write, write_store,
  writing,
}
use inf.Shared.Atomic.VecQueue.{
  IsFifo, VecBody, VecDone, VecStart, insert_all, new_vec, push, push_back, push_returns,
  pushed_one, pushing, vec-IsFifo,
}

abbrev VecThreads : Type 0
VecThreads = Guarded (VecStart ℕ) (VecBody ℕ) (VecDone ℕ)

abbrev pushed_seven : VecThreads
pushed_seven = record {
  object = insert_all ℕ (new_vec ℕ) (7 ∷ []);
  semaphore = 1;
  thread = update (update (update (λ i. none) 0 (some (pushing 7))) 0 (some pushed_one)) 0 none;
}

seven-Reach : Reach (VecStart ℕ) (VecBody ℕ) (VecDone ℕ) 1 (new_vec ℕ) pushed_seven
seven-Reach =
    later
      (later (later start (enter 0 (pushing 7) (omega arith) refl (omega arith) (push 7) refl)) (
        access 0 (pushing 7) pushed_one (insert_all ℕ (new_vec ℕ) (7 ∷ [])) (omega arith) refl
          (push_back 7) refl))
      (leave 0 pushed_one (omega arith) refl push_returns refl)

vec-IsFifo_example : IsFifo ℕ pushed_seven.object
vec-IsFifo_example = vec-IsFifo ℕ 1 pushed_seven seven-Reach

abbrev VarThreads : Type 0
VarThreads = Guarded (VarStart ℕ) (VarBody ℕ) (VarDone ℕ)

abbrev wrote_three : VarThreads
wrote_three = record {
  object = 3;
  semaphore = 0;
  thread = update (update (λ i. none) 1 (some (writing 3))) 1 (some (have_written 3));
}

three-Reach : Reach (VarStart ℕ) (VarBody ℕ) (VarDone ℕ) 2 0 wrote_three
three-Reach =
    later (later start (enter 1 (writing 3) (omega arith) refl (omega arith) (write 3) refl))
      (access 1 (writing 3) (have_written 3) 3 (omega arith) refl (write_store 3) refl)

var_exclusive_example :
    Knows ℕ 3 (have_written 3)
    × ((j : ℕ) (l' : VarLocal ℕ) → j < 2 → wrote_three.thread j ≡ some l' → 1 ≡ j)
var_exclusive_example =
    var_exclusive ℕ 2 0 wrote_three 1 (have_written 3) three-Reach (omega arith) refl
