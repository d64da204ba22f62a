-- ===== src/Examples/Workers.antt =====
-- A worker that is given one item, and told to end.
use inf.Base.{
  Bool, Option, [], eq_str, eq_ℕ, nat_eq, none, refl, some, suc, true, zero, ℕ, ◌++◌, ◌+◌, ◌∷◌, ◌≡◌,
}
use inf.Server.Connections.{eq_address}
use inf.Server.Worker.{
  Reach, Threads, WorkerRun, at_flag, break_loop, by_main, by_worker, drain, exited, handle, join,
  joined, joining, push, read_flag, set_terminate, start,
}
use inf.Server.Worker.Finish.{worker_finishes}
use inf.Server.Worker.Shutdown.{all_handled}
use inf.Shared.Sockets.{find_socket}
use inf.Shared.Sockets.Leaks.{as_list, find_socket_lem, first_usable}

abbrev told : Threads ℕ
told = record {
  main_pc = joining;
  worker_pc = at_flag;
  must_terminate = true;
  queue = 7 ∷ [];
  pushed = 7 ∷ [];
  handled = [];
}

told-Reach : Reach ℕ told
told-Reach = by_main (by_main start (push 7 refl refl)) (set_terminate refl refl)

abbrev ended : Threads ℕ
ended = record told { main_pc = joined; worker_pc = exited; queue = []; handled = 7 ∷ [] }

ended-Reach : Reach ℕ ended
ended-Reach =
    by_main
      (by_worker
        (by_worker (by_worker (by_worker told-Reach (read_flag refl refl)) (drain true refl refl))
          (handle true 7 [] refl refl))
        (break_loop refl refl))
      (join refl refl refl)

all_handled_example : ended.handled ≡ ended.pushed
all_handled_example = all_handled ℕ ended ended-Reach refl

worker_finishes_example :
    (t : Threads ℕ) × WorkerRun ℕ told t × (t.worker_pc ≡ exited) × (t.handled ≡ told.pushed)
worker_finishes_example = worker_finishes ℕ told told-Reach refl

-- Three candidates: no socket can be made for the first, the second cannot be attached.
abbrev made : ℕ → Option ℕ
made zero = none
made (suc n) = some (10 + n)

abbrev attached : ℕ → ℕ → Bool
attached c socket_descriptor = nat_eq c 2

find_socket_lem_example :
    ((find_socket ℕ made attached (some (0 ∷ 1 ∷ 2 ∷ []))).found
      ≡ first_usable ℕ made attached (0 ∷ 1 ∷ 2 ∷ []))
    × ((find_socket ℕ made attached (some (0 ∷ 1 ∷ 2 ∷ []))).opened
        ≡ (find_socket ℕ made attached (some (0 ∷ 1 ∷ 2 ∷ []))).closed
          ++ as_list (find_socket ℕ made attached (some (0 ∷ 1 ∷ 2 ∷ []))).found)
find_socket_lem_example = find_socket_lem ℕ made attached (0 ∷ 1 ∷ 2 ∷ [])
