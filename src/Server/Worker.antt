-- ===== src/Server/Worker.antt =====
-- The loops of `fn_server_sender` (server/server_sender.cpp) and `fn_disk_io`
-- (server/disk_operations.cpp), against the main thread of server/server.cpp. The two loops are the
-- same but for what they do with an item: read `must_terminate`, drain the queue, handle each item,
-- and leave if `must_terminate` was set. The queue's and the flag's methods are single steps here.
pub mod Finish
pub mod Shutdown
use inf.Base.{Bool, List, [], eq_str, eq_ℕ, false, true, ◌++◌, ◌∷◌, ◌≡◌}
use inf.Server.Connections.{eq_address}

module _ (A : Type 0) where
  -- The main thread, which alone pushes: it sets the flag after its last push, and then joins.
  pub data MainPc : Type 0 where
    in_loop : MainPc
    joining : MainPc
    joined : MainPc

  pub data WorkerPc : Type 0 where
    at_flag : WorkerPc
    at_drain : (must_terminate : Bool) → WorkerPc
    handling : (must_terminate : Bool) → (batch : List A) → WorkerPc
    exited : WorkerPc

  -- `handled` is what the worker has done; `pushed`, which the code does not keep, is all that came.
  pub record Threads : Type 0 where
    pub main_pc : MainPc
    pub worker_pc : WorkerPc
    pub must_terminate : Bool
    pub queue : List A
    pub pushed : List A
    pub handled : List A

  abbrev pub new_threads : Threads
  new_threads = record {
    main_pc = in_loop;
    worker_pc = at_flag;
    must_terminate = false;
    queue = [];
    pushed = [];
    handled = [];
  }

  pub data MainStep (s t : Threads) : Type 0 where
    push :
        (x : A)
        → s.main_pc ≡ in_loop
        → t ≡ record s { queue = s.queue ++ x ∷ []; pushed = s.pushed ++ x ∷ [] }
        → MainStep s t
    set_terminate :
        s.main_pc ≡ in_loop
        → t ≡ record s { main_pc = joining; must_terminate = true }
        → MainStep s t
    join :
        s.main_pc ≡ joining
        → s.worker_pc ≡ exited
        → t ≡ record s { main_pc = joined }
        → MainStep s t

  pub data WorkerStep (s t : Threads) : Type 0 where
    read_flag :
        s.worker_pc ≡ at_flag
        → t ≡ record s { worker_pc = at_drain s.must_terminate }
        → WorkerStep s t
    drain :
        (flag : Bool)
        → s.worker_pc ≡ at_drain flag
        → t ≡ record s { worker_pc = handling flag s.queue; queue = [] }
        → WorkerStep s t
    handle :
        (flag : Bool) (x : A) (batch : List A)
        → s.worker_pc ≡ handling flag (x ∷ batch)
        → t ≡ record s { worker_pc = handling flag batch; handled = s.handled ++ x ∷ [] }
        → WorkerStep s t
    next_round :
        s.worker_pc ≡ handling false [] → t ≡ record s { worker_pc = at_flag } → WorkerStep s t
    break_loop :
        s.worker_pc ≡ handling true [] → t ≡ record s { worker_pc = exited } → WorkerStep s t

  pub data Reach : Threads → Type 0 where
    start : Reach new_threads
    by_main : {s t : Threads} → Reach s → MainStep s t → Reach t
    by_worker : {s t : Threads} → Reach s → WorkerStep s t → Reach t

  -- A run of the worker alone.
  pub data WorkerRun : Threads → Threads → Type 0 where
    here : {s : Threads} → WorkerRun s s
    step : {s t r : Threads} → WorkerStep s t → WorkerRun t r → WorkerRun s r
