-- ===== src/Shared/Atomic.antt =====
-- shared/atomic.h: values that threads share under semaphores. A semaphore is its count: `sem_wait`
-- can step only where the count is positive. A call of a method is a run of steps of one thread, a
-- shared access at a time, and the threads' steps are interleaved in any order.
pub mod Guarded
pub mod Var
pub mod VecQueue
pub mod Readers
