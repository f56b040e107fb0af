-- ===== src/Pool.antt =====
-- lib/pthread_pool.c: the queue of the thread pool, and its threads.
pub mod Queue
pub mod Chain
pub mod Threads
pub mod Drain
pub mod Invariant
pub mod Safety
pub mod Awake
pub mod Progress
pub mod Start
pub mod End
pub mod Signals
pub mod Interface
mod Tests
