-- ===== src/Threads.antt =====
-- The worker threads: src/core/async_worker.cpp and src/core/thread_scheduler.cpp. A thread is where
-- it stands in its code, and what it does between two accesses to shared members is one turn.
pub mod Async
pub mod Timed
