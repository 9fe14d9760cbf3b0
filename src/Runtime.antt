-- ===== src/Runtime.antt =====
-- modules/runtime: timers, tasks and the scheduler.
pub mod TimerHeap
pub mod Poller
pub mod Task
pub mod Scheduler
pub mod Loop
