-- ===== src/Runtime/Loop/Safe.antt =====
-- Who owns a task: the invariant of the event loop (modules/runtime/src/runtime.c).
--
-- A task that is not persistent is in one place only: it has one watcher, or one timer, or waits in
-- the queue, or is being executed. A persistent one has one watcher or one timer, and may wait or be
-- executed besides. A task that is not allocated is nowhere.
pub mod Parts
pub mod Owners
pub mod Operations
pub mod Cancelling
pub mod Timers
pub mod Watching
pub mod Callbacks
pub mod Due
pub mod Rounds
pub mod End
use blue_bird.Prelude.{
  ℕ, ◌+◌, ◌≤◌, ◌≡◌, Bool, true, false, ◌&&◌, ◌||◌, List, [], ◌∷◌, Option, none, some, ◌==◌,
  if◌then◌else◌, count, bit, total, swap_remove,
}
use blue_bird.Runtime.TimerHeap.{Timer, Heap}
use blue_bird.Runtime.TimerHeap.Push.{IsValid}
use blue_bird.Runtime.TimerHeap.RemoveTask.{owned_by}
use blue_bird.Runtime.Task.{Task}
use blue_bird.Runtime.Scheduler.{Scheduler, IsMarked}
use blue_bird.Runtime.Loop.{WatchMode, persistent_mode, oneshot_mode, Watcher, Runtime}
use blue_bird.Runtime.Loop.Watch.{is_persistent_mode}

-- How many watchers, and how many timers, a task has.
abbrev pub watches : List Watcher → ℕ → ℕ
watches watchers id = total (λ w. bit (w.task == id)) watchers

abbrev pub timed : List Timer → ℕ → ℕ
timed timers id = count (owned_by id) timers

-- How many of them fire more than once.
abbrev pub lasting : List Watcher → List Timer → ℕ → ℕ
lasting watchers timers id =
    total (λ w. bit (w.task == id && is_persistent_mode w.mode)) watchers
    + count (λ t. t.task == id && t.repeating) timers

-- The invariant, for the tasks that are being executed.
pub record Safe (held : ℕ → Bool) (s : Scheduler) (watchers : List Watcher) (timers : Heap)
    (allocated : ℕ → Bool) : Type 0 where
  pub valid : IsValid timers
  pub marked : IsMarked s
  pub alive : (id : ℕ) → bit ((s.tasks id).scheduled || held id) ≤ bit (allocated id)
  pub owned :
      (id : ℕ)
      → watches watchers id
          + timed timers.items id
          + (if (s.tasks id).persistent then 0 else bit ((s.tasks id).scheduled || held id))
        ≤ bit (allocated id)
  pub repeats : (id : ℕ) → lasting watchers timers.items id ≤ bit (s.tasks id).persistent

abbrev pub IsSafe : (ℕ → Bool) → Runtime → Type 0
IsSafe held r = Safe held r.scheduler r.watchers r.timers r.allocated
