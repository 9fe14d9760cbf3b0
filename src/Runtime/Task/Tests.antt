-- ===== src/Runtime/Task/Tests.antt =====
-- Tasks at concrete inputs.
use blue_bird.Prelude.{some, ◌≡◌, refl, true, false, [], ◌∷◌, ◌++◌, bit, count}
use blue_bird.Runtime.Task.{
  Task, cancelled_result, run, cleanup, task_create, task_destroy, execute_begin, execute_end,
  cancel, make_persistent,
}
use blue_bird.Runtime.Scheduler.{Scheduler, schedule, take_next}
use blue_bird.Runtime.Task.Laws.{
  Life, nothing, schedules, takes, persists, cancels, executes, is_cleanup, cleanup_once,
}

abbrev new_task : Task
new_task = record {
  scheduled = false;
  running = false;
  cancelled = false;
  persistent = false;
  finalized = false;
  has_run = true;
  has_cleanup = true;
}

abbrev begun : Task
begun = record new_task { running = true }

abbrev gone : Task
gone = record begun { cancelled = true; finalized = true }

-- The stores of a scheduler with the one task, before it is scheduled and after.
abbrev idle_store : Scheduler
idle_store = record { queue = []; tasks = λ id. make_persistent new_task }

abbrev full_store : Scheduler
full_store = (schedule true idle_store (some 3)).0

-- A persistent task waits in the queue, and its callback cancels it.
cancels_itself : Life new_task (execute_end gone) (run ∷ cleanup cancelled_result ∷ [])
unfolding execute_begin execute_end cancel schedule take_next
cancels_itself = persists (
    schedules true idle_store (some 3) 3 refl
      (takes full_store 3 refl (executes refl (cancels refl nothing) nothing)))

cleanup_once_example :
    count is_cleanup ((run ∷ cleanup cancelled_result ∷ []) ++ task_destroy (execute_end gone))
    ≡ bit true
unfolding task_create
cleanup_once_example = cleanup_once true true refl cancels_itself

abbrev cancelled_early : Task
cancelled_early = record new_task { cancelled = true; finalized = true }
