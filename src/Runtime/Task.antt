-- ===== src/Runtime/Task.antt =====
-- modules/runtime/src/task.c: the state bits of a task, as Booleans.
--
-- `BB_TASK_IDLE` is all bits clear. Callbacks are the client's: what is recorded is that they are
-- called. A task pointer is not NULL; for NULL each operation returns at once.
pub mod Laws
mod Tests
use blue_bird.Prelude.{
  ℕ, Bool, true, false, not, ◌&&◌, ◌||◌, List, [], ◌∷◌, Option, none, some, if◌then◌else◌,
}

-- struct bb_task: the bits of `state`, and which callbacks `config` has.
pub record Task : Type 0 where
  pub scheduled : Bool
  pub running : Bool
  pub cancelled : Bool
  pub persistent : Bool
  pub finalized : Bool
  pub has_run : Bool
  pub has_cleanup : Bool

-- The results of bb_task_result_t that the source passes to `cleanup`.
pub data TaskResult : Type 0 where
  completed cancelled_result : TaskResult

pub data Callback : Type 0 where
  run : Callback
  cleanup : TaskResult → Callback

-- The flags are the callbacks of the configuration and the success of `calloc`; `none` is NULL.
unfoldable pub task_create : Bool → Bool → Bool → Option Task
task_create has_run has_cleanup alloc =
    if not has_run
    then none
    else if not alloc
    then none
    else some (record {
      scheduled = false;
      running = false;
      cancelled = false;
      persistent = false;
      finalized = false;
      has_run = has_run;
      has_cleanup = has_cleanup;
    })

unfoldable pub finalize : Task → TaskResult → Task × List Callback
finalize task result =
    if task.finalized
    then (task, [])
    else (record task { finalized = true }, if task.has_cleanup then cleanup result ∷ [] else [])

-- The callbacks that destroying a task makes; the task is then gone.
unfoldable pub task_destroy : Task → List Callback
unfolding finalize
task_destroy task = (finalize task completed).1

-- The part of `bb_task_execute` in front of the callback; `none` if it returns at once. What the
-- callback does to the task stands between this and `execute_end`.
unfoldable pub execute_begin : Task → Option Task
execute_begin task =
    if not task.has_run || task.cancelled
    then none
    else some (record task { scheduled = false; running = true })

unfoldable pub execute_end : Task → Task
execute_end task = record task { running = false }

-- `task->state |= BB_TASK_PERSISTENT`, as the event loop does it.
abbrev pub make_persistent : Task → Task
make_persistent task = record task { persistent = true }

unfoldable pub cancel : Task → Task × List Callback
unfolding finalize
cancel task = finalize (record task { cancelled = true; persistent = false }) cancelled_result

unfoldable pub is_cancelled : Task → Bool
is_cancelled task = task.cancelled

unfoldable pub is_scheduled : Task → Bool
is_scheduled task = task.scheduled
