-- ===== src/Runtime/Scheduler.antt =====
-- modules/runtime/src/scheduler.c: the queue of tasks to execute.
--
-- The linked list is the list of its task pointers, `head` first; a pointer is a number. The tasks
-- themselves are a store, since scheduling sets a bit of the task. The scheduler is not NULL.
pub mod Order
mod Tests
use blue_bird.Prelude.{
  ℕ, ◌+◌, ◌≡◌, refl, Bool, true, false, List, [], ◌∷◌, ◌++◌, Option, none, some, arith, ◌==◌,
  if◌then◌else◌, bit, count, count-append, length,
}
use blue_bird.Runtime.Task.{Task}

pub record Scheduler : Type 0 where
  pub queue : List ℕ
  pub tasks : ℕ → Task

-- `task->state |= BB_TASK_SCHEDULED`, or `&=` its complement, for one task of the store.
abbrev pub mark : Bool → ℕ → (ℕ → Task) → ℕ → Task
mark on id tasks other = if other == id then record (tasks id) { scheduled = on } else tasks other

-- The flag is the success of `malloc`; the result is whether 0 is returned, and not -1.
unfoldable pub schedule : Bool → Scheduler → Option ℕ → Scheduler × Bool
schedule alloc s none = (s, false)
schedule alloc s (some id) =
    if (s.tasks id).scheduled
    then (s, true)
    else if alloc
    then (record { queue = s.queue ++ id ∷ []; tasks = mark true id s.tasks }, true)
    else (s, false)

-- `bb_scheduler_next`; `none` is NULL.
unfoldable pub next : Scheduler → Scheduler × Option ℕ
next s = elim s.queue [ [] ↦ (s, none) | id ∷ rest ↦ (record s { queue = rest }, some id) ]

unfoldable pub scheduler_is_empty : Scheduler → Bool
scheduler_is_empty s = elim s.queue [ [] ↦ true | id ∷ rest ↦ false ]

-- How the event loop takes a task: the bit is cleared by the caller (`bb_runtime_tick` and
-- `bb_runtime_destroy` of modules/runtime/src/runtime.c).
unfoldable pub take_next : Scheduler → Scheduler × Option ℕ
unfolding next
take_next s =
    let r = next s in
    elim r.1 [ none ↦ r | some id ↦ (record (r.0) { tasks = mark false id s.tasks }, some id) ]

-- Each task is in the queue as often as its bit says: once, or not at all.
abbrev pub IsMarked : Scheduler → Type 0
IsMarked s = (id : ℕ) → count (λ other. other == id) s.queue ≡ bit (s.tasks id).scheduled
