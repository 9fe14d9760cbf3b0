-- ===== src/Runtime/Loop/Safe/Operations.antt =====
-- Creating and destroying tasks keeps the invariant of the event loop
-- (modules/runtime/src/runtime.c).
use blue_bird.Prelude.{ℕ, ◌≡◌, ◌⊎◌, inl, inr, refl, Bool, true, false, Option, none, some, arith}
use blue_bird.Runtime.Task.{Task, completed, finalize, task_create}
use blue_bird.Runtime.Loop.{
  Runtime, update, record_made, task_of, put_task, create_task, destroy_task,
}
use blue_bird.Runtime.Loop.Safe.{IsSafe}
use blue_bird.Runtime.Loop.Safe.Parts.{create-Safe, Unused}
use blue_bird.Runtime.Loop.Safe.Owners.{destroy-Safe}

abbrev pub IsUnused : (ℕ → Bool) → Runtime → ℕ → Type 0
IsUnused held r id = Unused held r.scheduler r.watchers r.timers r.allocated id

-- What `calloc` returns is not a task already.
abbrev pub IsNew : Runtime → Option ℕ → Type 0
IsNew r none = Unit
IsNew r (some id) = r.allocated id ≡ false

pub create_task-Safe :
    (held : ℕ → Bool) (r : Runtime) (new : Option ℕ) (has_run has_cleanup : Bool)
    → IsSafe held r
    → IsNew r new
    → (create_task new has_run has_cleanup r ≡ none)
      ⊎ ((id : ℕ) × (created : Runtime) × (create_task new has_run has_cleanup r
            ≡ some (id, created))
          × IsSafe held created
          × IsUnused held created id)
unfolding create_task task_create
create_task-Safe held r none has_run has_cleanup h n = inl refl
create_task-Safe held r (some new) false has_cleanup h n = inl refl
create_task-Safe held r (some new) true has_cleanup h n =
    let t : Task = record {
      scheduled = false;
      running = false;
      cancelled = false;
      persistent = false;
      finalized = false;
      has_run = true;
      has_cleanup = has_cleanup;
    } in
    let made = create-Safe held r.scheduler r.watchers r.timers r.allocated new t h n refl refl in
    inr (
      new,
      record (put_task new t r) { allocated = update r.allocated new true },
      refl,
      made.0,
      made.1,
    )

finalize_scheduled : (t : Task) → t.scheduled ≡ false → (finalize t completed).0.scheduled ≡ false
unfolding finalize
finalize_scheduled t e = ground (arith, e)

pub destroy_task-Safe :
    (held : ℕ → Bool) (r : Runtime) (id : ℕ)
    → IsSafe held r
    → IsUnused held r id
    → (after : Runtime) × (destroy_task r id ≡ some after) × IsSafe held after
unfolding destroy_task
destroy_task-Safe held r id h u =
    let f = finalize (task_of r id) completed in
    (
      record (record_made id f.1 (put_task id f.0 r)) { allocated = update r.allocated id false },
      rw (u.is_allocated) refl,
      destroy-Safe held r.scheduler r.watchers r.timers r.allocated id f.0 h u
          (finalize_scheduled (task_of r id) u.unscheduled),
    )
