-- ===== src/Runtime/Task/Laws.antt =====
-- What the life of a task guarantees (modules/runtime/src/task.c).
use mathlib.Core.Path.{subst}
use blue_bird.Prelude.{
  ℕ, sym, ◌∙◌, Option, ◌+◌, ◌≡◌, refl, Bool, true, false, List, [], ◌∷◌, ◌++◌, some, arith,
  if◌then◌else◌, bit, count, count-append,
}
use blue_bird.Runtime.Task.{
  Task, completed, Callback, run, cleanup, task_create, finalize, task_destroy, execute_begin,
  execute_end, cancel, make_persistent,
}
use blue_bird.Runtime.Scheduler.{Scheduler, schedule, next, take_next}

-- What happens to a task from one state to another, and the callbacks made on the way: a scheduler,
-- in whose store it is, schedules a task or takes the next one, it is made persistent or
-- cancelled, or executed, and while its callback runs any of this may happen again.
pub data Life : Task → Task → List Callback → Type 0 where
  nothing : {t : Task} → Life t t []
  schedules :
      {t v : Task} {made : List Callback} (alloc : Bool) (s : Scheduler) (any : Option ℕ) (id : ℕ)
      → s.tasks id ≡ t
      → Life ((schedule alloc s any).0.tasks id) v made
      → Life t v made
  takes :
      {t v : Task} {made : List Callback} (s : Scheduler) (id : ℕ)
      → s.tasks id ≡ t
      → Life ((take_next s).0.tasks id) v made
      → Life t v made
  persists : {t v : Task} {made : List Callback} → Life (make_persistent t) v made → Life t v made
  cancels :
      {t u v : Task} {made more : List Callback}
      → cancel t ≡ (u, made)
      → Life u v more
      → Life t v (made ++ more)
  executes :
      {t u v w : Task} {inside more : List Callback}
      → execute_begin t ≡ some u
      → Life u v inside
      → Life (execute_end v) w more
      → Life t w (run ∷ (inside ++ more))

-- A step that makes no callback and leaves what the cleanup and the cancellation depend on.
record Quiet (t u : Task) : Type 0 where
  same_cleanup : u.has_cleanup ≡ t.has_cleanup
  same_finalized : u.finalized ≡ t.finalized
  same_cancelled : u.cancelled ≡ t.cancelled

schedule-Quiet :
    (alloc : Bool) (s : Scheduler) (any : Option ℕ) (id : ℕ)
    → Quiet (s.tasks id) ((schedule alloc s any).0.tasks id)
unfolding schedule
schedule-Quiet alloc s any id = record {
  same_cleanup = ground arith;
  same_finalized = ground arith;
  same_cancelled = ground arith;
}

take_next-Quiet : (s : Scheduler) (id : ℕ) → Quiet (s.tasks id) ((take_next s).0.tasks id)
unfolding take_next next
take_next-Quiet s id = record {
  same_cleanup = ground arith;
  same_finalized = ground arith;
  same_cancelled = ground arith;
}

abbrev pub is_cleanup : Callback → Bool
is_cleanup run = false
is_cleanup (cleanup r) = true

abbrev pub is_run : Callback → Bool
is_run run = true
is_run (cleanup r) = false

-- Cleanups made so far are accounted for by the finalized bit.
record Accounts (t u : Task) (made : List Callback) : Type 0 where
  same_cleanup : t.has_cleanup ≡ u.has_cleanup
  counted :
      (if t.has_cleanup then count is_cleanup made + bit t.finalized else count is_cleanup made)
      ≡ (if t.has_cleanup then bit u.finalized else 0)

cancel-Accounts : (t u : Task) (made : List Callback) → cancel t ≡ (u, made) → Accounts t u made
unfolding cancel
cancel-Accounts t u made e = ground arith

Accounts-append :
    (t u v : Task) (made more : List Callback)
    → Accounts t u made
    → Accounts u v more
    → Accounts t v (made ++ more)
Accounts-append t u v made more a b =
    ground (
      arith,
      count-append is_cleanup made more,
      a.same_cleanup,
      b.same_cleanup,
      a.counted,
      b.counted,
    )

execute_begin-Accounts :
    (t u : Task) → execute_begin t ≡ some u → Accounts t u (run ∷ []) × (t.cancelled ≡ false)
unfolding execute_begin
execute_begin-Accounts t u e = ground arith

execute_end-Accounts : (t : Task) → Accounts t (execute_end t) []
unfolding execute_end
execute_end-Accounts t = record { same_cleanup = refl; counted = ground arith }

Quiet-Accounts :
    (t u v : Task) (made : List Callback) → Quiet t u → Accounts u v made → Accounts t v made
Quiet-Accounts t u v made q a = record {
  same_cleanup = sym q.same_cleanup ∙ a.same_cleanup;
  counted = ground (arith, q.same_cleanup, q.same_finalized, a.counted);
}

Life-Accounts : {t u : Task} {made : List Callback} → Life t u made → Accounts t u made
Life-Accounts nothing = record { same_cleanup = refl; counted = ground arith }
Life-Accounts (schedules {t} {v} {made} alloc s any id e l) =
    subst (λ x. Accounts x v made) e
      (Quiet-Accounts (s.tasks id) ((schedule alloc s any).0.tasks id) v made
        (schedule-Quiet alloc s any id) (Life-Accounts l))
Life-Accounts (takes {t} {v} {made} s id e l) =
    subst (λ x. Accounts x v made) e
      (Quiet-Accounts (s.tasks id) ((take_next s).0.tasks id) v made (take_next-Quiet s id)
        (Life-Accounts l))
Life-Accounts (persists {t} {v} {made} l) =
    Quiet-Accounts t (make_persistent t) v made
      (record { same_cleanup = refl; same_finalized = refl; same_cancelled = refl })
      (Life-Accounts l)
Life-Accounts (cancels {t} {u} {v} {made} {more} e l) =
    Accounts-append t u v made more (cancel-Accounts t u made e) (Life-Accounts l)
Life-Accounts (executes {t} {u} {v} {w} {inside} {more} e l k) =
    Accounts-append t u w (run ∷ []) (inside ++ more) (execute_begin-Accounts t u e).0 (
      Accounts-append u v w inside more (Life-Accounts l)
        (Accounts-append v (execute_end v) w [] more (execute_end-Accounts v) (Life-Accounts k)))

-- However a new task is scheduled, taken from the queue, made persistent, cancelled and executed before
-- it is destroyed, its cleanup is called exactly once in all, if it has one.
pub cleanup_once :
    {t u : Task} {made : List Callback} (has_run has_cleanup : Bool)
    → task_create has_run has_cleanup true ≡ some t
    → Life t u made
    → count is_cleanup (made ++ task_destroy u) ≡ bit has_cleanup
unfolding task_create task_destroy
cleanup_once {u} {made} has_run has_cleanup e l =
    let a = Life-Accounts l in
    ground (arith, count-append is_cleanup made (finalize u completed).1, a.same_cleanup, a.counted)
