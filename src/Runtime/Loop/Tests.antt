-- ===== src/Runtime/Loop/Tests.antt =====
-- Runs of the event loop, and the theorems about it at concrete runtimes.
use mathlib.Core.Path.{subst}
use blue_bird.Prelude.{
  sym, inl, inr, if_true, if_false, Bool-cases, Option-cases, ℕ, ◌+◌, ◌≡◌, refl, Bool, true, false,
  ◌||◌, List, [], ◌∷◌, Option, none, some, arith, ◌==◌, if◌then◌else◌, bit, length,
}
use blue_bird.Runtime.TimerHeap.{Timer, Heap}
use blue_bird.Runtime.TimerHeap.Push.{IsValid}
use blue_bird.Runtime.Poller.{Poller}
use blue_bird.Runtime.Task.{Task}
use blue_bird.Runtime.Scheduler.{Scheduler}
use blue_bird.Runtime.Loop.{
  WatchMode, persistent_mode, oneshot_mode, Watcher, Runtime, System, update, word, task_of,
  cancel_task, schedule_ex,
}
use blue_bird.Runtime.Loop.Watch.{unwatch_fd}
use blue_bird.Runtime.Loop.Tick.{Ready, update_timers, tick, runtime_destroy}
use blue_bird.Runtime.Loop.Safe.{watches, timed, IsSafe}
use blue_bird.Runtime.Loop.Safe.Operations.{IsNew}
use blue_bird.Runtime.Loop.Safe.Callbacks.{
  Call, schedules, unwatches_fd, perform, IsAllowed, Uses, nothing, faults, goes_on,
}
use blue_bird.Runtime.Loop.Safe.Due.{Updated, update_timers-Updated}
use blue_bird.Runtime.Loop.Safe.Rounds.{nobody, tick-Safe}
use blue_bird.Runtime.Loop.Safe.End.{runtime_destroy-frees}

abbrev task : Bool → Bool → Task
task scheduled persistent = record {
  scheduled = scheduled;
  running = false;
  cancelled = false;
  persistent = persistent;
  finalized = false;
  has_run = true;
  has_cleanup = true;
}

-- Task 5 has a repeating timer, 6 a watcher that fires once, 7 waits in the queue.
abbrev sample : Runtime
sample = record {
  running = true;
  scheduler = record { queue = 7 ∷ []; tasks = λ id. task (id == 7) (id == 5) };
  poller = record { fds = record { fd = 3; events = 1 } ∷ []; capacity = 4 };
  watchers = record { fd = 3; events = 1; mode = oneshot_mode; task = 6 } ∷ [];
  watcher_capacity = 4;
  timers = record {
    items = record { interval_ms = 10; next_fire_ms = 20; repeating = true; task = 5 } ∷ [];
    capacity = 4;
  };
  allocated = λ id. id == 5 || (id == 6 || id == 7);
  made = [];
}

abbrev system : System
system = record {
  node = λ id. true;
  grows_watchers = true;
  grows_fds = true;
  grows_timers = true;
  supported = λ fd. true;
  backend = λ fd mask. true;
}

-- The same without memory for the queue.
abbrev full_system : System
full_system = record system { node = λ id. false }

abbrev fresh : Runtime → Option ℕ
fresh r = if r.allocated 9 then none else some 9

-- Task 7 schedules another one, for which there is no memory; the others stop watching.
abbrev chosen : ℕ → Runtime → Call
chosen id r = if id == 7 then schedules full_system (fresh r) true true else unwatches_fd system 3

abbrev call : ℕ → Runtime → Option Runtime
call id r = perform (chosen id r) r

fresh-IsNew : (r : Runtime) → IsNew r (fresh r)
fresh-IsNew r = elim (Bool-cases (r.allocated 9)) [
  | inl e ↦ subst (IsNew r) (sym (if_true (r.allocated 9) none (some 9) e)) tt
  | inr e ↦ subst (IsNew r) (sym (if_false (r.allocated 9) none (some 9) e)) e
]

chosen-IsAllowed : (id : ℕ) (r : Runtime) → IsAllowed (chosen id r) r
chosen-IsAllowed id r = elim (Bool-cases (id == 7)) [
  | inl e ↦ rw e (fresh-IsNew r)
  | inr e ↦ rw e tt
]

one_call : (c : Call) (r : Runtime) → IsAllowed c r → Uses r (perform c r)
one_call c r allowed = elim (Option-cases (perform c r)) [
  | inl e ↦ subst (Uses r) (sym e) (faults c allowed e)
  | inr (u, e) ↦ subst (Uses r) (sym e) (goes_on c allowed e nothing)
]

call-Uses : (id : ℕ) (r : Runtime) → IsSafe (update nobody id true) r → Uses r (call id r)
call-Uses id r h = one_call (chosen id r) r (chosen-IsAllowed id r)

sample-IsValid : IsValid sample.timers
sample-IsValid = grind arith

sample-IsSafe : IsSafe nobody sample
sample-IsSafe = record {
  valid = sample-IsValid;
  marked = λ id. ground arith;
  alive = λ id. ground arith;
  owned = λ id. ground arith;
  repeats = λ id. ground arith;
}

abbrev ready : ℕ → List Ready
ready timeout = record { ready_fd = 3; ready_events = 1 } ∷ []

update_timers-Updated_example :
    (after : Runtime) × (update_timers system 2 25 sample ≡ some after)
    × Updated nobody system 25 sample after
update_timers-Updated_example =
    update_timers-Updated nobody system 2 25 sample (omega arith) (omega arith) sample-IsSafe

tick-Safe_example :
    (after : Runtime) × (tick call system 20 25 ready 10 sample ≡ some after) × IsSafe nobody after
tick-Safe_example =
    tick-Safe call call-Uses system 20 25 ready 10 sample (omega arith) sample-IsSafe

runtime_destroy-frees_example :
    (after : Runtime) × (runtime_destroy sample ≡ some after)
    × ((g : ℕ)
        → bit (after.allocated g)
            + (if (task_of sample g).persistent then 0 else bit (task_of sample g).scheduled)
            + watches sample.watchers g
            + timed sample.timers.items g
          ≡ bit (sample.allocated g))
runtime_destroy-frees_example = runtime_destroy-frees nobody sample sample-IsSafe

abbrev summary : Option Runtime → Option (Bool × Bool × Bool × ℕ)
summary none = none
summary (some r) = some (r.allocated 5, r.allocated 6, r.allocated 7, length r.made)

-- The round runs the three tasks, destroys two of them and the one that is not scheduled, each
-- with its clean-up, and leaves the timer.
run_one_round : summary (tick call system 20 25 ready 10 sample) ≡ some (true, false, false, 6)
unfolding update_timers tick unwatch_fd blue_bird.Runtime.Loop.schedule_ex
    blue_bird.Runtime.Loop.create_task blue_bird.Runtime.Task.task_create
    blue_bird.Runtime.Loop.Tick.dispatch_all blue_bird.Runtime.Loop.Tick.dispatch_from
    blue_bird.Runtime.Loop.schedule_task blue_bird.Runtime.Loop.Tick.next_fire
    blue_bird.Runtime.Loop.Tick.run_tasks blue_bird.Runtime.Loop.Tick.serve_task
    blue_bird.Runtime.Loop.Tick.execute blue_bird.Runtime.Loop.Watch.unwatch_from
    blue_bird.Runtime.Loop.destroy_task blue_bird.Runtime.Loop.Tick.next_timeout_ms
    blue_bird.Runtime.Loop.Tick.wait_timeout blue_bird.Runtime.Loop.cancel_callback
    blue_bird.Runtime.TimerHeap.peek blue_bird.Runtime.TimerHeap.reschedule_top
    blue_bird.Runtime.TimerHeap.fire_at blue_bird.Runtime.TimerHeap.sift_down
    blue_bird.Runtime.TimerHeap.smaller blue_bird.Runtime.TimerHeap.swap
    blue_bird.Runtime.Scheduler.take_next blue_bird.Runtime.Scheduler.schedule
    blue_bird.Runtime.Scheduler.next blue_bird.Runtime.Scheduler.scheduler_is_empty
    blue_bird.Runtime.Task.execute_begin blue_bird.Runtime.Task.execute_end
    blue_bird.Runtime.Task.cancel blue_bird.Runtime.Task.finalize blue_bird.Runtime.Poller.find_fd
    blue_bird.Runtime.Poller.find_from blue_bird.Runtime.Poller.poller_unregister
    blue_bird.Runtime.Poller.without
run_one_round = refl
