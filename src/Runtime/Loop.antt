-- ===== src/Runtime/Loop.antt =====
-- modules/runtime/src/runtime.c: the state of the event loop, and what creates, cancels and destroys
-- tasks. Watch has the watchers of descriptors, Tick the loop itself.
--
-- A task is a pointer, a number, in the store of the scheduler; `allocated` says which pointers
-- are tasks now, and a new one is not allocated when `calloc` returns it. The callbacks of tasks are
-- recorded in `made`; what a `run` callback does to the runtime is an argument of Tick, and a
-- `cleanup` callback does nothing to it. Runtimes and tasks are not NULL.
-- `none` is a fault: a task is destroyed that is not allocated, or an array is read outside.
pub mod Watch
pub mod Tick
pub mod Safe
mod Tests
use blue_bird.Prelude.{
  ℕ, zero, suc, ◌+◌, ◌%◌, ◌^◌, Bool, true, false, List, [], ◌∷◌, ◌++◌, map, Option, none, some,
  ◌==◌, if◌then◌else◌, ◌>>=◌, length, get_elem?, swap_remove,
}
use blue_bird.Runtime.TimerHeap.{Heap, push, remove_task}
use blue_bird.Runtime.Poller.{Poller, poller_unregister}
use blue_bird.Runtime.Task.{
  Task, Callback, completed, task_create, make_persistent, finalize, cancel,
}
use blue_bird.Runtime.Scheduler.{Scheduler, schedule}

pub data WatchMode : Type 0 where
  persistent_mode oneshot_mode : WatchMode

-- _bb_runtime_watcher_t
pub record Watcher : Type 0 where
  pub fd : ℕ
  pub events : ℕ
  pub mode : WatchMode
  pub task : ℕ

-- struct bb_runtime
pub record Runtime : Type 0 where
  pub running : Bool
  pub scheduler : Scheduler
  pub poller : Poller
  pub watchers : List Watcher
  pub watcher_capacity : ℕ
  pub timers : Heap
  pub allocated : ℕ → Bool
  pub made : List (ℕ × Callback)

-- What the system reports: whether there is memory for the queue's entry of a task, and for larger
-- arrays, and what the backend says of a descriptor and a mask.
pub record System : Type 0 where
  pub node : ℕ → Bool
  pub grows_watchers : Bool
  pub grows_fds : Bool
  pub grows_timers : Bool
  pub supported : ℕ → Bool
  pub backend : ℕ → ℕ → Bool

abbrev pub word : ℕ
word = 2 ^ 64

abbrev pub update : {A : Type 0} → (ℕ → A) → ℕ → A → ℕ → A
update f id a other = if other == id then a else f other

abbrev pub task_of : Runtime → ℕ → Task
task_of r id = r.scheduler.tasks id

abbrev pub put_task : ℕ → Task → Runtime → Runtime
put_task id t r = record r {
  scheduler = record (r.scheduler) { tasks = update r.scheduler.tasks id t };
}

abbrev pub record_made : ℕ → List Callback → Runtime → Runtime
record_made id made r = record r { made = r.made ++ map (λ c. (id, c)) made }

-- `bb_scheduler_schedule`, with the queue of the runtime.
unfoldable pub schedule_task : System → Runtime → ℕ → Runtime × Bool
schedule_task system r id =
    let (s, ok) = schedule (system.node id) r.scheduler (some id) in
    (record r { scheduler = s }, ok)

-- `bb_task_create`, with the pointer that `calloc` returns and the callbacks of the configuration;
-- `none` is NULL.
unfoldable pub create_task : Option ℕ → Bool → Bool → Runtime → Option (ℕ × Runtime)
create_task none has_run has_cleanup r = none
create_task (some id) has_run has_cleanup r = elim (task_create has_run has_cleanup true) [
  | none ↦ none
  | some t ↦ some (id, record (put_task id t r) { allocated = update r.allocated id true })
]

-- `bb_task_destroy`
unfoldable pub destroy_task : Runtime → ℕ → Option Runtime
destroy_task r id =
    let (t, made) = finalize (task_of r id) completed in
    if r.allocated id
    then some
        (record (record_made id made (put_task id t r)) { allocated = update r.allocated id false })
    else none

-- `bb_task_cancel`
unfoldable pub cancel_callback : Runtime → ℕ → Runtime
cancel_callback r id =
    let (t, made) = cancel (task_of r id) in record_made id made (put_task id t r)

-- `_bb_runtime_remove_watchers` at index `i`; the fuel is the number of watchers to look at.
unfoldable pub remove_watchers : ℕ → ℕ → ℕ → Runtime → Runtime
remove_watchers zero i id r = r
remove_watchers (suc fuel) i id r = elim (get_elem? r.watchers i) [
  | none ↦ r
  | some w ↦ elim (w.task == id) [
    | true ↦ remove_watchers fuel i id (record r {
      poller = (poller_unregister r.poller w.fd w.events).0;
      watchers = swap_remove r.watchers i;
    })
    | false ↦ remove_watchers fuel (suc i) id r
  ]
]

unfoldable pub cancel_task : System → Runtime → ℕ → Option Runtime
cancel_task system r id =
    let cancelled = cancel_callback r id in
    let unwatched = remove_watchers (length cancelled.watchers) 0 id cancelled in
    remove_task unwatched.timers (some id) >>= λ swept.
    some (schedule_task system (record unwatched { timers = swept.0 }) id).0

-- The result is the task, or NULL.
unfoldable pub schedule_ex : System → Option ℕ → Bool → Bool → Runtime → Option (Runtime × Option ℕ)
schedule_ex system new has_run has_cleanup r = elim (create_task new has_run has_cleanup r) [
  | none ↦ some (r, none)
  | some (id, created) ↦
      let scheduled = schedule_task system created id in
      if scheduled.1
      then some (scheduled.0, some id)
      else (destroy_task scheduled.0 id >>= λ gone. some (gone, none))
]

-- What `bb_runtime_set_interval_ex` and `bb_runtime_set_timeout_ex` share: a timer for a task
-- that is created, or its destruction.
unfoldable pub push_timer : System → ℕ → ℕ → Bool → ℕ → Runtime → Option (Runtime × Option ℕ)
push_timer system now ms repeating id r =
    elim (push system.grows_timers r.timers ((now + ms) % word) ms repeating (some id)) [
      | none ↦ destroy_task r id >>= λ gone. some (gone, none)
      | some timers ↦ some (record r { timers = timers }, some id)
    ]

unfoldable pub set_interval_ex :
    System → ℕ → ℕ → Option ℕ → Bool → Bool → Runtime → Option (Runtime × Option ℕ)
set_interval_ex system now interval_ms new has_run has_cleanup r =
    elim (create_task new has_run has_cleanup r) [
      | none ↦ some (r, none)
      | some (id, created) ↦
          push_timer system now interval_ms true id
            (put_task id (make_persistent (task_of created id)) created)
    ]

unfoldable pub set_timeout_ex :
    System → ℕ → ℕ → Option ℕ → Bool → Bool → Runtime → Option (Runtime × Option ℕ)
set_timeout_ex system now timeout_ms new has_run has_cleanup r =
    elim (create_task new has_run has_cleanup r) [
      | none ↦ some (r, none)
      | some (id, created) ↦ push_timer system now timeout_ms false id created
    ]
