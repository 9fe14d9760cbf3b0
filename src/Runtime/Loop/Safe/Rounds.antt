-- ===== src/Runtime/Loop/Safe/Rounds.antt =====
-- Events and tasks of one round (_bb_runtime_wait and bb_runtime_tick of modules/runtime/src/runtime.c).
use blue_bird.Prelude.{
  Option, ℕ, zero, suc, ◌+◌, ◌≤◌, ◌<◌, ◌≡◌, ◌⊎◌, inl, inr, refl, sym, ◌∙◌, Bool, true, false, not,
  ◌&&◌, ◌||◌, List, [], ◌∷◌, none, some, arith, ◌==◌, if◌then◌else◌, if_true, if_same, ◌>>=◌,
  length, count, bit, total, get_elem?, swap_remove, swap_remove-Removed, Bool-cases, Option-cases,
}
use Prim.Native.Nat.{bit_and}
use blue_bird.Runtime.Poller.{poller_unregister}
use blue_bird.Runtime.Task.{run, execute_begin, execute_end}
use blue_bird.Runtime.Scheduler.{Scheduler, schedule, next, take_next}
use blue_bird.Runtime.Loop.{
  WatchMode, persistent_mode, oneshot_mode, Watcher, Runtime, System, word, update, task_of,
  put_task, record_made, schedule_task, destroy_task,
}
use blue_bird.Runtime.Loop.Watch.{is_persistent_mode}
use blue_bird.Runtime.Loop.Tick.{
  Ready, dispatch_from, dispatch_all, wait_timeout, execute, serve_task, run_tasks, tick,
}
use blue_bird.Runtime.Loop.Safe.{IsSafe}
use blue_bird.Runtime.Loop.Safe.Parts.{schedule-Scheduled, schedule-Safe, fire_watcher-Safe, put}
use blue_bird.Runtime.Loop.Safe.Owners.{take-Safe, put-Safe}
use blue_bird.Runtime.Loop.Safe.Operations.{IsUnused, destroy_task-Safe}
use blue_bird.Runtime.Loop.Safe.Callbacks.{Uses, Uses-Safe}
use blue_bird.Runtime.Loop.Safe.Due.{is_due, update_timers-Updated}

total_of_element :
    (f : Watcher → ℕ) (watchers : List Watcher) (i : ℕ) (w : Watcher)
    → get_elem? watchers i ≡ some w
    → f w ≤ total f watchers
total_of_element f watchers i w e = omega (arith, (swap_remove-Removed watchers i w e).sums f)

-- A watcher that stays schedules its task.
notify-Safe :
    (held : ℕ → Bool) (system : System) (r : Runtime) (j : ℕ) (w : Watcher)
    → IsSafe held r
    → get_elem? r.watchers j ≡ some w
    → w.mode ≡ persistent_mode
    → IsSafe held (schedule_task system r w.task).0
unfolding schedule_task
notify-Safe held system r j w h e mode =
    let owned = total_of_element (λ x. bit (x.task == w.task)) r.watchers j w e in
    let lasts =
      total_of_element (λ x. bit (x.task == w.task && is_persistent_mode x.mode)) r.watchers j w
        e in
    schedule-Safe held r.scheduler r.watchers r.timers r.allocated w.task
      (schedule (system.node w.task) r.scheduler (some w.task)).0 h
      (schedule-Scheduled (system.node w.task) r.scheduler w.task h.marked)
      (ground (arith, h.owned w.task, owned))
      (inl (ground (arith, h.repeats w.task, rw mode at lasts)))

mode_cases : (m : WatchMode) → (m ≡ persistent_mode) ⊎ (m ≡ oneshot_mode)
mode_cases persistent_mode = inl refl
mode_cases oneshot_mode = inr refl

dispatch_from-Safe :
    (held : ℕ → Bool) (system : System) (fuel j : ℕ) (event : Ready) (r : Runtime)
    → IsSafe held r
    → IsSafe held (dispatch_from system fuel j event r)
unfolding dispatch_from
dispatch_from-Safe held system zero j event r h = h
dispatch_from-Safe held system (suc fuel) j event r h =
    elim (Option-cases (get_elem? r.watchers j)) [
      | inl n ↦ rw (n, dispatch_from) h
      | inr (w, e) ↦
          elim (Bool-cases
            (w.fd == event.ready_fd && not (bit_and w.events event.ready_events == 0))) [
              | inr other ↦
                  rw (e, dispatch_from)
                    (rw other (dispatch_from-Safe held system fuel (suc j) event r h))
              | inl matching ↦ elim (mode_cases w.mode) [
                | inl many ↦
                    rw (e, dispatch_from)
                      (rw matching (
                        rw many (
                          dispatch_from-Safe held system fuel (suc j) event
                            (schedule_task system r w.task).0
                            (notify-Safe held system r j w h e many))))
                | inr once ↦
                    rw (e, dispatch_from)
                      (rw matching (
                        rw once (
                          dispatch_from-Safe held system fuel j event
                            (record ((schedule_task system r w.task).0) {
                              poller = (poller_unregister r.poller w.fd w.events).0;
                              watchers = swap_remove r.watchers j;
                            })
                            (unfold schedule_task in
                              fire_watcher-Safe held r.scheduler r.watchers r.timers r.allocated j w
                                (schedule (system.node w.task) r.scheduler (some w.task)).0 h
                                (schedule-Scheduled (system.node w.task) r.scheduler w.task
                                  h.marked)
                                e))))
              ]
            ]
    ]

pub dispatch_all-Safe :
    (held : ℕ → Bool) (system : System) (events : List Ready) (r : Runtime)
    → IsSafe held r
    → IsSafe held (dispatch_all system events r)
unfolding dispatch_all
dispatch_all-Safe held system [] r h = h
dispatch_all-Safe held system (event ∷ events) r h =
    dispatch_all-Safe held system events (dispatch_from system (length r.watchers) 0 event r)
      (dispatch_from-Safe held system (length r.watchers) 0 event r h)

abbrev pub nobody : ℕ → Bool
nobody id = false

queue_cases : (queue : List ℕ) → (queue ≡ []) ⊎ ((id : ℕ) × (rest : List ℕ) × (queue ≡ id ∷ rest))
queue_cases [] = inl refl
queue_cases (id ∷ rest) = inr (id, rest, refl)

take_none : (s : Scheduler) → s.queue ≡ [] → (take_next s).1 ≡ none
unfolding take_next next
take_none s e = rw e refl

-- The runtime after the task at the head of the queue is taken.
abbrev take_task : ℕ → List ℕ → Runtime → Runtime
take_task id rest r = record r {
  scheduler = record (put r.scheduler id (record (task_of r id) { scheduled = false })) {
    queue = rest;
  };
}

take_first :
    (s : Scheduler) (id : ℕ) (rest : List ℕ)
    → s.queue ≡ id ∷ rest
    → ((take_next s).1 ≡ some id)
      × ((take_next s).0
          ≡ record (put s id (record (s.tasks id) { scheduled = false })) { queue = rest })
unfolding take_next next
take_first s id rest e = (rw e refl, rw e refl)

count_le : {A : Type 0} (p : A → Bool) (xs : List A) → count p xs ≤ length xs
count_le p [] = omega arith
count_le p (x ∷ xs) = ground (arith, count_le p xs)

-- After its execution a task is held no more.
release : (id : ℕ) (r : Runtime) → IsSafe (update nobody id true) r → IsSafe nobody r
release id r h = record {
  valid = h.valid;
  marked = h.marked;
  alive = λ g. ground (arith, h.alive g);
  owned = λ g. ground (arith, h.owned g);
  repeats = h.repeats;
}

module _ (call : ℕ → Runtime → Option Runtime)
    (polite : (id : ℕ) (r : Runtime) → IsSafe (update nobody id true) r → Uses r (call id r)) where
  execute-Safe :
      (id : ℕ) (r : Runtime)
      → (task_of r id).scheduled ≡ false
      → IsSafe (update nobody id true) r
      → (after : Runtime) × (execute call id r ≡ some after) × IsSafe (update nobody id true) after
  unfolding execute execute_begin execute_end
  execute-Safe id r idle h =
      elim (Bool-cases (not (task_of r id).has_run || (task_of r id).cancelled)) [
        | inl skip ↦ (r, rw (skip, execute, execute_begin) refl, h)
        | inr runs ↦
            let held = update nobody id true in
            let t = record (task_of r id) { scheduled = false; running = true } in
            let begun =
              put-Safe held r.scheduler r.watchers r.timers r.allocated id t h (sym idle) refl in
            let start = record_made id (run ∷ []) (put_task id t r) in
            let (called, ran, served) = Uses-Safe held (polite id start begun) begun in
            (
              put_task id (execute_end (task_of called id)) called,
              rw (runs, execute, execute_begin) (rw ran refl),
              put-Safe held called.scheduler called.watchers called.timers called.allocated id
                  (execute_end (task_of called id)) served refl refl,
            )
      ]

  -- A task that is done and waits nowhere is destroyed, and it is in no other place then.
  finish_task :
      (id : ℕ) (executed : Runtime)
      → IsSafe (update nobody id true) executed
      → (after : Runtime) × ((if (task_of executed id).scheduled || (task_of executed id).persistent
            then some executed
            else destroy_task executed id)
          ≡ some after)
        × IsSafe nobody after
  finish_task id executed h =
      let t = task_of executed id in
      elim (Bool-cases (t.scheduled || t.persistent)) [
        | inl waits ↦ (executed, rw waits refl, release id executed h)
        | inr idle ↦
            let unused : IsUnused nobody executed id = record {
              is_allocated = ground (arith, h.alive id);
              unwatched = ground (arith, h.owned id, idle);
              untimed = ground (arith, h.owned id, idle);
              unscheduled = ground (arith, idle);
              unheld = refl;
            } in
            let (after, ran, safe) =
              destroy_task-Safe nobody executed id (release id executed h) unused in
            (after, rw idle ran, safe)
      ]

  serve_task-Safe :
      (id : ℕ) (r : Runtime)
      → (task_of r id).scheduled ≡ false
      → IsSafe (update nobody id true) r
      → (after : Runtime) × (serve_task call id r ≡ some after) × IsSafe nobody after
  unfolding serve_task
  serve_task-Safe id r idle h = elim (Bool-cases (task_of r id).cancelled) [
    | inl cancelled ↦
        let (after, ran, safe) = finish_task id r h in (after, rw (cancelled, serve_task) ran, safe)
    | inr lives ↦
        let (executed, calls, held) = execute-Safe id r idle h in
        let (after, ran, safe) = finish_task id executed held in
        (after, rw (lives, serve_task) (rw calls ran), safe)
  ]

  run_round :
      (rounds : ℕ) (r : Runtime) (id : ℕ) (rest : List ℕ)
      → r.running ≡ true
      → r.scheduler.queue ≡ id ∷ rest
      → run_tasks call (suc rounds) r
        ≡ (serve_task call id (take_task id rest r) >>= λ served. run_tasks call rounds served)
  unfolding run_tasks
  run_round rounds r id rest running e =
      let (first, others) = take_first r.scheduler id rest e in
      rw first (
        rw others (
          if_true r.running
            (serve_task call id (take_task id rest r) >>= λ served. run_tasks call rounds served)
            (some r) running))

  run_tasks-Safe :
      (rounds : ℕ) (r : Runtime)
      → IsSafe nobody r
      → (after : Runtime) × (run_tasks call rounds r ≡ some after) × IsSafe nobody after
  unfolding run_tasks
  run_tasks-Safe zero r h = (r, refl, h)
  run_tasks-Safe (suc rounds) r h = elim (Bool-cases r.running) [
    | inr stopped ↦ (r, rw (stopped, run_tasks) refl, h)
    | inl running ↦ elim (queue_cases r.scheduler.queue) [
      | inl empty ↦ (r, rw (take_none r.scheduler empty) (if_same r.running (some r)), h)
      | inr (id, rest, e) ↦
          let (alive, held) =
            take-Safe nobody r.scheduler r.watchers r.timers r.allocated id rest h e in
          let (served, ran, safe) = serve_task-Safe id (take_task id rest r) (ground arith) held in
          let (after, runs, safe') = run_tasks-Safe rounds served safe in
          (after, run_round rounds r id rest running e ∙ rw ran runs, safe')
    ]
  ]

  -- If callbacks only make allowed calls of the interface, which they do where the invariant holds,
  -- the time is before the clock's last millisecond and the invariant holds, then for any events,
  -- memory and number of served tasks a round of the loop, its callbacks' calls included, destroys no
  -- task twice and reads no array outside, and the invariant holds after it.
  pub tick-Safe :
      (system : System) (before now : ℕ) (ready : ℕ → List Ready) (rounds : ℕ) (r : Runtime)
      → suc now < word
      → IsSafe nobody r
      → (after : Runtime) × (tick call system before now ready rounds r ≡ some after)
        × IsSafe nobody after
  unfolding tick
  tick-Safe system before now ready rounds r fits h =
      let waited = dispatch_all system (ready (wait_timeout r before)) r in
      let (updated, ran, u) =
        update_timers-Updated nobody system (length waited.timers.items + 1) now waited fits
          (omega (arith, count_le (is_due now) waited.timers.items))
          (dispatch_all-Safe nobody system (ready (wait_timeout r before)) r h) in
      let (after, runs, safe) = run_tasks-Safe rounds updated u.safe in
      (after, rw (ran, tick) runs, safe)
