-- ===== src/Runtime/Loop/Tick.antt =====
-- One round of the event loop, and its end (modules/runtime/src/runtime.c).
use blue_bird.Prelude.{
  ℕ, zero, suc, ◌+◌, ◌-◌, ◌%◌, Bool, true, false, not, ◌&&◌, ◌||◌, List, [], ◌∷◌, Option, none,
  some, ◌==◌, ltb, leb, if◌then◌else◌, ◌>>=◌, length, get_elem?, swap_remove,
}
use Prim.Native.Nat.{bit_and}
use blue_bird.Runtime.TimerHeap.{Timer, Heap, peek, pop, reschedule_top}
use blue_bird.Runtime.TimerHeap
use blue_bird.Runtime.Poller.{poller_unregister}
use blue_bird.Runtime.Task.{run, execute_begin, execute_end}
use blue_bird.Runtime.Scheduler.{take_next, scheduler_is_empty}
use blue_bird.Runtime.Loop.{
  persistent_mode, oneshot_mode, Watcher, Runtime, System, word, task_of, put_task, record_made,
  schedule_task, destroy_task,
}

-- bb_poll_event_t
pub record Ready : Type 0 where
  pub ready_fd : ℕ
  pub ready_events : ℕ

-- The inner loop of `_bb_runtime_wait` at watcher `j`.
unfoldable pub dispatch_from : System → ℕ → ℕ → Ready → Runtime → Runtime
dispatch_from system zero j event r = r
dispatch_from system (suc fuel) j event r = elim (get_elem? r.watchers j) [
  | none ↦ r
  | some w ↦ elim (w.fd == event.ready_fd && not (bit_and w.events event.ready_events == 0)) [
    | false ↦ dispatch_from system fuel (suc j) event r
    | true ↦
        let scheduled = (schedule_task system r w.task).0 in
        elim w.mode [
          | persistent_mode ↦ dispatch_from system fuel (suc j) event scheduled
          | oneshot_mode ↦ dispatch_from system fuel j event (record scheduled {
            poller = (poller_unregister r.poller w.fd w.events).0;
            watchers = swap_remove r.watchers j;
          })
        ]
  ]
]

-- `_bb_runtime_wait`, with what `bb_poller_wait` reports: nothing on a failure.
unfoldable pub dispatch_all : System → List Ready → Runtime → Runtime
dispatch_all system [] r = r
dispatch_all system (event ∷ events) r =
    dispatch_all system events (dispatch_from system (length r.watchers) 0 event r)

-- When a repeating timer fires next.
unfoldable pub next_fire : ℕ → ℕ → ℕ
next_fire now interval_ms =
    let next_fire_ms = (now + interval_ms) % word in
    if leb next_fire_ms now then (now + 1) % word else next_fire_ms

-- `_bb_runtime_update_timers` at the time `now`; `none` is a fault or an exhausted fuel.
unfoldable pub update_timers : System → ℕ → ℕ → Runtime → Option Runtime
update_timers system zero now r = none
update_timers system (suc fuel) now r = elim (peek r.timers) [
  | none ↦ some r
  | some top ↦ elim (leb top.next_fire_ms now) [
    | false ↦ some r
    | true ↦
        let scheduled = (schedule_task system r top.task).0 in
        (if top.repeating
          then reschedule_top r.timers (next_fire now top.interval_ms)
          else pop r.timers)
        >>= λ timers. update_timers system fuel now (record scheduled { timers = timers })
  ]
]

abbrev pub idle_timeout_ms : ℕ
idle_timeout_ms = 1000

unfoldable pub next_timeout_ms : Heap → ℕ → ℕ
next_timeout_ms timers now = elim (peek timers) [
  | none ↦ idle_timeout_ms
  | some top ↦
      let delta = top.next_fire_ms - now in
      if leb top.next_fire_ms now
      then 0
      else if ltb idle_timeout_ms delta
      then idle_timeout_ms
      else delta
]

-- The timeout that a tick waits with.
unfoldable pub wait_timeout : Runtime → ℕ → ℕ
wait_timeout r now = if scheduler_is_empty r.scheduler then next_timeout_ms r.timers now else 0

-- What the `run` callbacks do to the runtime; `none` is a fault in one of them.
module _ (call : ℕ → Runtime → Option Runtime) where
  -- `bb_task_execute` of a task that is taken from the queue.
  unfoldable pub execute : ℕ → Runtime → Option Runtime
  execute id r = elim (execute_begin (task_of r id)) [
    | none ↦ some r
    | some t ↦ call id (record_made id (run ∷ []) (put_task id t r)) >>= λ called.
        some (put_task id (execute_end (task_of called id)) called)
  ]

  -- A round of the loop over the queue, for the task that is taken: its bit is clear.
  unfoldable pub serve_task : ℕ → Runtime → Option Runtime
  serve_task id r = (if (task_of r id).cancelled then some r else execute id r) >>= λ executed.
      let after = task_of executed id in
      if after.scheduled || after.persistent then some executed else destroy_task executed id

  -- At most `rounds` rounds of the loop over the queue.
  unfoldable pub run_tasks : ℕ → Runtime → Option Runtime
  run_tasks zero r = some r
  run_tasks (suc rounds) r =
      let taken = take_next r.scheduler in
      if r.running
      then elim taken.1 [
        | none ↦ some r
        | some id ↦
            serve_task id (record r { scheduler = taken.0 }) >>= λ served. run_tasks rounds served
      ]
      else some r

  -- `bb_runtime_tick`, with the time before and after the wait, what the poller reports for a
  -- timeout, and a number of rounds.
  unfoldable pub tick : System → ℕ → ℕ → (ℕ → List Ready) → ℕ → Runtime → Option Runtime
  tick system before now ready rounds r =
      let waited = dispatch_all system (ready (wait_timeout r before)) r in
      update_timers system (length waited.timers.items + 1) now waited >>= λ updated.
      run_tasks rounds updated

unfoldable pub set_running : Runtime → Runtime
set_running r = record r { running = true }

unfoldable pub stop : Runtime → Runtime
stop r = record r { running = false }

unfoldable pub runtime_is_empty : Runtime → Bool
runtime_is_empty r =
    length r.watchers == 0 && TimerHeap.is_empty r.timers && scheduler_is_empty r.scheduler

-- The loops of `bb_runtime_destroy`: over the queue, in which a persistent task is passed over, over
-- the watchers and over the timers. The watchers' array and the heap are freed with the runtime.
unfoldable pub destroy_queue : List ℕ → Runtime → Option Runtime
destroy_queue [] r = some r
destroy_queue (id ∷ queue) r =
    let t = record (task_of r id) { scheduled = false } in
    let taken = record (put_task id t r) { scheduler = record r.scheduler { queue = queue } } in
    if t.persistent
    then destroy_queue queue taken
    else (destroy_task taken id >>= λ gone. destroy_queue queue gone)

unfoldable pub destroy_watchers : List Watcher → Runtime → Option Runtime
destroy_watchers [] r = some (record r { watchers = [] })
destroy_watchers (w ∷ watchers) r =
    let unregistered = record r { poller = (poller_unregister r.poller w.fd w.events).0 } in
    destroy_task unregistered w.task >>= λ gone. destroy_watchers watchers gone

unfoldable pub destroy_timers : List Timer → Runtime → Option Runtime
destroy_timers [] r = some r
destroy_timers (t ∷ timers) r = destroy_task r t.task >>= λ gone. destroy_timers timers gone

unfoldable pub runtime_destroy : Runtime → Option Runtime
runtime_destroy r = do
  emptied ← destroy_queue r.scheduler.queue r
  unwatched ← destroy_watchers emptied.watchers emptied
  destroy_timers unwatched.timers.items unwatched
