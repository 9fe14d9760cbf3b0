-- ===== src/Runtime/Loop/Watch.antt =====
-- The watchers of descriptors (modules/runtime/src/runtime.c).
use blue_bird.Prelude.{
  ℕ, zero, suc, ◌*◌, Bool, true, false, ◌&&◌, List, [], ◌∷◌, ◌++◌, Option, none, some, ◌==◌, leb,
  if◌then◌else◌, ◌>>=◌, length, get_elem?, set, swap_remove,
}
use Prim.Native.Nat.{bit_or}
use blue_bird.Runtime.Task.{make_persistent}
use blue_bird.Runtime.Poller.{Poller, poller_register, poller_unregister}
use blue_bird.Runtime.Loop.{
  WatchMode, persistent_mode, oneshot_mode, Watcher, Runtime, System, task_of, put_task,
  schedule_task, create_task, destroy_task, cancel_callback, cancel_task,
}

-- The loop of `_bb_runtime_find_watcher_exact` from index `i` on.
unfoldable pub find_watcher_exact : List Watcher → ℕ → ℕ → ℕ → Option ℕ
find_watcher_exact [] fd events i = none
find_watcher_exact (w ∷ watchers) fd events i =
    let rest = find_watcher_exact watchers fd events (suc i) in
    if w.fd == fd && w.events == events then some i else rest

-- The loop of `_bb_runtime_fd_registered_mask`, with the mask so far.
unfoldable pub registered_mask : List Watcher → ℕ → ℕ → ℕ
registered_mask [] fd mask = mask
registered_mask (w ∷ watchers) fd mask =
    registered_mask watchers fd (if w.fd == fd then bit_or mask w.events else mask)

abbrev pub is_persistent_mode : WatchMode → Bool
is_persistent_mode persistent_mode = true
is_persistent_mode oneshot_mode = false

abbrev pub mark_persistent : WatchMode → ℕ → Runtime → Runtime
mark_persistent mode id r =
    if is_persistent_mode mode then put_task id (make_persistent (task_of r id)) r else r

-- Registering a mask: the poller, and whether it succeeds. What is registered already is taken back
-- first, and restored on failure.
unfoldable pub register_mask : System → Poller → ℕ → ℕ → ℕ → Poller × Bool
register_mask system poller fd existing_mask new_mask =
    let register = λ (p : Poller) (mask : ℕ).
      poller_register (system.supported fd) system.grows_fds (system.backend fd mask) p fd mask in
    let start =
      if existing_mask == 0 then poller else (poller_unregister poller fd existing_mask).0 in
    let (after, ok) = register start new_mask in
    if new_mask == existing_mask
    then (poller, true)
    else if ok
    then (after, true)
    else (if existing_mask == 0 then after else (register after existing_mask).0, false)

-- The watcher that has this descriptor and mask gets the new task; the old task is cancelled.
unfoldable pub replace_watcher : System → ℕ → WatchMode → ℕ → Runtime → Option (Runtime × Bool)
replace_watcher system idx mode id r = elim (get_elem? r.watchers idx) [
  | none ↦ none
  | some w ↦
      let placed = record r {
        watchers = set r.watchers idx (record w { mode = mode; task = id });
      } in
      let marked = mark_persistent mode id placed in
      if w.task == id
      then some (marked, true)
      else (cancel_task system marked w.task >>= λ after. some (after, true))
]

unfoldable pub append_watcher : System → ℕ → ℕ → WatchMode → ℕ → Runtime → Runtime × Bool
append_watcher system fd events mode id r =
    let existing_mask = registered_mask r.watchers fd 0 in
    let (poller, ok) =
      register_mask system r.poller fd existing_mask (bit_or existing_mask events) in
    let registered = record r { poller = poller } in
    let marked = mark_persistent mode id registered in
    if ok
    then (
      record marked {
        watchers =
            marked.watchers ++ record { fd = fd; events = events; mode = mode; task = id } ∷ [];
      },
      true,
    )
    else (registered, false)

-- `_watch_fd`; the flag is whether 0 is returned.
unfoldable pub watch_fd : System → Runtime → ℕ → ℕ → WatchMode → ℕ → Option (Runtime × Bool)
watch_fd system r fd events mode id = elim (find_watcher_exact r.watchers fd events 0) [
  | some idx ↦ replace_watcher system idx mode id r
  | none ↦
      if leb r.watcher_capacity (length r.watchers)
      then (if system.grows_watchers
          then some (
              append_watcher system fd events mode id
                (record r { watcher_capacity = r.watcher_capacity * 2 }))
          else some (r, false))
      else some (append_watcher system fd events mode id r)
]

unfoldable pub watch_fd_ex :
    System → ℕ → ℕ → WatchMode → Option ℕ → Bool → Bool → Runtime → Option (Runtime × Option ℕ)
watch_fd_ex system fd events mode new has_run has_cleanup r =
    elim (create_task new has_run has_cleanup r) [
      | none ↦ some (r, none)
      | some (id, created) ↦ watch_fd system created fd events mode id >>= λ watched.
          if watched.1
          then some (watched.0, some id)
          else (destroy_task watched.0 id >>= λ gone. some (gone, none))
    ]

-- The loop of `bb_runtime_unwatch_fd` at index `i`, with the result so far.
unfoldable pub unwatch_from : System → ℕ → ℕ → ℕ → Runtime → Bool → Runtime × Bool
unwatch_from system zero i fd r res = (r, res)
unwatch_from system (suc fuel) i fd r res = elim (get_elem? r.watchers i) [
  | none ↦ (r, res)
  | some w ↦ elim (w.fd == fd) [
    | true ↦
        let cancelled = cancel_callback r w.task in
        let unwatched = record cancelled { watchers = swap_remove r.watchers i } in
        unwatch_from system fuel i fd (schedule_task system unwatched w.task).0 true
    | false ↦ unwatch_from system fuel (suc i) fd r res
  ]
]

-- The mask is BB_EVENT_READ | BB_EVENT_WRITE; the flag is whether 0 is returned.
unfoldable pub unwatch_fd : System → Runtime → ℕ → Runtime × Bool
unwatch_fd system r fd =
    unwatch_from system (length r.watchers) 0 fd
      (record r { poller = (poller_unregister r.poller fd 3).0 }) false
