-- ===== src/Runtime/Loop/Safe/Watching.antt =====
-- Watching descriptors keeps the invariant of the event loop.
use blue_bird.Prelude.{
  ℕ, zero, suc, ◌+◌, ◌*◌, ◌≤◌, ◌<◌, ◌≡◌, ◌≢◌, inl, inr, refl, sym, ap, ◌∙◌, Bool, true, false, ◌&&◌,
  List, [], ◌∷◌, ◌++◌, Option, none, some, arith, ◌==◌, leb, length, bit, get_elem?,
  get_elem?_total, set, swap_remove, swap_remove-Removed, Bool-cases, Option-cases,
}
use Prim.Native.Nat.{bit_or}
use blue_bird.Runtime.Poller.{poller_unregister}
use blue_bird.Runtime.Task.{cancel}
use blue_bird.Runtime.Scheduler.{schedule}
use blue_bird.Runtime.Loop.{
  WatchMode, persistent_mode, oneshot_mode, Watcher, Runtime, System, task_of, schedule_task,
  cancel_callback,
}
use blue_bird.Runtime.Loop.Watch.{
  find_watcher_exact, registered_mask, is_persistent_mode, mark_persistent, register_mask,
  replace_watcher, append_watcher, watch_fd, watch_fd_ex, unwatch_from, unwatch_fd,
}
use blue_bird.Runtime.Loop.Safe.{watches, IsSafe}
use blue_bird.Runtime.Loop.Safe.Parts.{schedule-Scheduled, put}
use blue_bird.Runtime.Loop.Safe.Owners.{
  persist-Safe, append_watcher-Safe, set_watcher-Safe, retire-Safe,
}
use blue_bird.Runtime.Loop.Safe.Operations.{IsUnused, IsNew, create_task-Safe}
use blue_bird.Runtime.Loop.Safe.Cancelling.{cancel_bits, cancel_task-Safe}
use blue_bird.Runtime.Loop.Safe.Timers.{Makes, destroyed-Makes}

-- A persistent watcher makes its task persistent.
mark_persistent-Safe :
    (held : ℕ → Bool) (mode : WatchMode) (id : ℕ) (r : Runtime)
    → IsSafe held r
    → IsUnused held r id
    → IsSafe held (mark_persistent mode id r)
      × IsUnused held (mark_persistent mode id r) id
      × (is_persistent_mode mode ≡ true
          → (task_of (mark_persistent mode id r) id).persistent ≡ true)
mark_persistent-Safe held persistent_mode id r h u =
    let p = persist-Safe held r.scheduler r.watchers r.timers r.allocated id h u in
    (p.0, p.1, λ _. ground arith)
mark_persistent-Safe held oneshot_mode id r h u = (h, u, λ f. absurd (cc))

-- What watching gives: the invariant, and on failure a task that is still used nowhere.
abbrev Watched : (ℕ → Bool) → ℕ → Option (Runtime × Bool) → Type 0
Watched held id result =
    (after : Runtime) × (ok : Bool) × (result ≡ some (after, ok))
    × IsSafe held after
    × (ok ≡ false → IsUnused held after id)

append_watcher-Watched :
    (held : ℕ → Bool) (system : System) (fd events : ℕ) (mode : WatchMode) (id : ℕ) (r : Runtime)
    → IsSafe held r
    → IsUnused held r id
    → Watched held id (some (append_watcher system fd events mode id r))
unfolding append_watcher
append_watcher-Watched held system fd events mode id r h u =
    let existing = registered_mask r.watchers fd 0 in
    let reg = register_mask system r.poller fd existing (bit_or existing events) in
    elim (Bool-cases reg.1) [
      | inl ok ↦
          let registered = record r { poller = reg.0 } in
          let (safe, u', lasts) = mark_persistent-Safe held mode id registered h u in
          let marked = mark_persistent mode id registered in
          let w : Watcher = record { fd = fd; events = events; mode = mode; task = id } in
          (
            record marked { watchers = marked.watchers ++ w ∷ [] },
            true,
            rw (ok, append_watcher) refl,
            append_watcher-Safe held marked.scheduler marked.watchers marked.timers marked.allocated
                w safe u' lasts,
            λ f. absurd (cc),
          )
      | inr failed ↦
          (record r { poller = reg.0 }, false, rw (failed, append_watcher) refl, h, λ _. u)
    ]

find_watcher_exact-within :
    (watchers : List Watcher) (fd events i k : ℕ)
    → find_watcher_exact watchers fd events i ≡ some k
    → (i ≤ k) × (k < i + length watchers)
unfolding find_watcher_exact
find_watcher_exact-within [] fd events i k e = absurd (cc)
find_watcher_exact-within (w ∷ watchers) fd events i k e =
    elim (Bool-cases (w.fd == fd && w.events == events)) [
      | inl t ↦ let same : some i ≡ some k = sym (rw t refl) ∙ e in ground (arith, same)
      | inr f ↦
          let later = find_watcher_exact-within watchers fd events (suc i) k (rw f at e) in
          omega (arith, later)
    ]

pub watched_task :
    (watchers : List Watcher) (i : ℕ) (w : Watcher)
    → get_elem? watchers i ≡ some w
    → watches watchers w.task ≢ 0
watched_task watchers i w e =
    let r = swap_remove-Removed watchers i w e in
    ground (arith, r.sums (λ x. bit (x.task == w.task)))

-- The watcher passes to the new task, which is marked after that.
placed-Safe :
    (held : ℕ → Bool) (mode : WatchMode) (id i : ℕ) (old : Watcher) (r : Runtime)
    → IsSafe held r
    → IsUnused held r id
    → get_elem? r.watchers i ≡ some old
    → IsSafe held (
        mark_persistent mode id
          (record r { watchers = set r.watchers i (record old { mode = mode; task = id }) }))
      × ((mark_persistent mode id (record r {
        watchers = set r.watchers i (record old { mode = mode; task = id });
      })).allocated
          ≡ r.allocated)
placed-Safe held persistent_mode id i old r h u e =
    let t = record (task_of r id) { persistent = true } in
    let (safe, u') = persist-Safe held r.scheduler r.watchers r.timers r.allocated id h u in
    (
      set_watcher-Safe held (put r.scheduler id t) r.watchers r.timers r.allocated i old
          (record old { mode = persistent_mode; task = id }) safe u' e (λ _. ground arith),
      refl,
    )
placed-Safe held oneshot_mode id i old r h u e = (
  set_watcher-Safe held r.scheduler r.watchers r.timers r.allocated i old
      (record old { mode = oneshot_mode; task = id }) h u e (λ f. absurd (cc)),
  refl,
)

replace_watcher-Watched :
    (held : ℕ → Bool) (system : System) (idx : ℕ) (mode : WatchMode) (id : ℕ) (r : Runtime)
    → IsSafe held r
    → IsUnused held r id
    → idx < length r.watchers
    → Watched held id (replace_watcher system idx mode id r)
unfolding replace_watcher
replace_watcher-Watched held system idx mode id r h u within =
    let (w, e) = get_elem?_total r.watchers idx within in
    let marked =
      mark_persistent mode id
        (record r { watchers = set r.watchers idx (record w { mode = mode; task = id }) }) in
    let (safe, kept) = placed-Safe held mode id idx w r h u e in
    let alive : r.allocated w.task ≡ true =
      ground (arith, h.owned w.task, watched_task r.watchers idx w e) in
    elim (Bool-cases (w.task == id)) [
      | inl t ↦ (marked, true, rw (e, replace_watcher) (rw t refl), safe, λ f. absurd (cc))
      | inr t ↦
          let (after, run, done) =
            cancel_task-Safe held system marked w.task safe (ap (λ a. a w.task) kept ∙ alive) in
          (after, true, rw (e, replace_watcher) (rw (t, run) refl), done, λ f. absurd (cc))
    ]

watch_fd-Watched :
    (held : ℕ → Bool) (system : System) (r : Runtime) (fd events : ℕ) (mode : WatchMode) (id : ℕ)
    → IsSafe held r
    → IsUnused held r id
    → Watched held id (watch_fd system r fd events mode id)
unfolding watch_fd append_watcher register_mask
watch_fd-Watched held system r fd events mode id h u =
    elim (Option-cases (find_watcher_exact r.watchers fd events 0)) [
      | inr (idx, e) ↦
          rw (e, watch_fd)
            (replace_watcher-Watched held system idx mode id r h u
              (omega (arith, find_watcher_exact-within r.watchers fd events 0 idx e)))
      | inl n ↦ elim (Bool-cases (leb r.watcher_capacity (length r.watchers))) [
        | inl full ↦ elim (Bool-cases system.grows_watchers) [
          | inl grows ↦
              rw (n, watch_fd)
                (rw (full, grows)
                  (append_watcher-Watched held system fd events mode id
                    (record r { watcher_capacity = r.watcher_capacity * 2 }) h u))
          | inr stays ↦ (r, false, rw (n, watch_fd) (rw (full, stays) refl), h, λ _. u)
        ]
        | inr room ↦
            rw (n, watch_fd) (rw room (append_watcher-Watched held system fd events mode id r h u))
      ]
    ]

pub watch_fd_ex-Makes :
    (held : ℕ → Bool) (system : System) (fd events : ℕ) (mode : WatchMode) (new : Option ℕ)
    (has_run has_cleanup : Bool) (r : Runtime)
    → IsSafe held r
    → IsNew r new
    → Makes held (watch_fd_ex system fd events mode new has_run has_cleanup r)
unfolding watch_fd_ex
watch_fd_ex-Makes held system fd events mode new has_run has_cleanup r h n =
    elim (create_task-Safe held r new has_run has_cleanup h n) [
      | inl e ↦ (r, none, rw (e, watch_fd_ex) refl, h)
      | inr (id, created, e, safe, u) ↦
          let (after, ok, run, done, unused) =
            watch_fd-Watched held system created fd events mode id safe u in
          elim (Bool-cases ok) [
            | inl t ↦ (after, some id, rw (e, watch_fd_ex) (rw run (rw t refl)), done)
            | inr t ↦
                rw (e, watch_fd_ex) (rw run (rw t (destroyed-Makes held after id done (unused t))))
          ]
    ]

-- A watcher of the descriptor goes, with its task.
unwatch_one-Safe :
    (held : ℕ → Bool) (system : System) (i : ℕ) (w : Watcher) (r : Runtime)
    → IsSafe held r
    → get_elem? r.watchers i ≡ some w
    → IsSafe held
        (schedule_task system
          (record (cancel_callback r w.task) { watchers = swap_remove r.watchers i })
          w.task).0
unfolding schedule_task cancel_callback
unwatch_one-Safe held system i w r h e =
    let id = w.task in
    let t = (cancel (task_of r id)).0 in
    let bits = cancel_bits (task_of r id) in
    let removed = swap_remove-Removed r.watchers i w e in
    let s1 = put r.scheduler id t in
    let owner = h.owned id in
    let mine = removed.sums (λ x. bit (x.task == id)) in
    retire-Safe held r.scheduler r.watchers r.timers r.allocated id t (swap_remove r.watchers i)
      r.timers (schedule (system.node id) s1 (some id)).0 h (ground (arith, owner, mine)) bits.0
      bits.1 h.valid (ground (arith, owner, mine))
      (λ g. omega (arith, removed.sums (λ x. bit (x.task == g)))) (λ g. omega arith)
      (λ g. omega (arith, removed.sums (λ x. bit (x.task == g && is_persistent_mode x.mode))))
      (schedule-Scheduled (system.node id) s1 id (λ g. ground (arith, h.marked g, bits.0)))

unwatch_from-Safe :
    (held : ℕ → Bool) (system : System) (fuel i fd : ℕ) (r : Runtime) (res : Bool)
    → IsSafe held r
    → IsSafe held (unwatch_from system fuel i fd r res).0
unfolding unwatch_from
unwatch_from-Safe held system zero i fd r res h = h
unwatch_from-Safe held system (suc fuel) i fd r res h =
    elim (Option-cases (get_elem? r.watchers i)) [
      | inl n ↦ rw (n, unwatch_from) h
      | inr (w, e) ↦ elim (Bool-cases (w.fd == fd)) [
        | inl t ↦
            rw (e, unwatch_from)
              (rw t (
                unwatch_from-Safe held system fuel i fd
                  (schedule_task system
                    (record (cancel_callback r w.task) { watchers = swap_remove r.watchers i })
                    w.task).0
                  true (unwatch_one-Safe held system i w r h e)))
        | inr t ↦
            rw (e, unwatch_from) (rw t (unwatch_from-Safe held system fuel (suc i) fd r res h))
      ]
    ]

pub unwatch_fd-Safe :
    (held : ℕ → Bool) (system : System) (r : Runtime) (fd : ℕ)
    → IsSafe held r
    → IsSafe held (unwatch_fd system r fd).0
unfolding unwatch_fd
unwatch_fd-Safe held system r fd h =
    unwatch_from-Safe held system (length r.watchers) 0 fd
      (record r { poller = (poller_unregister r.poller fd 3).0 }) false h
