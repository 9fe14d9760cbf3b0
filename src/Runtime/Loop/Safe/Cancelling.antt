-- ===== src/Runtime/Loop/Safe/Cancelling.antt =====
-- Cancelling a task keeps the invariant of the event loop (modules/runtime/src/runtime.c).
use blue_bird.Prelude.{
  ℕ, zero, suc, ◌+◌, ◌≤◌, ◌<◌, ◌≡◌, inl, inr, refl, sym, ◌∙◌, Bool, true, false, ◌&&◌, some, arith,
  ◌==◌, length, count, bit, total, get_elem?, get_elem?_bound, swap_remove, swap_remove-Removed,
  get_elem?-swap_remove, total_zero, Bool-cases, Option-cases, get_elem?-none,
}
use native.Mathlib.Decide.{ℕ_discrete}
use blue_bird.Runtime.TimerHeap.{Heap, remove_task}
use blue_bird.Runtime.TimerHeap.Push.{IsValid}
use blue_bird.Runtime.TimerHeap.RemoveTask.{owned_by, remove_task_correct}
use blue_bird.Runtime.Poller.{poller_unregister}
use blue_bird.Runtime.Task.{Task, finalize, cancel}
use blue_bird.Runtime.Scheduler.{schedule}
use blue_bird.Runtime.Loop.{
  Watcher, Runtime, System, task_of, schedule_task, cancel_callback, remove_watchers, cancel_task,
}
use blue_bird.Runtime.Loop.Watch.{is_persistent_mode}
use blue_bird.Runtime.Loop.Safe.{watches, timed, IsSafe}
use blue_bird.Runtime.Loop.Safe.Parts.{schedule-Scheduled, put, count_and_le}
use blue_bird.Runtime.Loop.Safe.Owners.{retire-Safe}

-- What removing the watchers of a task does: the task has none left, and nothing else changes but the
-- poller.
pub record Unwatched (id : ℕ) (r after : Runtime) : Type 0 where
  pub same_scheduler : after.scheduler ≡ r.scheduler
  pub same_timers : after.timers ≡ r.timers
  pub same_allocated : after.allocated ≡ r.allocated
  pub none_left : watches after.watchers id ≡ 0
  pub fewer : (f : Watcher → ℕ) → total f after.watchers ≤ total f r.watchers

abbrev Passed : ℕ → ℕ → Runtime → Type 0
Passed i id r =
    (c : ℕ) (w : Watcher) → c < i → get_elem? r.watchers c ≡ some w → (w.task == id) ≡ false

all-Passed : (i id : ℕ) (r : Runtime) → length r.watchers ≤ i → Passed i id r → Unwatched id r r
all-Passed i id r h p = record {
  same_scheduler = refl;
  same_timers = refl;
  same_allocated = refl;
  none_left =
      total_zero (λ w. bit (w.task == id)) r.watchers
        (λ c w e. ground (arith, p c w (omega (arith, h, get_elem?_bound r.watchers c w e)) e));
  fewer = λ f. omega arith;
}

remove_watchers-Unwatched :
    (fuel i id : ℕ) (r : Runtime)
    → length r.watchers ≤ i + fuel
    → Passed i id r
    → Unwatched id r (remove_watchers fuel i id r)
unfolding remove_watchers
remove_watchers-Unwatched zero i id r h p = all-Passed i id r (omega arith) p
remove_watchers-Unwatched (suc fuel) i id r h p = elim (Option-cases (get_elem? r.watchers i)) [
  | inl n ↦ rw (n, remove_watchers) (all-Passed i id r (get_elem?-none r.watchers i n) p)
  | inr (w, e) ↦ elim (Bool-cases (w.task == id)) [
    | inl t ↦
        let inside = get_elem?_bound r.watchers i w e in
        let removed = swap_remove-Removed r.watchers i w e in
        let next : Runtime = record r {
          poller = (poller_unregister r.poller w.fd w.events).0;
          watchers = swap_remove r.watchers i;
        } in
        let rest =
          remove_watchers-Unwatched fuel i id next (omega (arith, h, removed.size))
            (λ c v k f. p c v k (sym (get_elem?-swap_remove r.watchers i c inside k) ∙ f)) in
        rw (e, t, remove_watchers)
          (record {
            same_scheduler = rest.same_scheduler;
            same_timers = rest.same_timers;
            same_allocated = rest.same_allocated;
            none_left = rest.none_left;
            fewer = λ f. omega (arith, rest.fewer f, removed.sums f);
          })
    | inr t ↦
        rw (e, t, remove_watchers)
          (remove_watchers-Unwatched fuel (suc i) id r (omega arith) (λ c v k f.
            elim (ℕ_discrete c i) [
              | yes here ↦ let same : some v ≡ some w = sym f ∙ rw here e in ground (arith, same, t)
              | no before ↦ p c v (omega (arith, before)) f
            ]))
  ]
]

-- A task is cancelled: it is not persistent any more.
pub cancel_bits :
    (t : Task) → ((cancel t).0.scheduled ≡ t.scheduled) × ((cancel t).0.persistent ≡ false)
unfolding cancel finalize
cancel_bits t = ground arith

-- Sweeping the heap for a task that has one timer at most.
swept_all :
    (id : ℕ) (h : Heap)
    → IsValid h
    → timed h.items id ≤ 1
    → (rest : Heap) × (m : ℕ) × (remove_task h (some id) ≡ some (rest, m))
      × IsValid rest
      × (timed rest.items id ≡ 0)
      × ((g : ℕ) → timed rest.items g ≤ timed h.items g)
      × ((g : ℕ)
          → count (λ t. t.task == g && t.repeating) rest.items
            ≤ count (λ t. t.task == g && t.repeating) h.items)
swept_all id h v one =
    let (rest, m, run, s) = remove_task_correct h id v in
    let gone : timed rest.items id ≡ 0 = elim (ℕ_discrete m 0) [
      | yes none_taken ↦ omega (arith, s.own, (s.nothing none_taken).1)
      | no taken ↦ omega (arith, s.own, one, taken)
    ] in
    (
      rest,
      m,
      run,
      s.valid,
      gone,
      λ g. elim (ℕ_discrete g id) [
        | yes same ↦ rw same (omega (arith, gone))
        | no different ↦ omega (arith, s.others (owned_by g) (λ t e. ground (arith, e, different)))
      ],
      λ g. elim (ℕ_discrete g id) [
        | yes same ↦
            rw same (omega (arith, gone, count_and_le (owned_by id) (λ t. t.repeating) rest.items))
        | no different ↦ omega (
          arith,
          s.others (λ t. t.task == g && t.repeating) (λ t e. ground (arith, e, different)),
        )
      ],
    )

-- Cancelling a task that is allocated never fails and keeps the invariant.
pub cancel_task-Safe :
    (held : ℕ → Bool) (system : System) (r : Runtime) (id : ℕ)
    → IsSafe held r
    → r.allocated id ≡ true
    → (after : Runtime) × (cancel_task system r id ≡ some after) × IsSafe held after
unfolding cancel_task cancel_callback schedule_task
cancel_task-Safe held system r id h al =
    let t = (cancel (task_of r id)).0 in
    let bits = cancel_bits (task_of r id) in
    let cancelled = cancel_callback r id in
    let unwatched = remove_watchers (length r.watchers) 0 id cancelled in
    let u : Unwatched id cancelled unwatched =
      remove_watchers-Unwatched (length r.watchers) 0 id cancelled (omega arith)
        (λ c w k e. absurd (omega arith)) in
    let one : timed r.timers.items id ≤ 1 = ground (arith, h.owned id, al) in
    let (rest, m, run, v, gone, ts, ls) = swept_all id r.timers h.valid one in
    let s1 = put r.scheduler id t in
    let after = schedule (system.node id) s1 (some id) in
    let sch = schedule-Scheduled (system.node id) s1 id (λ g. ground (arith, h.marked g, bits.0)) in
    (
      (schedule_task system (record unwatched { timers = rest }) id).0,
      rw (u.same_timers, run, cancel_task) refl,
      rw (u.same_scheduler, u.same_allocated)
          (retire-Safe held r.scheduler r.watchers r.timers r.allocated id t unwatched.watchers rest
            after.0 h al bits.0 bits.1 v (omega (arith, u.none_left, gone))
            (λ g. u.fewer (λ w. bit (w.task == g))) ts
            (λ g.
              omega (arith, ls g, u.fewer (λ w. bit (w.task == g && is_persistent_mode w.mode))))
            sch),
    )
