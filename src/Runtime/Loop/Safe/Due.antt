-- ===== src/Runtime/Loop/Safe/Due.antt =====
-- The timers that are due (_bb_runtime_update_timers of modules/runtime/src/runtime.c).
use blue_bird.Prelude.{
  ℕ, zero, suc, ◌+◌, ◌<◌, ◌≡◌, ◌≢◌, ◌⊎◌, inl, inr, refl, sym, ap, ◌∙◌, Bool, true, false, not, ◌&&◌,
  List, [], ◌∷◌, some, arith, ◌==◌, leb, length, count, bit, get_elem?, get_elem?_bound,
  get_elem?-none, Bool-cases, Option-cases,
}
use native.Mathlib.Decide.{ℕ_discrete}
use blue_bird.Runtime.TimerHeap.{Timer, Heap, peek, pop, reschedule_top}
use blue_bird.Runtime.TimerHeap.Order.{key, root_least}
use blue_bird.Runtime.TimerHeap.Push.{IsValid}
use blue_bird.Runtime.TimerHeap.Remove.{pop-peek, reschedule_top-peek}
use blue_bird.Runtime.Scheduler.{Scheduler, schedule}
use blue_bird.Runtime.Loop.{Runtime, System, word, task_of, schedule_task}
use blue_bird.Runtime.Loop.Tick.{next_fire, update_timers}
use blue_bird.Runtime.Loop.Safe.{IsSafe}
use blue_bird.Runtime.Loop.Safe.Parts.{schedule-Scheduled, fire_timer-Safe, rearm-Safe}

abbrev pub is_due : ℕ → Timer → Bool
is_due now t = leb t.next_fire_ms now

-- How many timers of a task are due, repeat, or fire once; and those of the last that are not due.
abbrev pub due : ℕ → ℕ → List Timer → ℕ
due now id timers = count (λ t. t.task == id && is_due now t) timers

abbrev pub repeating_of : ℕ → List Timer → ℕ
repeating_of id timers = count (λ t. t.task == id && t.repeating) timers

abbrev pub once_of : ℕ → List Timer → ℕ
once_of id timers = count (λ t. t.task == id && not t.repeating) timers

abbrev pub once_later : ℕ → ℕ → List Timer → ℕ
once_later now id timers =
    count (λ t. t.task == id && (not t.repeating && not (is_due now t))) timers

-- What updating the timers does.
pub record Updated (held : ℕ → Bool) (system : System) (now : ℕ) (r after : Runtime) : Type 0 where
  pub safe : IsSafe held after
  -- No timer is due any more.
  pub later : (i : ℕ) → i < length after.timers.items → now < key after.timers.items i
  -- A task with a timer that was due waits in the queue, if there is memory for its entry.
  pub waits :
      (id : ℕ)
      → system.node id ≡ true
      → (due now id r.timers.items ≢ 0) ⊎ ((task_of r id).scheduled ≡ true)
      → (task_of after id).scheduled ≡ true
  -- Repeating timers stay; of the others those stay that were not due.
  pub kept : (id : ℕ) → repeating_of id after.timers.items ≡ repeating_of id r.timers.items
  pub gone : (id : ℕ) → once_of id after.timers.items ≡ once_later now id r.timers.items

next_fire_later : (now interval_ms : ℕ) → suc now < word → now < next_fire now interval_ms
unfolding next_fire
next_fire_later now interval_ms h = ground arith

nothing_due :
    (now : ℕ) (timers : List Timer)
    → ((i : ℕ) → i < length timers → now < key timers i)
    → (id : ℕ) → (due now id timers ≡ 0) × (once_of id timers ≡ once_later now id timers)
nothing_due now [] h id = (refl, refl)
nothing_due now (t ∷ timers) h id =
    let rest = nothing_due now timers (λ i k. h (suc i) (omega (arith, k))) id in
    let first = h 0 (omega arith) in (ground (arith, rest.0, first), ground (arith, rest.1, first))

-- When the first timer is not due, no timer is.
finished :
    (held : ℕ → Bool) (system : System) (now : ℕ) (r : Runtime)
    → IsSafe held r
    → ((i : ℕ) → i < length r.timers.items → now < key r.timers.items i)
    → Updated held system now r r
finished held system now r h l = record {
  safe = h;
  later = l;
  waits = λ id n w. ground (arith, w, (nothing_due now r.timers.items l id).0);
  kept = λ id. refl;
  gone = λ id. (nothing_due now r.timers.items l id).1;
}

-- What one round does before the next ones.
record Fired (held : ℕ → Bool) (system : System) (now : ℕ) (r next : Runtime) : Type 0 where
  safe : IsSafe held next
  fewer : suc (count (is_due now) next.timers.items) ≡ count (is_due now) r.timers.items
  waits :
      (id : ℕ)
      → system.node id ≡ true
      → (due now id r.timers.items ≢ 0) ⊎ ((task_of r id).scheduled ≡ true)
      → (due now id next.timers.items ≢ 0) ⊎ ((task_of next id).scheduled ≡ true)
  kept : (id : ℕ) → repeating_of id next.timers.items ≡ repeating_of id r.timers.items
  gone : (id : ℕ) → once_later now id next.timers.items ≡ once_later now id r.timers.items

schedule_bits :
    (alloc : Bool) (s : Scheduler) (id g : ℕ)
    → ((s.tasks g).scheduled ≡ true → ((schedule alloc s (some id)).0.tasks g).scheduled ≡ true)
      × (alloc ≡ true
          → (g == id) ≡ true
          → ((schedule alloc s (some id)).0.tasks g).scheduled ≡ true)
unfolding schedule
schedule_bits alloc s id g = (λ e. ground (arith, e), λ a e. ground (arith, a, e))

-- The task of the timer that fires is scheduled; the others wait for theirs, or wait already.
waits_next :
    (system : System) (now : ℕ) (s : Scheduler) (t : Timer) (timers rest : List Timer) (id : ℕ)
    → due now id rest + bit (t.task == id) ≡ due now id timers
    → system.node id ≡ true
    → (due now id timers ≢ 0) ⊎ ((s.tasks id).scheduled ≡ true)
    → (due now id rest ≢ 0)
      ⊎ (((schedule (system.node t.task) s (some t.task)).0.tasks id).scheduled ≡ true)
waits_next system now s t timers rest id c n w =
    let bits = schedule_bits (system.node t.task) s t.task id in
    elim w [
      | inr already ↦ inr (bits.0 already)
      | inl some_due ↦ elim (ℕ_discrete t.task id) [
        | yes same ↦ inr (bits.1 (ap system.node same ∙ n) (ground (arith, same)))
        | no other ↦ inl (λ z. some_due (ground (arith, c, z, other)))
      ]
    ]

popped-Fired :
    (held : ℕ → Bool) (system : System) (now : ℕ) (r : Runtime) (t : Timer) (rest : Heap)
    → IsSafe held r
    → IsValid rest
    → t.repeating ≡ false
    → is_due now t ≡ true
    → ((p : Timer → Bool) → count p rest.items + bit (p t) ≡ count p r.timers.items)
    → Fired held system now r (record (schedule_task system r t.task).0 { timers = rest })
unfolding schedule_task
popped-Fired held system now r t rest h v once is_now c =
    let after = (schedule (system.node t.task) r.scheduler (some t.task)).0 in
    record {
      safe =
          fire_timer-Safe held r.scheduler r.watchers r.timers r.allocated t after rest h
            (schedule-Scheduled (system.node t.task) r.scheduler t.task h.marked) v c;
      fewer = ground (arith, c (is_due now), is_now);
      waits = λ id n w.
          waits_next system now r.scheduler t r.timers.items rest.items id
            (ground (arith, c (λ x. x.task == id && is_due now x), is_now)) n w;
      kept = λ id. ground (arith, c (λ x. x.task == id && x.repeating), once);
      gone = λ id.
          ground
            (arith, c (λ x. x.task == id && (not x.repeating && not (is_due now x))), once, is_now);
    }

rearmed-Fired :
    (held : ℕ → Bool) (system : System) (now : ℕ) (r : Runtime) (t : Timer) (rest : Heap)
    → suc now < word
    → IsSafe held r
    → IsValid rest
    → t.repeating ≡ true
    → is_due now t ≡ true
    → get_elem? r.timers.items 0 ≡ some t
    → ((p : Timer → Bool)
        → count p rest.items + bit (p t)
          ≡ count p r.timers.items
            + bit (p (record t { next_fire_ms = next_fire now t.interval_ms })))
    → Fired held system now r (record (schedule_task system r t.task).0 { timers = rest })
unfolding schedule_task
rearmed-Fired held system now r t rest fits h v many is_now e c =
    let after = (schedule (system.node t.task) r.scheduler (some t.task)).0 in
    let next = record t { next_fire_ms = next_fire now t.interval_ms } in
    let soon = next_fire_later now t.interval_ms fits in
    let is_later : is_due now next ≡ false = ground (arith, soon) in
    record {
      safe =
          rearm-Safe held r.scheduler r.watchers r.timers r.allocated t next after rest h
            (schedule-Scheduled (system.node t.task) r.scheduler t.task h.marked) v many
            (refl, refl) e c;
      fewer = ground (arith, c (is_due now), is_now, is_later);
      waits = λ id n w.
          waits_next system now r.scheduler t r.timers.items rest.items id
            (ground (arith, c (λ x. x.task == id && is_due now x), is_now, is_later)) n w;
      kept = λ id. ground (arith, c (λ x. x.task == id && x.repeating), many);
      gone = λ id.
          ground (arith, c (λ x. x.task == id && (not x.repeating && not (is_due now x))), many);
    }

Fired-Updated :
    (held : ℕ → Bool) (system : System) (now : ℕ) (r next after : Runtime)
    → Fired held system now r next
    → Updated held system now next after
    → Updated held system now r after
Fired-Updated held system now r next after f u = record {
  safe = u.safe;
  later = u.later;
  waits = λ id n w. u.waits id n (f.waits id n w);
  kept = λ id. u.kept id ∙ f.kept id;
  gone = λ id. u.gone id ∙ f.gone id;
}

popped_top :
    (h : Heap) (t : Timer)
    → IsValid h
    → get_elem? h.items 0 ≡ some t
    → (rest : Heap) × (pop h ≡ some rest)
      × IsValid rest
      × ((p : Timer → Bool) → count p rest.items + bit (p t) ≡ count p h.items)
unfolding peek
popped_top h t v e =
    let (x, rest, shown, run, v', w, least) = pop-peek h v (get_elem?_bound h.items 0 t e) in
    let equal : some x ≡ some t = sym shown ∙ e in
    let same : x ≡ t = ground (arith, equal) in
    (rest, run, v', λ p. ground (arith, w.others p, same))

rearmed_top :
    (h : Heap) (t : Timer) (ms : ℕ)
    → IsValid h
    → get_elem? h.items 0 ≡ some t
    → (rest : Heap) × (reschedule_top h ms ≡ some rest)
      × IsValid rest
      × ((p : Timer → Bool)
          → count p rest.items + bit (p t)
            ≡ count p h.items + bit (p (record t { next_fire_ms = ms })))
unfolding peek
rearmed_top h t ms v e =
    let (x, rest, shown, run, v', c) = reschedule_top-peek h ms v (get_elem?_bound h.items 0 t e) in
    let equal : some x ≡ some t = sym shown ∙ e in
    let same : x ≡ t = ground (arith, equal) in (rest, run, v', λ p. ground (arith, c p, same))

-- Under the invariant, with more fuel than timers are due and before the clock's last millisecond,
-- updating ends: no timer
-- is due then, each task with a timer that was due waits in the queue if there is memory, repeating
-- timers stay, of the others those that were not due, and the invariant holds.
pub update_timers-Updated :
    (held : ℕ → Bool) (system : System) (fuel now : ℕ) (r : Runtime)
    → suc now < word
    → count (is_due now) r.timers.items < fuel
    → IsSafe held r
    → (after : Runtime) × (update_timers system fuel now r ≡ some after)
      × Updated held system now r after
unfolding update_timers peek
update_timers-Updated held system zero now r fits f h = absurd (omega arith)
update_timers-Updated held system (suc fuel) now r fits f h =
    elim (Option-cases (get_elem? r.timers.items 0)) [
      | inl n ↦ (
        r,
        rw (n, update_timers, peek) refl,
        finished held system now r h
            (λ i k. absurd (omega (arith, get_elem?-none r.timers.items 0 n))),
      )
      | inr (t, e) ↦
          let some_left = get_elem?_bound r.timers.items 0 t e in
          elim (Bool-cases (is_due now t)) [
            | inr t_later ↦ (
              r,
              rw (e, update_timers, peek) (rw t_later refl),
              finished held system now r h (λ i k.
                  let first = root_least r.timers.items i h.valid.ordered k in
                  ground (arith, rw e at first, t_later)),
            )
            | inl t_due ↦ elim (Bool-cases t.repeating) [
              | inl many ↦
                  let (rest, run, v, c) =
                    rearmed_top r.timers t (next_fire now t.interval_ms) h.valid e in
                  let next = record (schedule_task system r t.task).0 { timers = rest } in
                  let fired = rearmed-Fired held system now r t rest fits h v many t_due e c in
                  let (after, ran, u) =
                    update_timers-Updated held system fuel now next fits
                      (omega (arith, f, fired.fewer)) fired.safe in
                  (
                    after,
                    rw (e, update_timers, peek) (rw t_due (rw many (rw run ran))),
                    Fired-Updated held system now r next after fired u,
                  )
              | inr once ↦
                  let (rest, run, v, c) = popped_top r.timers t h.valid e in
                  let next = record (schedule_task system r t.task).0 { timers = rest } in
                  let fired = popped-Fired held system now r t rest h v once t_due c in
                  let (after, ran, u) =
                    update_timers-Updated held system fuel now next fits
                      (omega (arith, f, fired.fewer)) fired.safe in
                  (
                    after,
                    rw (e, update_timers, peek) (rw t_due (rw once (rw run ran))),
                    Fired-Updated held system now r next after fired u,
                  )
            ]
          ]
    ]
