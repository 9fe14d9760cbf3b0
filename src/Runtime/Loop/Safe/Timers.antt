-- ===== src/Runtime/Loop/Safe/Timers.antt =====
-- Scheduling a task and setting a timer keep the invariant of the event loop
-- (modules/runtime/src/runtime.c).
use blue_bird.Prelude.{
  ℕ, ◌+◌, ◌%◌, ◌≡◌, ◌⊎◌, inl, inr, refl, sym, ap, ◌∙◌, Bool, true, false, Option, none, some, arith,
  ◌>>=◌, length, count, bit, Bool-cases, Option-cases,
}
use mathlib.Core.Path.{subst}
use native.Mathlib.Decide.{dec_lt}
use blue_bird.Runtime.TimerHeap.{Timer, Heap, push}
use blue_bird.Runtime.TimerHeap.Push.{IsValid, HasRoom, push_correct, push-none}
use blue_bird.Runtime.Scheduler.{schedule}
use blue_bird.Runtime.Loop.{
  Runtime, System, task_of, put_task, schedule_task, destroy_task, schedule_ex, push_timer,
  set_interval_ex, set_timeout_ex, word,
}
use blue_bird.Runtime.Loop.Safe.{watches, timed, IsSafe}
use blue_bird.Runtime.Loop.Safe.Parts.{schedule-Scheduled, schedule-Safe}
use blue_bird.Runtime.Loop.Safe.Owners.{persist-Safe, push_timer-Safe}
use blue_bird.Runtime.Loop.Safe.Operations.{IsUnused, IsNew, create_task-Safe, destroy_task-Safe}

-- Scheduling a task that is used nowhere.
pub schedule_task-Safe :
    (held : ℕ → Bool) (system : System) (r : Runtime) (id : ℕ)
    → IsSafe held r
    → r.allocated id ≡ true
    → ((task_of r id).persistent ≡ true) ⊎ (watches r.watchers id + timed r.timers.items id ≡ 0)
    → IsSafe held (schedule_task system r id).0
unfolding schedule_task
schedule_task-Safe held system r id h al free =
    schedule-Safe held r.scheduler r.watchers r.timers r.allocated id
      (schedule (system.node id) r.scheduler (some id)).0 h
      (schedule-Scheduled (system.node id) r.scheduler id h.marked) al free

schedule_failed :
    (system : System) (r : Runtime) (id : ℕ)
    → (schedule_task system r id).1 ≡ false
    → (schedule_task system r id).0 ≡ r
unfolding schedule_task schedule
schedule_failed system r id e = ground (arith, e)

-- An operation that makes a task: it never fails, and keeps the invariant.
abbrev pub Makes : (ℕ → Bool) → Option (Runtime × Option ℕ) → Type 0
Makes held result =
    (after : Runtime) × (task : Option ℕ) × (result ≡ some (after, task)) × IsSafe held after

pub destroyed-Makes :
    (held : ℕ → Bool) (r : Runtime) (id : ℕ)
    → IsSafe held r
    → IsUnused held r id
    → Makes held (destroy_task r id >>= λ gone. some (gone, none))
destroyed-Makes held r id h u =
    let (after, e, safe) = destroy_task-Safe held r id h u in (after, none, rw e refl, safe)

pub schedule_ex-Makes :
    (held : ℕ → Bool) (system : System) (new : Option ℕ) (has_run has_cleanup : Bool) (r : Runtime)
    → IsSafe held r
    → IsNew r new
    → Makes held (schedule_ex system new has_run has_cleanup r)
unfolding schedule_ex
schedule_ex-Makes held system new has_run has_cleanup r h n =
    elim (create_task-Safe held r new has_run has_cleanup h n) [
      | inl e ↦ (r, none, rw (e, schedule_ex) refl, h)
      | inr (id, created, e, safe, u) ↦ elim (Bool-cases (schedule_task system created id).1) [
        | inl ok ↦ (
          (schedule_task system created id).0,
          some id,
          rw (e, schedule_ex) (rw ok refl),
          schedule_task-Safe held system created id safe u.is_allocated
              (inr (omega (arith, u.unwatched, u.untimed))),
        )
        | inr failed ↦
            rw (e, schedule_ex)
              (rw (failed, schedule_failed system created id failed)
                (destroyed-Makes held created id safe u))
      ]
    ]

abbrev new_timer : ℕ → ℕ → Bool → ℕ → Timer
new_timer next_fire_ms interval_ms repeating task = record {
  interval_ms = interval_ms;
  next_fire_ms = next_fire_ms;
  repeating = repeating;
  task = task;
}

-- A push that succeeds.
push-some :
    (alloc repeating : Bool) (h more : Heap) (next_fire_ms interval_ms task : ℕ)
    → IsValid h
    → push alloc h next_fire_ms interval_ms repeating (some task) ≡ some more
    → IsValid more
      × ((p : Timer → Bool)
          → count p more.items
            ≡ count p h.items + bit (p (new_timer next_fire_ms interval_ms repeating task)))
push-some alloc repeating h more next_fire_ms interval_ms task v e =
    let (r, run, valid, same) =
      push_correct alloc repeating h next_fire_ms interval_ms task v (room alloc e) in
    let equal : some r ≡ some more = sym run ∙ e in
    let same_heap : r ≡ more = ground (arith, equal) in
    (subst IsValid same_heap valid, λ p. omega (arith, ap (λ h. count p h.items) same_heap, same p))
  where
    room :
        (alloc : Bool)
        → push alloc h next_fire_ms interval_ms repeating (some task) ≡ some more
        → HasRoom alloc h
    room true f = inr refl
    room false f = elim (dec_lt (length h.items) h.capacity) [
      | yes free ↦ inl free
      | no full ↦
          let refused =
            (push-none false repeating h next_fire_ms interval_ms (some task) v).1
              (inr (omega (arith, full, v.fits), refl)) in
          absurd (cc (f, refused))
    ]

push_timer-Makes :
    (held : ℕ → Bool) (system : System) (now ms : ℕ) (repeating : Bool) (id : ℕ) (r : Runtime)
    → IsSafe held r
    → IsUnused held r id
    → (repeating ≡ true → (task_of r id).persistent ≡ true)
    → Makes held (push_timer system now ms repeating id r)
unfolding push_timer
push_timer-Makes held system now ms repeating id r h u lasts =
    elim (Option-cases
      (push system.grows_timers r.timers ((now + ms) % word) ms repeating (some id))) [
        | inl n ↦ rw (n, push_timer) (destroyed-Makes held r id h u)
        | inr (timers, e) ↦ (
          record r { timers = timers },
          some id,
          rw (e, push_timer) refl,
          (let (v, c) =
                push-some system.grows_timers repeating r.timers timers ((now + ms) % word) ms id
                  h.valid e in
              push_timer-Safe held r.scheduler r.watchers r.timers r.allocated
                (new_timer ((now + ms) % word) ms repeating id) timers h u v c lasts),
        )
      ]

pub set_interval_ex-Makes :
    (held : ℕ → Bool) (system : System) (now ms : ℕ) (new : Option ℕ) (has_run has_cleanup : Bool)
    (r : Runtime)
    → IsSafe held r
    → IsNew r new
    → Makes held (set_interval_ex system now ms new has_run has_cleanup r)
unfolding set_interval_ex
set_interval_ex-Makes held system now ms new has_run has_cleanup r h n =
    elim (create_task-Safe held r new has_run has_cleanup h n) [
      | inl e ↦ (r, none, rw (e, set_interval_ex) refl, h)
      | inr (id, created, e, safe, u) ↦
          let t = record (task_of created id) { persistent = true } in
          let (safe', u') =
            persist-Safe held created.scheduler created.watchers created.timers created.allocated id
              safe u in
          rw (e, set_interval_ex)
            (push_timer-Makes held system now ms true id (put_task id t created) safe' u'
              (λ _. ground arith))
    ]

pub set_timeout_ex-Makes :
    (held : ℕ → Bool) (system : System) (now ms : ℕ) (new : Option ℕ) (has_run has_cleanup : Bool)
    (r : Runtime)
    → IsSafe held r
    → IsNew r new
    → Makes held (set_timeout_ex system now ms new has_run has_cleanup r)
unfolding set_timeout_ex
set_timeout_ex-Makes held system now ms new has_run has_cleanup r h n =
    elim (create_task-Safe held r new has_run has_cleanup h n) [
      | inl e ↦ (r, none, rw (e, set_timeout_ex) refl, h)
      | inr (id, created, e, safe, u) ↦
          rw (e, set_timeout_ex)
            (push_timer-Makes held system now ms false id created safe u (λ f. absurd (cc)))
    ]
