-- ===== src/Runtime/Loop/Safe/Owners.antt =====
-- A task gets its watcher or its timer, is retired, executed or destroyed: steps that keep the
-- invariant of the event loop.
use blue_bird.Prelude.{
  ℕ, ◌+◌, ◌≤◌, ◌≡◌, Bool, true, false, ◌&&◌, List, [], ◌∷◌, ◌++◌, some, arith, ◌==◌, count, bit,
  total-append, total-set, get_elem?, set,
}
use blue_bird.Runtime.TimerHeap.{Timer, Heap}
use blue_bird.Runtime.TimerHeap.Push.{IsValid}
use blue_bird.Runtime.TimerHeap.RemoveTask.{owned_by}
use blue_bird.Runtime.Task.{Task}
use blue_bird.Runtime.Scheduler.{Scheduler}
use blue_bird.Runtime.Loop.{Watcher, update}
use blue_bird.Runtime.Loop.Watch.{is_persistent_mode}
use blue_bird.Runtime.Loop.Safe.{watches, timed, lasting, Safe}
use blue_bird.Runtime.Loop.Safe.Parts.{lasting_le, put, Scheduled, Unused}

module _ (held : ℕ → Bool) (s : Scheduler) (watchers : List Watcher) (timers : Heap)
    (allocated : ℕ → Bool) where
  -- Making a task persistent.
  pub persist-Safe :
      (id : ℕ)
      → Safe held s watchers timers allocated
      → Unused held s watchers timers allocated id
      → Safe held (put s id (record (s.tasks id) { persistent = true })) watchers timers allocated
        × Unused held
            (put s id (record (s.tasks id) { persistent = true }))
            watchers
            timers
            allocated
            id
  persist-Safe id h u = (
    record {
      valid = h.valid;
      marked = λ g. ground (arith, h.marked g, u.unscheduled);
      alive = λ g. ground (arith, h.alive g);
      owned = λ g. ground (arith, h.owned g, u.unwatched, u.untimed);
      repeats = λ g.
          ground (arith, h.repeats g, lasting_le watchers timers.items id, u.unwatched, u.untimed);
    },
    record {
      is_allocated = u.is_allocated;
      unwatched = u.unwatched;
      untimed = u.untimed;
      unscheduled = ground (arith, u.unscheduled);
      unheld = u.unheld;
    },
  )

  pub append_watcher-Safe :
      (w : Watcher)
      → Safe held s watchers timers allocated
      → Unused held s watchers timers allocated w.task
      → (is_persistent_mode w.mode ≡ true → (s.tasks w.task).persistent ≡ true)
      → Safe held s (watchers ++ w ∷ []) timers allocated
  append_watcher-Safe w h u lasts = record {
    valid = h.valid;
    marked = h.marked;
    alive = h.alive;
    owned = λ g. ground (
      arith,
      h.owned g,
      u.is_allocated,
      u.unwatched,
      u.untimed,
      u.unscheduled,
      u.unheld,
      total-append (λ x. bit (x.task == g)) watchers (w ∷ []),
    );
    repeats = λ g. ground (
      arith,
      h.repeats g,
      lasts,
      lasting_le watchers timers.items w.task,
      u.unwatched,
      u.untimed,
      total-append (λ x. bit (x.task == g && is_persistent_mode x.mode)) watchers (w ∷ []),
    );
  }

  -- A watcher passes to another task.
  pub set_watcher-Safe :
      (i : ℕ) (old w : Watcher)
      → Safe held s watchers timers allocated
      → Unused held s watchers timers allocated w.task
      → get_elem? watchers i ≡ some old
      → (is_persistent_mode w.mode ≡ true → (s.tasks w.task).persistent ≡ true)
      → Safe held s (set watchers i w) timers allocated
  set_watcher-Safe i old w h u e lasts = record {
    valid = h.valid;
    marked = h.marked;
    alive = h.alive;
    owned = λ g. ground (
      arith,
      h.owned g,
      u.is_allocated,
      u.unwatched,
      u.untimed,
      u.unscheduled,
      u.unheld,
      total-set (λ x. bit (x.task == g)) watchers i w old e,
    );
    repeats = λ g. ground (
      arith,
      h.repeats g,
      lasts,
      lasting_le watchers timers.items w.task,
      u.unwatched,
      u.untimed,
      total-set (λ x. bit (x.task == g && is_persistent_mode x.mode)) watchers i w old e,
    );
  }

  pub push_timer-Safe :
      (t : Timer) (more : Heap)
      → Safe held s watchers timers allocated
      → Unused held s watchers timers allocated t.task
      → IsValid more
      → ((p : Timer → Bool) → count p more.items ≡ count p timers.items + bit (p t))
      → (t.repeating ≡ true → (s.tasks t.task).persistent ≡ true)
      → Safe held s watchers more allocated
  push_timer-Safe t more h u v c lasts = record {
    valid = v;
    marked = h.marked;
    alive = h.alive;
    owned = λ g. ground (
      arith,
      h.owned g,
      u.is_allocated,
      u.unwatched,
      u.untimed,
      u.unscheduled,
      u.unheld,
      c (owned_by g),
    );
    repeats = λ g. ground (
      arith,
      h.repeats g,
      lasts,
      lasting_le watchers timers.items t.task,
      u.unwatched,
      u.untimed,
      c (λ x. x.task == g && x.repeating),
    );
  }

  -- A task in no other place is destroyed; its bits do not matter then.
  pub destroy-Safe :
      (id : ℕ) (t : Task)
      → Safe held s watchers timers allocated
      → Unused held s watchers timers allocated id
      → t.scheduled ≡ false
      → Safe held (put s id t) watchers timers (update allocated id false)
  destroy-Safe id t h u idle = record {
    valid = h.valid;
    marked = λ g. ground (arith, h.marked g, u.unscheduled, idle);
    alive = λ g. ground (arith, h.alive g, u.unheld, idle);
    owned = λ g. ground (arith, h.owned g, u.unwatched, u.untimed, u.unheld, idle);
    repeats = λ g.
        ground (arith, h.repeats g, lasting_le watchers timers.items id, u.unwatched, u.untimed);
  }

  -- The bits of a task change, but for the two that the invariant is about.
  pub put-Safe :
      (id : ℕ) (t : Task)
      → Safe held s watchers timers allocated
      → t.scheduled ≡ (s.tasks id).scheduled
      → t.persistent ≡ (s.tasks id).persistent
      → Safe held (put s id t) watchers timers allocated
  put-Safe id t h same_bit same_kind = record {
    valid = h.valid;
    marked = λ g. ground (arith, h.marked g, same_bit);
    alive = λ g. ground (arith, h.alive g, same_bit);
    owned = λ g. ground (arith, h.owned g, same_bit, same_kind);
    repeats = λ g. ground (arith, h.repeats g, same_kind);
  }

  -- A task is retired: it is not persistent any more, has no watcher and no timer left, no other
  -- task has more of them, and it is scheduled.
  pub retire-Safe :
      (id : ℕ) (t : Task) (fewer : List Watcher) (rest : Heap) (after : Scheduler)
      → Safe held s watchers timers allocated
      → allocated id ≡ true
      → t.scheduled ≡ (s.tasks id).scheduled
      → t.persistent ≡ false
      → IsValid rest
      → watches fewer id + timed rest.items id ≡ 0
      → ((g : ℕ) → watches fewer g ≤ watches watchers g)
      → ((g : ℕ) → timed rest.items g ≤ timed timers.items g)
      → ((g : ℕ) → lasting fewer rest.items g ≤ lasting watchers timers.items g)
      → Scheduled id (put s id t) after
      → Safe held after fewer rest allocated
  retire-Safe id t fewer rest after h al same_bit once v gone ws ts ls sch = record {
    valid = v;
    marked = sch.marked;
    alive = λ g. ground (arith, h.alive g, sch.others g, al);
    owned =
        λ g. ground (arith, h.owned g, sch.persistent g, sch.others g, al, gone, ws g, ts g, once);
    repeats = λ g.
        ground
          (arith, h.repeats g, sch.persistent g, gone, ls g, once, lasting_le fewer rest.items id);
  }

  -- A task is taken from the queue to be executed, when no other is.
  pub take-Safe :
      (id : ℕ) (rest : List ℕ)
      → Safe held s watchers timers allocated
      → s.queue ≡ id ∷ rest
      → (allocated id ≡ true)
        × Safe
            (update held id true)
            (record (put s id (record (s.tasks id) { scheduled = false })) { queue = rest })
            watchers
            timers
            allocated
  take-Safe id rest h e =
      let bit_set : (s.tasks id).scheduled ≡ true = ground (arith, h.marked id, e) in
      (
        ground (arith, h.alive id, bit_set),
        record {
          valid = h.valid;
          marked = λ g. ground (arith, h.marked g, h.marked id, e);
          alive = λ g. ground (arith, h.alive g, bit_set);
          owned = λ g. ground (arith, h.owned g, bit_set);
          repeats = λ g. ground (arith, h.repeats g);
        },
      )
