-- ===== src/Runtime/Loop/Safe/Parts.antt =====
-- Small steps that keep the invariant of the event loop, each on the parts of the runtime it is about.
use blue_bird.Prelude.{
  ℕ, ◌+◌, ◌≤◌, ◌≡◌, ◌≢◌, ◌⊎◌, inl, Bool, true, false, ◌&&◌, List, [], ◌∷◌, some, arith, ◌==◌, count,
  count-append, bit, total, swap_remove, swap_remove-Removed, get_elem?,
}
use blue_bird.Runtime.TimerHeap.{Timer, Heap}
use blue_bird.Runtime.TimerHeap.Push.{IsValid}
use blue_bird.Runtime.TimerHeap.RemoveTask.{owned_by}
use blue_bird.Runtime.Task.{Task}
use blue_bird.Runtime.Scheduler.{Scheduler, IsMarked, schedule}
use blue_bird.Runtime.Loop.{Watcher, update}
use blue_bird.Runtime.Loop.Watch.{is_persistent_mode}
use blue_bird.Runtime.Loop.Safe.{watches, timed, lasting, Safe}

total_le :
    {A : Type 0} (f g : A → ℕ) (xs : List A) → ((x : A) → f x ≤ g x) → total f xs ≤ total g xs
total_le f g [] h = omega arith
total_le f g (x ∷ xs) h = omega (arith, h x, total_le f g xs h)

pub count_and_le : (p q : Timer → Bool) (xs : List Timer) → count (λ t. p t && q t) xs ≤ count p xs
count_and_le p q [] = omega arith
count_and_le p q (x ∷ xs) = ground (arith, count_and_le p q xs)

pub lasting_le :
    (watchers : List Watcher) (timers : List Timer) (id : ℕ)
    → lasting watchers timers id ≤ watches watchers id + timed timers id
lasting_le watchers timers id = omega (
  arith,
  total_le (λ w. bit (w.task == id && is_persistent_mode w.mode)) (λ w. bit (w.task == id)) watchers
      (λ w. ground arith),
  count_and_le (owned_by id) (λ t. t.repeating) timers,
)

first_counts :
    (timers : List Timer) (t : Timer)
    → get_elem? timers 0 ≡ some t
    → t.repeating ≡ true
    → count (λ x. x.task == t.task && x.repeating) timers ≢ 0
first_counts [] t e r = absurd (cc)
first_counts (x ∷ timers) t e r = ground (arith, e, r)

owned_count :
    (timers : List Timer) (t : Timer) → get_elem? timers 0 ≡ some t → timed timers t.task ≢ 0
owned_count [] t e = absurd (cc)
owned_count (x ∷ timers) t e = ground (arith, e)

-- Scheduling a task: the queue, and the bits of the tasks.
pub record Scheduled (id : ℕ) (s after : Scheduler) : Type 0 where
  pub marked : IsMarked after
  pub persistent : (g : ℕ) → (after.tasks g).persistent ≡ (s.tasks g).persistent
  pub others : (g : ℕ) → (g == id) ≡ false → (after.tasks g).scheduled ≡ (s.tasks g).scheduled

pub schedule-Scheduled :
    (alloc : Bool) (s : Scheduler) (id : ℕ)
    → IsMarked s
    → Scheduled id s (schedule alloc s (some id)).0
unfolding schedule
schedule-Scheduled alloc s id m = record {
  marked = λ g. ground (arith, m g, m id, count-append (λ x. x == g) s.queue (id ∷ []));
  persistent = λ g. ground arith;
  others = λ g n. ground (arith, n);
}

module _ (held : ℕ → Bool) (s : Scheduler) (watchers : List Watcher) (timers : Heap)
    (allocated : ℕ → Bool) where
  -- A task that is scheduled is allocated; and it is persistent, or has no watcher and no timer.
  pub schedule-Safe :
      (id : ℕ) (after : Scheduler)
      → Safe held s watchers timers allocated
      → Scheduled id s after
      → allocated id ≡ true
      → ((s.tasks id).persistent ≡ true) ⊎ (watches watchers id + timed timers.items id ≡ 0)
      → Safe held after watchers timers allocated
  schedule-Safe id after h sch al free = record {
    valid = h.valid;
    marked = sch.marked;
    alive = λ g. ground (arith, h.alive g, sch.others g, al);
    owned = λ g. ground (arith, h.owned g, sch.persistent g, sch.others g, al, free);
    repeats = λ g. ground (arith, h.repeats g, sch.persistent g);
  }

  -- A watcher that fires once is removed, and its task scheduled.
  pub fire_watcher-Safe :
      (i : ℕ) (w : Watcher) (after : Scheduler)
      → Safe held s watchers timers allocated
      → Scheduled w.task s after
      → get_elem? watchers i ≡ some w
      → Safe held after (swap_remove watchers i) timers allocated
  fire_watcher-Safe i w after h sch e =
      let r = swap_remove-Removed watchers i w e in
      record {
        valid = h.valid;
        marked = sch.marked;
        alive = λ g.
            ground (arith, h.alive g, h.owned g, sch.others g, r.sums (λ x. bit (x.task == g)));
        owned = λ g.
            ground
              (arith, h.owned g, sch.persistent g, sch.others g, r.sums (λ x. bit (x.task == g)));
        repeats = λ g. ground (
          arith,
          h.repeats g,
          sch.persistent g,
          r.sums (λ x. bit (x.task == g && is_persistent_mode x.mode)),
        );
      }

  -- A timer that fires once leaves the heap, and its task is scheduled.
  pub fire_timer-Safe :
      (t : Timer) (after : Scheduler) (rest : Heap)
      → Safe held s watchers timers allocated
      → Scheduled t.task s after
      → IsValid rest
      → ((p : Timer → Bool) → count p rest.items + bit (p t) ≡ count p timers.items)
      → Safe held after watchers rest allocated
  fire_timer-Safe t after rest h sch v c = record {
    valid = v;
    marked = sch.marked;
    alive = λ g. ground (arith, h.alive g, h.owned g, sch.others g, c (owned_by g));
    owned = λ g. ground (arith, h.owned g, sch.persistent g, sch.others g, c (owned_by g));
    repeats =
        λ g. ground (arith, h.repeats g, sch.persistent g, c (λ x. x.task == g && x.repeating));
  }

  -- A repeating timer gets another fire time, and its task is scheduled.
  pub rearm-Safe :
      (t later : Timer) (after : Scheduler) (rest : Heap)
      → Safe held s watchers timers allocated
      → Scheduled t.task s after
      → IsValid rest
      → t.repeating ≡ true
      → (later.task ≡ t.task) × (later.repeating ≡ t.repeating)
      → get_elem? timers.items 0 ≡ some t
      → ((p : Timer → Bool) → count p rest.items + bit (p t) ≡ count p timers.items + bit (p later))
      → Safe held after watchers rest allocated
  rearm-Safe t later after rest h sch v repeating same e c =
      let lasts : count (λ x. x.task == t.task && x.repeating) timers.items ≢ 0 =
        first_counts timers.items t e repeating in
      let persistent : (s.tasks t.task).persistent ≡ true =
        ground (arith, h.repeats t.task, lasts) in
      let owner = h.owned t.task in
      let alive : allocated t.task ≡ true = ground (arith, owner, owned_count timers.items t e) in
      let scheduled = schedule-Safe t.task after h sch alive (inl persistent) in
      record {
        valid = v;
        marked = scheduled.marked;
        alive = scheduled.alive;
        owned = λ g. ground (arith, scheduled.owned g, c (owned_by g), same);
        repeats =
            λ g. ground (arith, scheduled.repeats g, c (λ x. x.task == g && x.repeating), same);
      }

-- A task without watcher and timer that neither waits nor is executed.
pub record Unused (held : ℕ → Bool) (s : Scheduler) (watchers : List Watcher) (timers : Heap)
    (allocated : ℕ → Bool) (id : ℕ) : Type 0 where
  pub is_allocated : allocated id ≡ true
  pub unwatched : watches watchers id ≡ 0
  pub untimed : timed timers.items id ≡ 0
  pub unscheduled : (s.tasks id).scheduled ≡ false
  pub unheld : held id ≡ false

-- The same tasks, but for one that keeps its scheduled bit; the queue is the same.
abbrev pub put : Scheduler → ℕ → Task → Scheduler
put s id t = record s { tasks = update s.tasks id t }

module _ (held : ℕ → Bool) (s : Scheduler) (watchers : List Watcher) (timers : Heap)
    (allocated : ℕ → Bool) where
  pub create-Safe :
      (id : ℕ) (t : Task)
      → Safe held s watchers timers allocated
      → allocated id ≡ false
      → t.scheduled ≡ false
      → t.persistent ≡ false
      → Safe held (put s id t) watchers timers (update allocated id true)
        × Unused held (put s id t) watchers timers (update allocated id true) id
  create-Safe id t h dead idle once = (
    record {
      valid = h.valid;
      marked = λ g. ground (arith, h.marked g, h.alive id, dead, idle);
      alive = λ g. ground (arith, h.alive g, dead);
      owned = λ g. ground (arith, h.owned g, h.alive g, dead, idle, once);
      repeats =
          λ g. ground (arith, h.repeats g, h.owned id, dead, lasting_le watchers timers.items id);
    },
    record {
      is_allocated = ground arith;
      unwatched = ground (arith, h.owned id, dead);
      untimed = ground (arith, h.owned id, dead);
      unscheduled = ground (arith, idle);
      unheld = ground (arith, h.alive id, dead);
    },
  )
