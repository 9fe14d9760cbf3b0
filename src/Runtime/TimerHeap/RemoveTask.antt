-- ===== src/Runtime/TimerHeap/RemoveTask.antt =====
-- `bb_timer_heap_remove_task` of modules/runtime/src/timer_heap.c.
--
-- The loop goes over the indices once, upwards. The timer that fills a removed slot may rise above
-- the index of the loop, where it is not looked at again, so a task with several timers can keep
-- some of them (Tests has an instance). The theorems say what the function does guarantee.
use native.Mathlib.Decide.{dec_lt, ℕ_discrete}
use blue_bird.Prelude.{
  ℕ, zero, suc, ◌+◌, ◌≤◌, ◌<◌, ◌≡◌, ◌≢◌, refl, ◌∙◌, Bool, false, List, [], ◌∷◌, some, arith, ◌==◌,
  length, count, get_elem?, get_elem?_total, get_elem?_bound,
}
use blue_bird.Runtime.TimerHeap.{Timer, Heap, remove_at, remove_task_from, remove_task}
use blue_bird.Runtime.TimerHeap.Order.{IsHeap}
use blue_bird.Runtime.TimerHeap.Remove.{remove_at_correct}
use blue_bird.Runtime.TimerHeap.Push.{IsValid}

-- The test of the loop.
abbrev pub owned_by : ℕ → Timer → Bool
owned_by task t = t.task == task

-- From `a` at index `i` with `removed` timers taken, the loop ends with `b` and `m` taken.
record IsSwept (task : ℕ) (a : List Timer) (i removed : ℕ) (b : List Timer) (m : ℕ) : Type 0 where
  heap : IsHeap b
  grows : removed ≤ m
  size : length b + m ≡ length a + removed
  -- a test that fails on the task's timers counts the timers of other tasks
  others : (p : Timer → Bool) → ((t : Timer) → t.task ≡ task → p t ≡ false) → count p b ≡ count p a
  own : count (owned_by task) b + m ≡ count (owned_by task) a + removed
  -- nothing taken: the list is as it was, and from `i` on no timer is the task's
  nothing :
      m ≡ removed → (b ≡ a) × ((c : ℕ) (t : Timer) → i ≤ c → get_elem? a c ≡ some t → t.task ≢ task)

-- The number of rounds that are left is below the fuel, so the loop ends.
sweep :
    (fuel : ℕ) (task : ℕ) (a : List Timer) (i removed : ℕ)
    → length a < i + fuel
    → i ≤ length a
    → IsHeap a
    → (b : List Timer) × (m : ℕ) × (remove_task_from fuel a task i removed ≡ some (b, m))
      × IsSwept task a i removed b m
sweep zero task a i removed f le heap = absurd (omega arith)
sweep (suc fuel) task a i removed f le heap = elim (dec_lt i (length a)) [
  | no outside ↦ (
    a,
    removed,
    ended outside,
    record {
      heap = heap;
      grows = omega arith;
      size = refl;
      others = λ p h. refl;
      own = refl;
      nothing = λ _. (refl, λ c t le e. absurd (omega (arith, get_elem?_bound a c t e)));
    },
  )
  | yes inside ↦
      let (t, e) = get_elem?_total a i inside in
      elim (ℕ_discrete t.task task) [
        | yes own ↦
            let (rest, run, w) = remove_at_correct a i t heap e in
            let (b, m, run', s) =
              sweep fuel task rest i (removed + 1) (omega (arith, w.size)) (omega (arith, w.size))
                w.heap in
            (
              b,
              m,
              took t rest inside e own run ∙ run',
              record {
                heap = s.heap;
                grows = omega (arith, s.grows);
                size = omega (arith, s.size, w.size);
                others = λ p h. ground (arith, s.others p h, w.others p, h t own);
                own = ground (arith, s.own, w.others (owned_by task));
                nothing = λ same. absurd (omega (arith, s.grows));
              },
            )
        | no other ↦
            let (b, m, run', s) =
              sweep fuel task a (i + 1) removed (omega arith) (omega arith) heap in
            (
              b,
              m,
              kept t inside e other ∙ run',
              record {
                heap = s.heap;
                grows = s.grows;
                size = s.size;
                others = s.others;
                own = s.own;
                nothing = λ same.
                    let (unchanged, later) = s.nothing same in
                    (
                      unchanged,
                      λ c u le g. elim (ℕ_discrete c i) [
                        | yes here ↦ ground arith
                        | no past ↦ later c u (omega arith) g
                      ],
                    );
              },
            )
      ]
]
  where
    ended : ¬ (i < length a) → remove_task_from (suc fuel) a task i removed ≡ some (a, removed)
    ended outside = unfold remove_task_from in ground arith

    took :
        (t : Timer) (rest : List Timer)
        → i < length a
        → get_elem? a i ≡ some t
        → t.task ≡ task
        → remove_at a i ≡ some rest
        → remove_task_from (suc fuel) a task i removed
          ≡ remove_task_from fuel rest task i (removed + 1)
    took t rest inside e own run = unfold remove_task_from in ground arith

    kept :
        (t : Timer)
        → i < length a
        → get_elem? a i ≡ some t
        → t.task ≢ task
        → remove_task_from (suc fuel) a task i removed
          ≡ remove_task_from fuel a task (i + 1) removed
    kept t inside e other = unfold remove_task_from in ground arith

count_zero :
    (p : Timer → Bool) (a : List Timer)
    → ((c : ℕ) (t : Timer) → get_elem? a c ≡ some t → p t ≡ false)
    → count p a ≡ 0
count_zero p [] h = refl
count_zero p (x ∷ a) h = ground (arith, h 0 x refl, count_zero p a (λ c t e. h (suc c) t e))

-- What a sweep of the whole heap guarantees.
pub record IsSweptOf (task : ℕ) (h r : Heap) (m : ℕ) : Type 0 where
  pub valid : IsValid r
  pub others :
      (p : Timer → Bool)
      → ((t : Timer) → t.task ≡ task → p t ≡ false)
      → count p r.items ≡ count p h.items
  pub own : count (owned_by task) r.items + m ≡ count (owned_by task) h.items
  pub nothing : m ≡ 0 → (r ≡ h) × (count (owned_by task) h.items ≡ 0)

-- Removing a task's timers ends, keeps the heap valid, keeps every timer of the other tasks, and
-- returns the number of the task's timers that it took; it returns 0 only if the task has none.
pub remove_task_correct :
    (h : Heap) (task : ℕ)
    → IsValid h
    → (r : Heap) × (m : ℕ) × (remove_task h (some task) ≡ some (r, m)) × IsSweptOf task h r m
unfolding remove_task
remove_task_correct h task v =
    let (b, m, run, s) =
      sweep (length h.items + 1) task h.items 0 0 (omega arith) (omega arith) v.ordered in
    (
      record h { items = b },
      m,
      rw run,
      record {
        valid = record {
          ordered = s.heap;
          fits = omega (arith, s.size, v.fits);
          allocated = v.allocated;
        };
        others = s.others;
        own = omega (arith, s.own);
        nothing = λ e.
            let (same, absent) = s.nothing e in
            (
              ground (arith, same),
              count_zero (owned_by task) h.items
                  (λ c t g. ground (arith, absent c t (omega arith) g)),
            );
      },
    )

-- A task with a single timer in the heap loses it.
pub remove_task_single :
    (h : Heap) (task : ℕ)
    → IsValid h
    → count (owned_by task) h.items ≡ 1
    → (r : Heap) × (remove_task h (some task) ≡ some (r, 1)) × (count (owned_by task) r.items ≡ 0)
remove_task_single h task v one =
    let (r, m, run, s) = remove_task_correct h task v in
    let some_taken : m ≢ 0 = λ none_taken. absurd (omega (arith, (s.nothing none_taken).1, one)) in
    let all : m ≡ 1 = omega (arith, s.own, one, some_taken) in
    (r, ground (arith, run, all), omega (arith, s.own, one, all))
