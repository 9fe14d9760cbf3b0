-- ===== src/Runtime/TimerHeap/Tests.antt =====
-- Runs of modules/runtime/src/timer_heap.c, and the theorems at concrete heaps.
use blue_bird.Prelude.{
  ℕ, ◌+◌, ◌≡◌, refl, inl, ◌↔◌, ◌⊎◌, Option, ◌≤◌, ◌<◌, Bool, false, [], ◌∷◌, some, none, arith,
  count, bit, length,
}
use blue_bird.Runtime.TimerHeap.{Timer, Heap, push, pop, peek, reschedule_top, remove_task}
use blue_bird.Runtime.TimerHeap.Order.{SameTimers, key}
use blue_bird.Runtime.TimerHeap.Push.{IsValid, push_correct, push-none}
use blue_bird.Runtime.TimerHeap.Remove.{IsWithout, pop-peek, reschedule_top-peek}
use blue_bird.Runtime.TimerHeap.RemoveTask.{
  owned_by, IsSweptOf, remove_task_correct, remove_task_single,
}

abbrev timer : ℕ → ℕ → Timer
timer ms task = record { interval_ms = 0; next_fire_ms = ms; repeating = false; task = task }

abbrev sample : Heap
sample = record {
  items = timer 1 0 ∷ timer 10 1 ∷ timer 2 2 ∷ timer 11 7 ∷ timer 12 3 ∷ timer 3 7 ∷ [];
  capacity = 16;
}

sample-IsValid : IsValid sample
sample-IsValid = grind arith

-- Task 7 has two timers. The second fills the slot of the first and rises above the loop's index.
remove_task_keeps_one :
    remove_task sample (some 7)
    ≡ some (
      record {
        items = timer 1 0 ∷ timer 3 7 ∷ timer 2 2 ∷ timer 10 1 ∷ timer 12 3 ∷ [];
        capacity = 16;
      },
      1,
    )
unfolding remove_task
remove_task_keeps_one = refl

-- So the function does not remove all the timers of a task.
remove_task_incomplete : ¬ (
    (h r : Heap) (task m : ℕ)
    → IsValid h
    → remove_task h (some task) ≡ some (r, m)
    → count (owned_by task) r.items ≡ 0)
remove_task_incomplete all =
    absurd (omega (arith, all sample _ 7 1 sample-IsValid remove_task_keeps_one))

push_correct_example :
    (r : Heap) × (push false sample 5 0 false (some 4) ≡ some r)
    × IsValid r
    × SameTimers r.items (timer 5 4 ∷ sample.items)
push_correct_example = push_correct false false sample 5 0 4 sample-IsValid (inl (omega arith))

push-none_example :
    (push false sample 5 0 false none ≡ none)
    ↔ ((◌≡◌ {A = Option ℕ} none none) ⊎ ((length sample.items ≡ sample.capacity) × (false ≡ false)))
push-none_example = push-none false false sample 5 0 none sample-IsValid

pop-peek_example :
    (t : Timer) × (r : Heap) × (peek sample ≡ some t)
    × (pop sample ≡ some r)
    × IsValid r
    × IsWithout sample.items t r.items
    × ((i : ℕ) → i < length sample.items → t.next_fire_ms ≤ key sample.items i)
pop-peek_example = pop-peek sample sample-IsValid (omega arith)

reschedule_top-peek_example :
    (t : Timer) × (r : Heap) × (peek sample ≡ some t)
    × (reschedule_top sample 9 ≡ some r)
    × IsValid r
    × ((p : Timer → Bool)
        → count p r.items + bit (p t)
          ≡ count p sample.items + bit (p (record t { next_fire_ms = 9 })))
reschedule_top-peek_example = reschedule_top-peek sample 9 sample-IsValid (omega arith)

remove_task_correct_example :
    (r : Heap) × (m : ℕ) × (remove_task sample (some 7) ≡ some (r, m)) × IsSweptOf 7 sample r m
remove_task_correct_example = remove_task_correct sample 7 sample-IsValid

remove_task_single_example :
    (r : Heap) × (remove_task sample (some 3) ≡ some (r, 1)) × (count (owned_by 3) r.items ≡ 0)
remove_task_single_example = remove_task_single sample 3 sample-IsValid (omega arith)
