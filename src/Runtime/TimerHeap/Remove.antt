-- ===== src/Runtime/TimerHeap/Remove.antt =====
-- Removal and rescheduling of modules/runtime/src/timer_heap.c.
use native.Mathlib.Decide.{ℕ_discrete}
use blue_bird.Prelude.{
  ℕ, suc, ◌+◌, ◌-◌, ◌≤◌, ◌<◌, ◌≡◌, ◌≢◌, ◌∙◌, ap, Bool, List, none, some, arith, length, set, take,
  count, bit, get_elem?, get_elem?_total, get_elem?-take, get_elem?_bound, length-take, length-set,
  count-set, count-take_last,
}
use blue_bird.Runtime.TimerHeap.{
  Timer, Heap, remove_at, sift_up, sift_down, pop, peek, reschedule_top,
}
use blue_bird.Runtime.TimerHeap.Order.{key, fires, parent, key-set, IsHeap, root_least}
use blue_bird.Runtime.TimerHeap.Up.{sift_up_restores}
use blue_bird.Runtime.TimerHeap.Down.{DownInv, GapInv, sift_down_restores, sift_down-UpInv}
use blue_bird.Runtime.TimerHeap.Push.{IsValid}

-- `b` is an ordered heap of the timers of `a` but `x`.
pub record IsWithout (a : List Timer) (x : Timer) (b : List Timer) : Type 0 where
  pub heap : IsHeap b
  pub size : length a ≡ suc (length b)
  pub others : (p : Timer → Bool) → count p b + bit (p x) ≡ count p a

module _ (a : List Timer) (n : ℕ) (size : length a ≡ suc n) where
  length-rest : length (take n a) ≡ n
  length-rest = omega (arith, length-take n a)

  key-rest : (c : ℕ) → c < n → key (take n a) c ≡ key a c
  key-rest c h = ap fires (get_elem?-take n a c h)

  rest-IsHeap : IsHeap a → IsHeap (take n a)
  rest-IsHeap heap c p q = ground (arith, length-rest, heap c p, key-rest c, key-rest (parent c))

  refill-GapInv : (i : ℕ) (last : Timer) → IsHeap a → i < n → GapInv (set (take n a) i last) i
  refill-GapInv i last heap h =
      let rest = take n a in
      let sized = length-set rest i last in
      record {
        edges = λ c p q r s. ground (
          arith,
          length-rest,
          sized,
          heap c p,
          key-rest c,
          key-rest (parent c),
          key-set rest i last c,
          key-set rest i last (parent c),
        );
        bridged = λ c p q pos e. ground (
          arith,
          length-rest,
          sized,
          heap c p,
          heap i pos,
          key-rest c,
          key-rest (parent i),
          key-set rest i last c,
          key-set rest i last (parent i),
        );
      }

-- Removing the entry at any index inside the heap removes exactly it and restores the order.
pub remove_at_correct :
    (a : List Timer) (i : ℕ) (x : Timer)
    → IsHeap a
    → get_elem? a i ≡ some x
    → (b : List Timer) × (remove_at a i ≡ some b) × IsWithout a x b
remove_at_correct a i x heap e = elim (ℕ_discrete i (length a - 1)) [
  | yes final ↦ (
    take n a,
    last_run final,
    record {
      heap = rest-IsHeap a n size heap;
      size = omega (arith, length-rest a n size, size);
      others = λ p. count-take_last p n a x size (rw (← final) e);
    },
  )
  | no inner ↦
      let within : i < n = omega (arith, get_elem?_bound a i x e, inner) in
      let (last, f) = get_elem?_total a n (omega (arith, size)) in
      let rest = take n a in
      let sized = length-rest a n size in
      let start = set rest i last in
      let startsize = length-set rest i last in
      let gap = refill-GapInv a n size i last heap within in
      let (low, run, inv, lowsize, lowsame) =
        sift_down-UpInv (n + 1) start i (omega arith) (omega (arith, within)) gap in
      let (b, run', done) =
        sift_up_restores (n + 1) low i (omega (arith, within)) (omega (arith, within)) inv in
      (
        b,
        inner_run inner last low b f run run',
        record {
          heap = done.heap;
          size = omega (arith, done.size, lowsize, startsize, sized, size);
          others = λ p. omega (
            arith,
            done.same p,
            lowsame p,
            count-set p rest i last x (get_elem?-take n a i within ∙ e),
            count-take_last p n a last size f,
          );
        },
      )
]
  where
    n : ℕ
    n = length a - 1

    size : length a ≡ suc n
    size = omega (arith, get_elem?_bound a i x e)

    last_run : i ≡ n → remove_at a i ≡ some (take n a)
    last_run final = unfold remove_at in ground arith

    inner_run :
        i ≢ n
        → (last : Timer) (low b : List Timer) → get_elem? a n ≡ some last
        → sift_down (n + 1) (set (take n a) i last) i ≡ some low
        → sift_up (n + 1) low i ≡ some b
        → remove_at a i ≡ some b
    inner_run inner last low b f g k = unfold remove_at in ground arith

-- Pop takes out the timer that peek shows, no other, and no timer of the heap fires before it.
pub pop-peek :
    (h : Heap)
    → IsValid h
    → 0 < length h.items
    → (t : Timer) × (r : Heap) × (peek h ≡ some t)
      × (pop h ≡ some r)
      × IsValid r
      × IsWithout h.items t r.items
      × ((i : ℕ) → i < length h.items → t.next_fire_ms ≤ key h.items i)
unfolding peek
pop-peek h v some_left =
    let (t, e) = get_elem?_total h.items 0 some_left in
    let (b, run, w) = remove_at_correct h.items 0 t v.ordered e in
    (
      t,
      record h { items = b },
      e,
      popped b run,
      record { ordered = w.heap; fits = omega (arith, v.fits, w.size); allocated = v.allocated },
      w,
      λ i p. rw (ap fires e) at (root_least h.items i v.ordered p),
    )
  where
    popped : (b : List Timer) → remove_at h.items 0 ≡ some b → pop h ≡ some (record h { items = b })
    popped b run = unfold pop in ground arith

reschedule-DownInv : (a : List Timer) (t : Timer) → IsHeap a → 0 < length a → DownInv (set a 0 t) 0
reschedule-DownInv a t heap h =
    let sized = length-set a 0 t in
    record {
      edges =
          λ c p q r. ground (arith, sized, heap c p, key-set a 0 t c h, key-set a 0 t (parent c) h);
      bridged = λ c p q pos e. absurd (omega arith);
    }

-- Rescheduling changes the fire time of the timer that peek shows, and nothing else; the heap stays
-- valid.
pub reschedule_top-peek :
    (h : Heap) (ms : ℕ)
    → IsValid h
    → 0 < length h.items
    → (t : Timer) × (r : Heap) × (peek h ≡ some t)
      × (reschedule_top h ms ≡ some r)
      × IsValid r
      × ((p : Timer → Bool)
          → count p r.items + bit (p t)
            ≡ count p h.items + bit (p (record t { next_fire_ms = ms })))
unfolding peek
reschedule_top-peek h ms v some_left =
    let (t, e) = get_elem?_total h.items 0 some_left in
    let later = record t { next_fire_ms = ms } in
    let start = set h.items 0 later in
    let sized = length-set h.items 0 later in
    let (b, run, done) =
      sift_down_restores (length start) start 0 (omega arith) (omega (arith, sized))
        (reschedule-DownInv h.items later v.ordered some_left) in
    (
      t,
      record h { items = b },
      e,
      settled t b e run,
      record {
        ordered = done.heap;
        fits = omega (arith, v.fits, done.size, sized);
        allocated = v.allocated;
      },
      λ p. omega (arith, done.same p, count-set p h.items 0 later t e),
    )
  where
    settled :
        (t : Timer) (b : List Timer)
        → get_elem? h.items 0 ≡ some t
        → sift_down
            (length (set h.items 0 (record t { next_fire_ms = ms })))
            (set h.items 0 (record t { next_fire_ms = ms }))
            0
          ≡ some b
        → reschedule_top h ms ≡ some (record h { items = b })
    settled t b e run = unfold reschedule_top in ground arith

-- On an empty heap peek shows nothing, and pop and reschedule_top change nothing.
pub empty_unchanged :
    (h : Heap) (ms : ℕ)
    → length h.items ≡ 0
    → (peek h ≡ none) × (pop h ≡ some h) × (reschedule_top h ms ≡ some h)
unfolding peek pop reschedule_top
empty_unchanged h ms e = (grind arith, ground arith, ground arith)
