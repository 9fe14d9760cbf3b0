-- ===== src/Runtime/TimerHeap/Push.antt =====
-- Creation and push of modules/runtime/src/timer_heap.c.
use mathlib.Core.Path.{subst}
use native.Mathlib.Decide.{dec_lt}
use blue_bird.Prelude.{
  ℕ, ◌+◌, ◌*◌, ◌≤◌, ◌<◌, ◌≡◌, refl, sym, ap, ◌⊎◌, ◌↔◌, inl, inr, Bool, true, false, List, [], ◌∷◌,
  ◌++◌, Option, none, some, arith, leb, if◌then◌else◌, length, count, count-append, length-append,
  get_elem?-append, Bool-cases,
}
use blue_bird.Runtime.TimerHeap.{Timer, Heap, create, grow, push}
use blue_bird.Runtime.TimerHeap.Order.{parent, IsHeap, SameTimers}
use blue_bird.Runtime.TimerHeap.Up.{UpInv, sift_up_restores}

-- The order holds, and the live part fits the allocation.
pub record IsValid (h : Heap) : Type 0 where
  pub ordered : IsHeap h.items
  pub fits : length h.items ≤ h.capacity
  pub allocated : 0 < h.capacity

pub create-IsValid : IsValid create
unfolding create
create-IsValid = record {
  ordered = λ c p q. absurd (omega arith);
  fits = omega arith;
  allocated = omega arith;
}

-- There is a free slot, or the array can be enlarged.
abbrev pub HasRoom : Bool → Heap → Type 0
HasRoom alloc h = (length h.items < h.capacity) ⊎ (alloc ≡ true)

pub append-UpInv : (a : List Timer) (t : Timer) → IsHeap a → UpInv (a ++ t ∷ []) (length a)
append-UpInv a t heap = record {
  edges = λ c p q r. ground (
    arith,
    length-append a (t ∷ []),
    heap c p,
    get_elem?-append a (t ∷ []) c,
    get_elem?-append a (t ∷ []) (parent c),
  );
  bridged = λ c p q pos e. absurd (omega (arith, length-append a (t ∷ [])));
}

-- The array that push writes to: the old one, or one twice as large.
room :
    (alloc : Bool) (h : Heap)
    → IsValid h
    → HasRoom alloc h
    → (r : Heap) × ((if leb h.capacity (length h.items) then grow alloc h else some h) ≡ some r)
      × (r.items ≡ h.items)
      × (length h.items < r.capacity)
unfolding grow
room alloc h v (inl free) = (h, ground arith, refl, free)
room true h v (inr e) = elim (Bool-cases (leb h.capacity (length h.items))) [
  | inl full ↦
      (record h { capacity = h.capacity * 2 }, rw full, refl, omega (arith, v.fits, v.allocated))
  | inr free ↦ (h, rw free, refl, ground arith)
]
room false h v (inr e) = absurd (cc)

-- Push with room for the timer succeeds: the heap stays valid and holds exactly one more timer.
pub push_correct :
    (alloc repeating : Bool) (h : Heap) (next_fire_ms interval_ms task : ℕ)
    → IsValid h
    → HasRoom alloc h
    → (r : Heap) × (push alloc h next_fire_ms interval_ms repeating (some task) ≡ some r)
      × IsValid r
      × SameTimers r.items (
          record {
            interval_ms = interval_ms;
            next_fire_ms = next_fire_ms;
            repeating = repeating;
            task = task;
          }
          ∷ h.items)
unfolding push
push_correct alloc repeating h next_fire_ms interval_ms task v free =
    let (r, roomy, kept, larger) = room alloc h v free in
    let timer : Timer = record {
      interval_ms = interval_ms;
      next_fire_ms = next_fire_ms;
      repeating = repeating;
      task = task;
    } in
    let grown = r.items ++ timer ∷ [] in
    let sized = length-append r.items (timer ∷ []) in
    let (b, run, done) =
      sift_up_restores (length r.items + 1) grown (length r.items) (omega arith)
        (omega (arith, sized)) (append-UpInv r.items timer (subst IsHeap (sym kept) v.ordered)) in
    (
      record r { items = b },
      rw (roomy, run),
      record {
        ordered = done.heap;
        fits = omega (arith, done.size, sized, ap length kept);
        allocated = omega arith;
      },
      λ p. omega (arith, done.same p, count-append p r.items (timer ∷ []), ap (count p) kept),
    )

-- Push fails exactly without a task, or when the array is full and cannot be enlarged.
pub push-none :
    (alloc repeating : Bool) (h : Heap) (next_fire_ms interval_ms : ℕ) (task : Option ℕ)
    → IsValid h
    → (push alloc h next_fire_ms interval_ms repeating task ≡ none)
      ↔ ((task ≡ none) ⊎ ((length h.items ≡ h.capacity) × (alloc ≡ false)))
push-none alloc repeating h next_fire_ms interval_ms none v = (λ _. inl refl, λ _. no_task)
  where
    no_task : push alloc h next_fire_ms interval_ms repeating none ≡ none
    no_task = unfold push in refl
push-none true repeating h next_fire_ms interval_ms (some task) v =
    let (r, run, _, _) = push_correct true repeating h next_fire_ms interval_ms task v (inr refl) in
    (λ e. absurd (cc), λ e. absurd (ground arith))
push-none false repeating h next_fire_ms interval_ms (some task) v =
    elim (dec_lt (length h.items) h.capacity) [
      | yes free ↦
          let (r, run, _, _) =
            push_correct false repeating h next_fire_ms interval_ms task v (inl free) in
          (λ e. absurd (cc), λ e. absurd (ground arith))
      | no full ↦ (λ _. inr (omega (arith, v.fits), refl), λ _. refused full)
    ]
  where
    refused :
        ¬ (length h.items < h.capacity)
        → push false h next_fire_ms interval_ms repeating (some task) ≡ none
    refused full = unfold push grow in ground arith
