-- ===== src/Runtime/TimerHeap/Order.antt =====
-- The order of modules/runtime/src/timer_heap.c, and what `_swap` and the reads do to it.
use blue_bird.Prelude.{
  ℕ, zero, suc, ◌-◌, ◌/◌, ◌≤◌, ◌<◌, ◌≡◌, refl, Bool, List, [], ◌∷◌, Option, none, some, arith, ◌==◌,
  if◌then◌else◌, ◌∙◌, length, get_elem?, set, length-set, count, count-set, get_elem?_total,
}
use blue_bird.Runtime.TimerHeap.{Timer, swap, fire_at}

abbrev pub fires : Option Timer → ℕ
fires none = 0
fires (some t) = t.next_fire_ms

-- The fire time at an index; 0 outside, where nothing is claimed.
abbrev pub key : List Timer → ℕ → ℕ
key items i = fires (get_elem? items i)

abbrev pub parent : ℕ → ℕ
parent c = (c - 1) / 2

-- No timer fires before its parent.
abbrev pub IsHeap : List Timer → Type 0
IsHeap a = (c : ℕ) → 0 < c → c < length a → key a (parent c) ≤ key a c

-- The same timers, as often: every test passes as often on both.
abbrev pub SameTimers : List Timer → List Timer → Type 0
SameTimers a b = (p : Timer → Bool) → count p a ≡ count p b

-- Everything that a loop promises: the order, the timers and their number.
pub record IsSettled (a b : List Timer) : Type 0 where
  pub heap : IsHeap b
  pub same : SameTimers b a
  pub size : length b ≡ length a

pub fire_at-key : (a : List Timer) (i : ℕ) → i < length a → fire_at a i ≡ some (key a i)
unfolding fire_at
fire_at-key a i h = let (t, e) = get_elem?_total a i h in rw e

pub key-set :
    (a : List Timer) (i : ℕ) (v : Timer) (c : ℕ)
    → i < length a
    → key (set a i v) c ≡ (if i == c then v.next_fire_ms else key a c)
key-set [] i v c h = elim h [ ]
key-set (x ∷ a) zero v zero h = refl
key-set (x ∷ a) zero v (suc c) h = ground arith
key-set (x ∷ a) (suc i) v zero h = ground arith
key-set (x ∷ a) (suc i) v (suc c) h = ground (arith, key-set a i v c)

-- What a swap of two entries inside the heap gives.
pub record Swapped (a b : List Timer) (i j : ℕ) : Type 0 where
  pub size : length b ≡ length a
  pub same : SameTimers b a
  pub keys : (c : ℕ) → key b c ≡ (if j == c then key a i else if i == c then key a j else key a c)

get_elem?-set_swap :
    (a : List Timer) (i j : ℕ) (x y : Timer)
    → get_elem? a i ≡ some x
    → get_elem? a j ≡ some y
    → get_elem? (set a i y) j ≡ some y
get_elem?-set_swap [] i j x y p q = absurd (cc)
get_elem?-set_swap (z ∷ a) zero zero x y p q = refl
get_elem?-set_swap (z ∷ a) zero (suc j) x y p q = q
get_elem?-set_swap (z ∷ a) (suc i) zero x y p q = q
get_elem?-set_swap (z ∷ a) (suc i) (suc j) x y p q = get_elem?-set_swap a i j x y p q

pub swap_total :
    (a : List Timer) (i j : ℕ)
    → i < length a
    → j < length a
    → (b : List Timer) × (swap a i j ≡ some b) × Swapped a b i j
unfolding swap
swap_total a i j hi hj =
    let (x, p) = get_elem?_total a i hi in
    let (y, q) = get_elem?_total a j hj in
    let one = set a i y in
    let sized = length-set a i y in
    (
      set one j x,
      rw (p, q),
      record {
        size = omega (arith, length-set one j x, sized);
        same = λ t. omega (
          arith,
          count-set t a i y x p,
          count-set t one j x y (get_elem?-set_swap a i j x y p q),
        );
        keys = λ c. ground (arith, key-set one j x c, key-set a i y c, sized, p, q);
      },
    )

pub IsSettled-trans :
    {a b c : List Timer} {i j : ℕ} → Swapped a b i j → IsSettled b c → IsSettled a c
IsSettled-trans s d = record {
  heap = d.heap;
  same = λ p. d.same p ∙ s.same p;
  size = d.size ∙ s.size;
}

root_least_below :
    (k : ℕ) (a : List Timer) (i : ℕ) → IsHeap a → i < k → i < length a → key a 0 ≤ key a i
root_least_below zero a i h f p = absurd (omega arith)
root_least_below (suc k) a zero h f p = omega arith
root_least_below (suc k) a (suc i) h f p = omega (
  arith,
  h (suc i) (omega arith) p,
  root_least_below k a (parent (suc i)) h (omega arith) (omega arith),
)

pub root_least : (a : List Timer) (i : ℕ) → IsHeap a → i < length a → key a 0 ≤ key a i
root_least a i h p = root_least_below (suc i) a i h (omega arith) p
