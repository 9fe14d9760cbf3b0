-- ===== src/Runtime/TimerHeap/Up.antt =====
-- `_sift_up` of modules/runtime/src/timer_heap.c.
use native.Mathlib.Decide.{dec_le, ℕ_discrete}
use blue_bird.Prelude.{ℕ, zero, suc, ◌≤◌, ◌<◌, ◌≡◌, refl, ◌∙◌, ◌≢◌, List, some, arith, length}
use blue_bird.Runtime.TimerHeap.{Timer, swap, sift_up}
use blue_bird.Runtime.TimerHeap.Order.{
  key, parent, IsSettled, fire_at-key, Swapped, swap_total, IsSettled-trans,
}

-- Only the entry at `i` may fire before its parent, and its children fire after that parent.
pub record UpInv (a : List Timer) (i : ℕ) : Type 0 where
  pub edges : (c : ℕ) → 0 < c → c < length a → c ≢ i → key a (parent c) ≤ key a c
  pub bridged : (c : ℕ) → 0 < c → c < length a → 0 < i → parent c ≡ i → key a (parent i) ≤ key a c

Swapped-UpInv :
    (a b : List Timer) (i : ℕ)
    → UpInv a i
    → 0 < i
    → i < length a
    → key a i < key a (parent i)
    → Swapped a b i (parent i)
    → UpInv b (parent i)
Swapped-UpInv a b i inv pos h lt s = record {
  edges = λ c p q r.
      ground (arith, s.size, s.keys c, s.keys (parent c), inv.edges c, inv.bridged c, inv.edges i);
  bridged = λ c p q r e.
      ground
        (arith, s.size, s.keys c, s.keys (parent (parent i)), inv.edges c, inv.edges (parent i));
}

sift_up-stay :
    (fuel : ℕ) (a : List Timer) (i : ℕ)
    → i < length a
    → key a (parent i) ≤ key a i
    → sift_up (suc fuel) a i ≡ some a
unfolding sift_up
sift_up-stay fuel a i h le =
    ground (arith, fire_at-key a (parent i) (omega arith), fire_at-key a i h)

sift_up-rise :
    (fuel : ℕ) (a b : List Timer) (i : ℕ)
    → 0 < i
    → i < length a
    → key a i < key a (parent i)
    → swap a i (parent i) ≡ some b
    → sift_up (suc fuel) a i ≡ sift_up fuel b (parent i)
unfolding sift_up
sift_up-rise fuel a b i pos h lt e =
    ground (arith, fire_at-key a (parent i) (omega arith), fire_at-key a i h)

pub sift_up_restores :
    (fuel : ℕ) (a : List Timer) (i : ℕ)
    → i < fuel
    → i < length a
    → UpInv a i
    → (b : List Timer) × (sift_up fuel a i ≡ some b) × IsSettled a b
sift_up_restores zero a i f h inv = absurd (omega arith)
sift_up_restores (suc fuel) a i f h inv = elim (dec_le (key a (parent i)) (key a i)) [
  | yes settled ↦ (
    a,
    sift_up-stay fuel a i h settled,
    record {
      heap = λ c p q. ground (arith, ℕ_discrete c i, inv.edges c p q);
      same = λ t. refl;
      size = refl;
    },
  )
  | no early ↦
      let pos : 0 < i = ground arith in
      let (b, e, s) = swap_total a i (parent i) h (omega arith) in
      let next = Swapped-UpInv a b i inv pos h (omega arith) s in
      let (c, run, done) =
        sift_up_restores fuel b (parent i) (omega arith) (omega (arith, s.size)) next in
      (c, sift_up-rise fuel a b i pos h (omega arith) e ∙ run, IsSettled-trans s done)
]
