-- ===== src/Runtime/TimerHeap/Down.antt =====
-- `_sift_down` of modules/runtime/src/timer_heap.c.
use native.Mathlib.Decide.{dec_lt, ℕ_discrete}
use blue_bird.Prelude.{
  ℕ, zero, suc, ◌+◌, ◌*◌, ◌≤◌, ◌<◌, ◌≡◌, refl, ◌∙◌, ◌≢◌, ◌⊎◌, inl, List, some, arith, Bool, count,
  ltb, if◌then◌else◌, length,
}
use blue_bird.Runtime.TimerHeap.{Timer, swap, smaller, sift_down}
use blue_bird.Runtime.TimerHeap.Order.{
  key, parent, IsHeap, IsSettled, fire_at-key, Swapped, swap_total, IsSettled-trans,
}
use blue_bird.Runtime.TimerHeap.Up.{UpInv}

-- Only the children of `i` may fire before it, and they fire after its parent.
pub record DownInv (a : List Timer) (i : ℕ) : Type 0 where
  pub edges : (c : ℕ) → 0 < c → c < length a → parent c ≢ i → key a (parent c) ≤ key a c
  pub bridged : (c : ℕ) → 0 < c → c < length a → 0 < i → parent c ≡ i → key a (parent i) ≤ key a c

-- In the middle of remove_at: only the edges into and out of `i` may be wrong, and the entries around
-- `i` are in order.
pub record GapInv (a : List Timer) (i : ℕ) : Type 0 where
  pub edges : (c : ℕ) → 0 < c → c < length a → c ≢ i → parent c ≢ i → key a (parent c) ≤ key a c
  pub bridged : (c : ℕ) → 0 < c → c < length a → 0 < i → parent c ≡ i → key a (parent i) ≤ key a c

DownInv-GapInv : (a : List Timer) (i : ℕ) → DownInv a i → GapInv a i
DownInv-GapInv a i inv = record { edges = λ c p q _. inv.edges c p q; bridged = inv.bridged }

-- What the two tests of a round choose: the entry itself if no child fires before it, or else a
-- child that fires first.
pub record IsLeast (a : List Timer) (i s : ℕ) : Type 0 where
  pub inside : s < length a
  pub among : (s ≡ i) ⊎ ((0 < s) × (parent s ≡ i) × (key a s < key a i))
  pub least : (c : ℕ) → 0 < c → c < length a → parent c ≡ i → key a s ≤ key a c

pub smaller-choice :
    (a : List Timer) (child s : ℕ)
    → s < length a
    → (r : ℕ) × (smaller a child s ≡ some r)
      × (r < length a)
      × ((r ≡ s) ⊎ ((r ≡ child) × (key a child < key a s)))
      × (key a r ≤ key a s)
      × (child < length a → key a r ≤ key a child)
unfolding smaller
smaller-choice a child s h = elim (dec_lt child (length a)) [
  | yes inside ↦
      let c = fire_at-key a child inside in
      let d = fire_at-key a s h in
      (
        (if ltb (key a child) (key a s) then child else s),
        ground (arith, c, d),
        ground arith,
        ground arith,
        ground arith,
        ground arith,
      )
  | no outside ↦ (s, ground arith, h, inl refl, omega arith, λ p. absurd (outside p))
]

pub children : (c i : ℕ) → 0 < c → parent c ≡ i → (c ≡ 2 * i + 1) ⊎ (c ≡ 2 * i + 2)
children c i p e = omega arith

-- One round chooses a least entry.
pub round-IsLeast :
    (a : List Timer) (i : ℕ)
    → i < length a
    → (l s : ℕ) × (smaller a (2 * i + 1) i ≡ some l)
      × (smaller a (2 * i + 2) l ≡ some s)
      × IsLeast a i s
round-IsLeast a i h =
    let (l, e, lin, lwhich, lle, lchild) = smaller-choice a (2 * i + 1) i h in
    let (s, f, sin, swhich, sle, schild) = smaller-choice a (2 * i + 2) l lin in
    (
      l,
      s,
      e,
      f,
      record {
        inside = sin;
        among = ground arith;
        least = λ c p q r. ground (arith, children c i p r, lchild, schild);
      },
    )

sift_down-stay :
    (fuel : ℕ) (a : List Timer) (i l s : ℕ)
    → smaller a (2 * i + 1) i ≡ some l
    → smaller a (2 * i + 2) l ≡ some s
    → s ≡ i
    → sift_down (suc fuel) a i ≡ some a
unfolding sift_down
sift_down-stay fuel a i l s e f same = ground arith

sift_down-sink :
    (fuel : ℕ) (a b : List Timer) (i l s : ℕ)
    → smaller a (2 * i + 1) i ≡ some l
    → smaller a (2 * i + 2) l ≡ some s
    → s ≢ i
    → swap a i s ≡ some b
    → sift_down (suc fuel) a i ≡ sift_down fuel b s
unfolding sift_down
sift_down-sink fuel a b i l s e f differs g = ground arith

stay-IsSettled : (a : List Timer) (i s : ℕ) → DownInv a i → IsLeast a i s → s ≡ i → IsSettled a a
stay-IsSettled a i s inv least e = record {
  heap = λ c p q. ground (arith, ℕ_discrete (parent c) i, inv.edges c p q, least.least c p q);
  same = λ t. refl;
  size = refl;
}

sink-DownInv :
    (a b : List Timer) (i s : ℕ)
    → GapInv a i
    → IsLeast a i s
    → s ≢ i
    → Swapped a b i s
    → DownInv b s
sink-DownInv a b i s inv least differs sw = record {
  edges = λ c p q r. ground (
    arith,
    least.among,
    sw.size,
    sw.keys c,
    sw.keys (parent c),
    inv.edges c,
    inv.bridged s,
    least.least c,
  );
  bridged =
      λ c p q r e. ground (arith, least.among, sw.size, sw.keys c, sw.keys (parent s), inv.edges c);
}

pub sift_down_restores :
    (fuel : ℕ) (a : List Timer) (i : ℕ)
    → length a ≤ i + fuel
    → i < length a
    → DownInv a i
    → (b : List Timer) × (sift_down fuel a i ≡ some b) × IsSettled a b
sift_down_restores zero a i f h inv = absurd (omega arith)
sift_down_restores (suc fuel) a i f h inv =
    let (l, s, e, g, least) = round-IsLeast a i h in
    elim (ℕ_discrete s i) [
      | yes same ↦ (a, sift_down-stay fuel a i l s e g same, stay-IsSettled a i s inv least same)
      | no differs ↦
          let (b, swapped, sw) = swap_total a i s h least.inside in
          let deeper : length b ≤ s + fuel = ground (arith, least.among, sw.size) in
          let (c, run, done) =
            sift_down_restores fuel b s deeper (omega (arith, sw.size, least.inside))
              (sink-DownInv a b i s (DownInv-GapInv a i inv) least differs sw) in
          (c, sift_down-sink fuel a b i l s e g differs swapped ∙ run, IsSettled-trans sw done)
    ]

stay-UpInv : (a : List Timer) (i s : ℕ) → GapInv a i → IsLeast a i s → s ≡ i → UpInv a i
stay-UpInv a i s inv least e = record {
  edges = λ c p q r. ground (arith, ℕ_discrete (parent c) i, inv.edges c, least.least c);
  bridged = inv.bridged;
}

pub IsHeap-UpInv : (a : List Timer) (i : ℕ) → IsHeap a → i < length a → UpInv a i
IsHeap-UpInv a i heap h = record {
  edges = λ c p q _. heap c p q;
  bridged = λ c p q pos e. ground (arith, heap c, heap i);
}

-- After sifting down from `i`, sifting up from `i` restores the order.
pub sift_down-UpInv :
    (fuel : ℕ) (a : List Timer) (i : ℕ)
    → length a ≤ i + fuel
    → i < length a
    → GapInv a i
    → (b : List Timer) × (sift_down fuel a i ≡ some b)
      × UpInv b i
      × (length b ≡ length a)
      × ((p : Timer → Bool) → count p b ≡ count p a)
sift_down-UpInv zero a i f h inv = absurd (omega arith)
sift_down-UpInv (suc fuel) a i f h inv =
    let (l, s, e, g, least) = round-IsLeast a i h in
    elim (ℕ_discrete s i) [
      | yes same ↦ (
        a,
        sift_down-stay fuel a i l s e g same,
        stay-UpInv a i s inv least same,
        refl,
        λ t. refl,
      )
      | no differs ↦
          let (b, swapped, sw) = swap_total a i s h least.inside in
          let deeper : length b ≤ s + fuel = ground (arith, least.among, sw.size) in
          let (c, run, done) =
            sift_down_restores fuel b s deeper (omega (arith, sw.size, least.inside))
              (sink-DownInv a b i s inv least differs sw) in
          let all = IsSettled-trans sw done in
          (
            c,
            sift_down-sink fuel a b i l s e g differs swapped ∙ run,
            IsHeap-UpInv c i all.heap (omega (arith, all.size)),
            all.size,
            all.same,
          )
    ]
