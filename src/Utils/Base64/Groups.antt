-- ===== src/Utils/Base64/Groups.antt =====
-- Base64 against the groups of its specification (bb_base64_encode of modules/utils/src/encoding.c).
use blue_bird.Prelude.{
  ℕ, zero, suc, ◌+◌, ◌-◌, ◌*◌, ◌/◌, ◌%◌, ◌≤◌, ◌<◌, ◌≡◌, refl, ap, ◌∙◌, true, [], ◌∷◌, some, arith,
  length, set, get_or, Bytes,
}
use blue_bird.Utils.Base64.{base64_table, table_at, round, rounds, mod_table, pad, base64_encode}

abbrev letter : ℕ → ℕ
letter n = get_or base64_table n 0

-- Three bytes are four numbers of six bits; two are three, one is two, and '=' fills the group.
abbrev pub groups : Bytes → Bytes
groups [] = []
groups (a ∷ []) = letter (a / 4) ∷ letter (a % 4 * 16) ∷ 61 ∷ 61 ∷ []
groups (a ∷ b ∷ []) = letter (a / 4) ∷ letter (a % 4 * 16 + b / 16) ∷ letter (b % 16 * 4) ∷ 61 ∷ []
groups (a ∷ b ∷ c ∷ src) =
    letter (a / 4)
    ∷ letter (a % 4 * 16 + b / 16)
    ∷ letter (b % 16 * 4 + c / 64)
    ∷ letter (c % 64)
    ∷ groups src

abbrev pub AllBytes : Bytes → Type 0
AllBytes [] = Unit
AllBytes (b ∷ s) = (b < 256) × AllBytes s

round-sextets :
    (a b c : ℕ)
    → a < 256
    → b < 256
    → c < 256
    → round a b c
      ≡ letter (a / 4)
        ∷ letter (a % 4 * 16 + b / 16)
        ∷ letter (b % 16 * 4 + c / 64)
        ∷ letter (c % 64)
        ∷ []
unfolding round table_at
round-sextets a b c p q r =
    let triple = a * 65536 + b * 256 + c in
    let e1 : triple / 262144 % 64 ≡ a / 4 = omega arith in
    let e2 : triple / 4096 % 64 ≡ a % 4 * 16 + b / 16 = omega arith in
    let e3 : triple / 64 % 64 ≡ b % 16 * 4 + c / 64 = omega arith in
    let e4 : triple % 64 ≡ c % 64 = omega arith in rw (e1, e2, e3, e4) refl

-- The loop writes exactly as many characters as the buffer has room for, in front of the final NUL.
pub length-rounds : (bytes : Bytes) → length (rounds bytes) ≡ 4 * ((length bytes + 2) / 3)
unfolding rounds round
length-rounds [] = omega arith
length-rounds (a ∷ []) = omega arith
length-rounds (a ∷ b ∷ []) = omega arith
length-rounds (a ∷ b ∷ c ∷ src) = omega (arith, length-rounds src)

set-behind :
    (last last' : ℕ) (x y z w : ℕ) (more : Bytes)
    → last' ≡ suc (suc (suc (suc last)))
    → set (x ∷ y ∷ z ∷ w ∷ more) last' 61 ≡ x ∷ y ∷ z ∷ w ∷ set more last 61
set-behind last last' x y z w more e = rw (e) refl

-- Padding a buffer does not touch its first four bytes if there are others.
pad-behind :
    (n last last' : ℕ) (x y z w : ℕ) (more : Bytes)
    → n ≤ suc last
    → last' ≡ suc (suc (suc (suc last)))
    → pad n last' (x ∷ y ∷ z ∷ w ∷ more) ≡ x ∷ y ∷ z ∷ w ∷ pad n last more
unfolding pad
pad-behind zero last last' x y z w more h e = refl
pad-behind (suc zero) last last' x y z w more h e = set-behind last last' x y z w more e
pad-behind (suc (suc n)) last last' x y z w more h e =
    ap (pad (suc n) (last' - 1)) (set-behind last last' x y z w more e)
    ∙ pad-behind (suc n) (last - 1) (last' - 1) x y z w (set more last 61) (omega arith)
        (omega (arith, e))

-- What the encoder does to its buffer in the end.
finish : Bytes → Bytes
finish bytes = pad (mod_table (length bytes % 3)) (4 * ((length bytes + 2) / 3) - 1) (rounds bytes)

finish-groups : (bytes : Bytes) → AllBytes bytes → finish bytes ≡ groups bytes
unfolding finish rounds pad
finish-groups [] h = refl
finish-groups (a ∷ []) h =
    let no_more : a % 4 * 16 + 0 ≡ a % 4 * 16 = omega arith in
    rw (round-sextets a 0 0 h.0 (omega arith) (omega arith))
      (ap (λ n. letter (a / 4) ∷ letter n ∷ 61 ∷ 61 ∷ []) no_more)
finish-groups (a ∷ b ∷ []) h =
    let no_more : b % 16 * 4 + 0 ≡ b % 16 * 4 = omega arith in
    rw (round-sextets a b 0 h.0 h.1.0 (omega arith))
      (ap (λ n. letter (a / 4) ∷ letter (a % 4 * 16 + b / 16) ∷ letter n ∷ 61 ∷ []) no_more)
finish-groups (a ∷ b ∷ c ∷ []) h = rw (round-sextets a b c h.0 h.1.0 h.1.1.0) refl
finish-groups (a ∷ b ∷ c ∷ d ∷ src) h =
    let m = suc (length src) in
    let more = rounds (d ∷ src) in
    let last = 4 * ((suc (suc (suc m)) + 2) / 3) - 1 in
    let same : suc (suc (suc m)) % 3 ≡ m % 3 = omega arith in
    let few : mod_table (m % 3) ≤ 2 = ground arith in
    rw (round-sextets a b c h.0 h.1.0 h.1.1.0, same)
      (pad-behind (mod_table (m % 3)) (4 * ((m + 2) / 3) - 1) last (letter (a / 4))
          (letter (a % 4 * 16 + b / 16)) (letter (b % 16 * 4 + c / 64)) (letter (c % 64)) more
          (omega (arith, few)) (omega arith)
        ∙ ap
            (λ g.
              letter (a / 4)
              ∷ letter (a % 4 * 16 + b / 16)
              ∷ letter (b % 16 * 4 + c / 64)
              ∷ letter (c % 64)
              ∷ g)
            (finish-groups (d ∷ src) h.1.1.1))

-- With memory, and for entries below 256, the result is the encoding of the specification, padded
-- to whole groups.
pub base64_encode-groups :
    (bytes : Bytes) → AllBytes bytes → base64_encode true bytes ≡ some (groups bytes)
unfolding base64_encode finish
base64_encode-groups bytes h = ap some (finish-groups bytes h)
