-- ===== src/Web/Path/Decode.antt =====
-- What a decoded path guarantees (decode_path of modules/web/src/http/server_request.c).
use blue_bird.Prelude.{
  ℕ, suc, ◌+◌, ◌<◌, ◌≡◌, refl, ◌∙◌, ap, true, false, [], ◌∷◌, Option, none, some, arith, ◌==◌, inl,
  inr, Bool-cases, Option-cases, length, count, Bytes,
}
use blue_bird.Web.Path.{
  hex_value, is_valid_decoded_path_char, unescape, put, decode_from, starts_with_slash, decode_path,
}

abbrev pub AllValid : Bytes → Type 0
AllValid [] = Unit
AllValid (c ∷ cs) = (is_valid_decoded_path_char c ≡ true) × AllValid cs

-- The slashes in a path.
abbrev pub slashes : Bytes → ℕ
slashes path = count (λ c. c == 47) path

hex_value-digit : (c v : ℕ) → hex_value c ≡ some v → (c == 47) ≡ false
unfolding hex_value
hex_value-digit c v h = ground arith

unescape_facts :
    (hi lo d : ℕ)
    → unescape hi lo ≡ some d
    → ((hi == 47) ≡ false) × (((lo == 47) ≡ false) × ((d == 47) ≡ false))
unfolding unescape
unescape_facts hi lo d h = elim (Option-cases (hex_value hi)) [
  | inl n ↦ absurd (ground (arith, n, h))
  | inr (x, n) ↦ elim (Option-cases (hex_value lo)) [
    | inl m ↦ absurd (ground (arith, n, m, h))
    | inr (y, m) ↦
        (hex_value-digit hi x n, (hex_value-digit lo y m, ground (arith, rw (n, m) at h)))
  ]
]

-- What a byte that is written tells.
record Written (dst_cap out c : ℕ) (rest : Option Bytes) (dst : Bytes) : Type 0 where
  behind : Bytes
  continues : rest ≡ some behind
  is_written : dst ≡ c ∷ behind
  valid : is_valid_decoded_path_char c ≡ true
  room : suc out < dst_cap

put-Written :
    (dst_cap out c : ℕ) (rest : Option Bytes) (dst : Bytes)
    → put dst_cap out c rest ≡ some dst
    → Written dst_cap out c rest dst
unfolding put
put-Written dst_cap out c none dst h = absurd (ground (arith, h))
put-Written dst_cap out c (some behind) dst h = record {
  behind = behind;
  continues = refl;
  is_written = ground (arith, h);
  valid = ground (arith, h);
  room = ground (arith, h);
}

-- A decoded part of a path: its bytes are valid, it fits the buffer, and it has as many slashes as
-- its source.
pub record Decoded (dst_cap out : ℕ) (src dst : Bytes) : Type 0 where
  valid : AllValid dst
  fits : out + length dst < dst_cap
  structure : slashes dst ≡ slashes src

Written-Decoded :
    (dst_cap out c : ℕ) (rest : Option Bytes) (before src dst : Bytes)
    (w : Written dst_cap out c rest dst)
    → Decoded dst_cap (suc out) src w.behind
    → slashes before ≡ slashes (c ∷ src)
    → Decoded dst_cap out before dst
Written-Decoded dst_cap out c rest before src dst w d same = rw (w.is_written) (record {
  valid = (w.valid, d.valid);
  fits = omega (arith, d.fits);
  structure = omega (arith, same, d.structure);
})

decode_from-Decoded :
    (dst_cap out : ℕ) (src dst : Bytes)
    → out < dst_cap
    → decode_from dst_cap out src ≡ some dst
    → Decoded dst_cap out src dst
unfolding decode_from
decode_from-Decoded dst_cap out [] dst room h =
    let e : dst ≡ [] = ground (arith, h) in
    rw (e) (record { valid = tt; fits = omega (arith, room); structure = refl })
decode_from-Decoded dst_cap out (c ∷ []) dst room h = elim (Bool-cases (c == 37)) [
  | inl t ↦ absurd (ground (arith, t, h))
  | inr t ↦
      let w = put-Written dst_cap out c (some []) dst (rw (t) at h) in
      Written-Decoded dst_cap out c (some []) (c ∷ []) [] dst w
        (decode_from-Decoded dst_cap (suc out) [] w.behind w.room w.continues) refl
]
decode_from-Decoded dst_cap out (c ∷ hi ∷ []) dst room h = elim (Bool-cases (c == 37)) [
  | inl t ↦ absurd (ground (arith, t, h))
  | inr t ↦
      let rest = decode_from dst_cap (suc out) (hi ∷ []) in
      let w = put-Written dst_cap out c rest dst (rw (t) at h) in
      Written-Decoded dst_cap out c rest (c ∷ hi ∷ []) (hi ∷ []) dst w
        (decode_from-Decoded dst_cap (suc out) (hi ∷ []) w.behind w.room w.continues) refl
]
decode_from-Decoded dst_cap out (c ∷ hi ∷ lo ∷ src) dst room h = elim (Bool-cases (c == 37)) [
  | inl t ↦ elim (Option-cases (unescape hi lo)) [
    | inl n ↦ absurd (ground (arith, t, n, h))
    | inr (d, n) ↦
        let rest = decode_from dst_cap (suc out) src in
        let w = put-Written dst_cap out d rest dst (rw (t, n) at h) in
        let facts = unescape_facts hi lo d n in
        Written-Decoded dst_cap out d rest (c ∷ hi ∷ lo ∷ src) src dst w
          (decode_from-Decoded dst_cap (suc out) src w.behind w.room w.continues)
          (ground (arith, t, facts.0, facts.1.0, facts.1.1))
  ]
  | inr t ↦
      let rest = decode_from dst_cap (suc out) (hi ∷ lo ∷ src) in
      let w = put-Written dst_cap out c rest dst (rw (t) at h) in
      Written-Decoded dst_cap out c rest (c ∷ hi ∷ lo ∷ src) (hi ∷ lo ∷ src) dst w
        (decode_from-Decoded dst_cap (suc out) (hi ∷ lo ∷ src) w.behind w.room w.continues) refl
]

-- A decoded path begins with a slash, has valid characters only, fits the buffer with its final NUL,
-- and has exactly the slashes of its source: decoding makes no new one.
pub decode_path-Decoded :
    (src dst : Bytes) (dst_cap : ℕ)
    → decode_path src dst_cap ≡ some dst
    → (starts_with_slash dst ≡ true) × Decoded dst_cap 0 src dst
unfolding decode_path
decode_path-Decoded src dst dst_cap h = elim (Option-cases (decode_from dst_cap 0 src)) [
  | inl n ↦ absurd (ground (arith, n, h))
  | inr (found, n) ↦
      let positive : 0 < dst_cap = ground (arith, h) in
      let same : found ≡ dst = ground (arith, n, h) in
      let slash : starts_with_slash dst ≡ true = ground (arith, n, h) in
      (slash, decode_from-Decoded dst_cap 0 src dst positive (n ∙ ap some same))
]
