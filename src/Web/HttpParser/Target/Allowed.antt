-- ===== src/Web/HttpParser/Target/Allowed.antt =====
-- What sanitize_request_target of modules/web/src/http/parser.c refuses.
use mathlib.Core.Path.{subst}
use blue_bird.Prelude.{
  ap, ℕ, zero, suc, ◌+◌, ◌*◌, ◌≤◌, ◌<◌, ◌≡◌, ◌≢◌, refl, sym, ◌∙◌, ◌⊎◌, inl, inr, Bool, true, false,
  not, ◌&&◌, ◌||◌, List, [], ◌∷◌, ◌++◌, some, arith, ◌==◌, Bytes, same_bytes, same_bytes_iff, codes,
  Bool-cases, Option-cases, append_nil,
}
use blue_bird.Web.Router.Split.{pieces, onto_first, onto_first_twice, onto_first_nil}
use blue_bird.Web.Path.{hex_value}
use blue_bird.Web.Query.{hex_byte}
use blue_bird.Web.HttpParser.Target.{
  is_target_byte, all_from, path_of, is_dot_segment, dot_segment_from, sanitize_request_target,
  is_query_byte, query_of,
}

abbrev pub Every {ℓ} : {A : Type ℓ} → (A → Type 0) → List A → Type 0
Every P [] = Unit
Every P (x ∷ xs) = P x × Every P xs

-- A hexadecimal digit and its value.
abbrev pub IsHexDigit : ℕ → ℕ → Type 0
IsHexDigit c v =
    ((c ≡ 48 + v) × (v < 10))
    ⊎ (((c ≡ 55 + v) × ((10 ≤ v) × (v < 16))) ⊎ ((c ≡ 87 + v) × ((10 ≤ v) × (v < 16))))

-- Two hexadecimal digits for no control character, no '/' (47) and no '\' (92).
abbrev pub IsEscape : Bytes → Type 0
IsEscape (hi ∷ lo ∷ rest) =
    (h : ℕ) × (l : ℕ) × IsHexDigit hi h
    × IsHexDigit lo l
    × ((32 ≤ h * 16 + l) × (h * 16 + l ≢ 127) × (h * 16 + l ≢ 47) × (h * 16 + l ≢ 92))
IsEscape _ = ⊥

-- Every byte is no '#' (35) and no '\', and every '%' (37) begins an escape.
abbrev pub AreEscaped : Bytes → Type 0
AreEscaped [] = Unit
AreEscaped (c ∷ rest) = (c ≢ 35) × (c ≢ 92) × ((c ≢ 37) ⊎ IsEscape rest) × AreEscaped rest

hex_value-IsHexDigit : (c v : ℕ) → hex_value c ≡ some v → IsHexDigit c v
unfolding hex_value
hex_value-IsHexDigit c v e = ground (arith, e)

is_target_byte-IsEscape : (rest : Bytes) → is_target_byte 37 rest ≡ true → IsEscape rest
unfolding is_target_byte hex_byte
is_target_byte-IsEscape [] e = absurd (cc)
is_target_byte-IsEscape (hi ∷ []) e = absurd (cc)
is_target_byte-IsEscape (hi ∷ lo ∷ rest) e = elim (Option-cases (hex_value hi)) [
  | inl n ↦ absurd (ground (arith, e, n))
  | inr (h, hd) ↦ elim (Option-cases (hex_value lo)) [
    | inl n ↦ absurd (ground (arith, e, hd, n))
    | inr (l, ld) ↦
        let value : (32 ≤ h * 16 + l) × (h * 16 + l ≢ 127) × (h * 16 + l ≢ 47) × (h * 16 + l ≢ 92) =
          ground (arith, e, hd, ld) in
        (h, l, hex_value-IsHexDigit hi h hd, hex_value-IsHexDigit lo l ld, value)
  ]
]

is_target_byte-plain :
    (c : ℕ) (rest : Bytes) → (c == 37) ≡ false → is_target_byte c rest ≡ true → (c ≢ 35) × (c ≢ 92)
unfolding is_target_byte
is_target_byte-plain c rest f e = ground (arith, e, f)

-- Bytes that are passed over are hexadecimal digits.
abbrev Skipped : ℕ → Bytes → Type 0
Skipped zero rest = Unit
Skipped (suc skip) [] = Unit
Skipped (suc skip) (c ∷ rest) = ((v : ℕ) × IsHexDigit c v) × Skipped skip rest

IsHexDigit-plain : (c v : ℕ) → IsHexDigit c v → (c ≢ 35) × (c ≢ 92) × (c ≢ 37)
IsHexDigit-plain c v h = ground (arith, h)

IsEscape-Skipped : (rest : Bytes) → IsEscape rest → Skipped 2 rest
IsEscape-Skipped [] none_there = elim none_there [ ]
IsEscape-Skipped (hi ∷ []) none_there = elim none_there [ ]
IsEscape-Skipped (hi ∷ lo ∷ rest) (h, l, hd, ld, value) = ((h, hd), ((l, ld), tt))

all_from-AreEscaped :
    (skip : ℕ) (target : Bytes)
    → Skipped skip target
    → all_from is_target_byte skip target ≡ true
    → AreEscaped target
unfolding all_from
all_from-AreEscaped skip [] s e = tt
all_from-AreEscaped (suc skip) (c ∷ rest) ((v, d), s) e =
    let (hash, backslash, percent) = IsHexDigit-plain c v d in
    (hash, backslash, inl percent, all_from-AreEscaped skip rest s e)
all_from-AreEscaped zero (c ∷ rest) s e = elim (Bool-cases (c == 37)) [
  | inl t ↦
      let here : is_target_byte c rest ≡ true = ground (arith, e) in
      let later : all_from is_target_byte 2 rest ≡ true = ground (arith, e, t) in
      let percent : c ≡ 37 = ground (arith, t) in
      let escape =
        is_target_byte-IsEscape rest (subst (λ b. is_target_byte b rest ≡ true) percent here) in
      (
        omega (arith, percent),
        omega (arith, percent),
        inr escape,
        all_from-AreEscaped 2 rest (IsEscape-Skipped rest escape) later,
      )
  | inr f ↦
      let here : is_target_byte c rest ≡ true = ground (arith, e) in
      let later : all_from is_target_byte 0 rest ≡ true = ground (arith, e, f) in
      let (hash, backslash) = is_target_byte-plain c rest f here in
      (hash, backslash, inl (ground (arith, f)), all_from-AreEscaped 0 rest tt later)
]

-- The segments that mean "." or "..", with each dot also as an escape.
abbrev pub dot_segments : List Bytes
dot_segments =
    codes "."
    ∷ codes "%2e"
    ∷ codes "%2E"
    ∷ codes ".."
    ∷ codes ".%2e"
    ∷ codes ".%2E"
    ∷ codes "%2e."
    ∷ codes "%2E."
    ∷ codes "%2e%2e"
    ∷ codes "%2e%2E"
    ∷ codes "%2E%2e"
    ∷ codes "%2E%2E"
    ∷ []

-- A path without a dot segment.
abbrev pub HasNoDots : Bytes → Type 0
HasNoDots path = Every (λ piece. Every (λ dots. piece ≢ dots) dot_segments) (pieces path)

abbrev any_dots : List Bytes → Bool
any_dots [] = false
any_dots (p ∷ ps) = is_dot_segment p || any_dots ps

dot_segment_from-pieces :
    (segment path : Bytes)
    → dot_segment_from segment path ≡ any_dots (onto_first segment (pieces path))
unfolding dot_segment_from
dot_segment_from-pieces segment [] = rw (append_nil segment) (ground arith)
dot_segment_from-pieces segment (c ∷ path) = elim (Bool-cases (c == 47)) [
  | inl t ↦ rw (t, append_nil segment, dot_segment_from-pieces [] path, onto_first_nil path) refl
  | inr t ↦
      rw (t, sym (onto_first_twice segment (c ∷ []) (pieces path)))
        (dot_segment_from-pieces (segment ++ c ∷ []) path)
]

not_dots :
    (piece : Bytes) (names : List Bytes)
    → Every (λ dots. is_dot_segment dots ≡ true) names
    → is_dot_segment piece ≡ false
    → Every (λ dots. piece ≢ dots) names
not_dots piece [] t f = tt
not_dots piece (dots ∷ names) (t, ts) f = (λ same. absurd (cc), not_dots piece names ts f)

dot_segments-found : Every (λ dots. is_dot_segment dots ≡ true) dot_segments
unfolding is_dot_segment
dot_segments-found = (
  refl,
  (refl, (refl, (refl, (refl, (refl, (refl, (refl, (refl, (refl, (refl, (refl, tt))))))))))),
)

no_dots :
    (ps : List Bytes)
    → any_dots ps ≡ false
    → Every (λ piece. Every (λ dots. piece ≢ dots) dot_segments) ps
no_dots [] e = tt
no_dots (p ∷ ps) e =
    (not_dots p dot_segments dot_segments-found (ground (arith, e)), no_dots ps (ground (arith, e)))

-- What is in front of the first '?' (63).
pub record IsPathOf (target path : Bytes) : Type 0 where
  pub query : Bytes
  pub joined : target ≡ path ++ query
  pub before : Every (λ c. c ≢ 63) path
  pub behind : (query ≡ []) ⊎ ((rest : Bytes) × (query ≡ 63 ∷ rest))

path_of-IsPathOf : (target : Bytes) → IsPathOf target (path_of target)
unfolding path_of
path_of-IsPathOf [] = record { query = []; joined = refl; before = tt; behind = inl refl }
path_of-IsPathOf (c ∷ rest) = elim (Bool-cases (c == 63)) [
  | inl t ↦
      let mark : c ≡ 63 = ground (arith, t) in
      rw (t) (record {
        query = c ∷ rest;
        joined = refl;
        before = tt;
        behind = inr (rest, rw (mark) refl);
      })
  | inr f ↦
      let later = path_of-IsPathOf rest in
      rw (f) (record {
        query = later.query;
        joined = ap (λ bs. c ∷ bs) later.joined;
        before = (ground (arith, f), later.before);
        behind = later.behind;
      })
]

no_dots-path :
    (rest : Bytes) → dot_segment_from [] (path_of rest) ≡ false → HasNoDots (path_of (47 ∷ rest))
unfolding path_of is_dot_segment
no_dots-path rest free =
    let segments : any_dots (pieces (path_of rest)) ≡ false =
      rw (sym (onto_first_nil (path_of rest)))
        (sym (dot_segment_from-pieces [] (path_of rest)) ∙ free) in
    no_dots ([] ∷ pieces (path_of rest)) segments

-- The target "*", or a path and perhaps a query: it begins with '/', is escaped as it has to be, and
-- the path has no dot segment.
abbrev pub IsAllowed : Bytes → Type 0
IsAllowed target =
    (target ≡ codes "*")
    ⊎ (((rest : Bytes) × (target ≡ 47 ∷ rest))
        × AreEscaped target
        × ((path : Bytes) × IsPathOf target path × HasNoDots path))

pub sanitize_request_target-IsAllowed :
    (target : Bytes) → sanitize_request_target target ≡ true → IsAllowed target
unfolding sanitize_request_target
sanitize_request_target-IsAllowed [] e = absurd (cc)
sanitize_request_target-IsAllowed (c ∷ rest) e =
    elim (Bool-cases (same_bytes (c ∷ rest) (codes "*"))) [
      | inl t ↦ inl ((same_bytes_iff (c ∷ rest) (codes "*")).0 t)
      | inr f ↦
          let tests : ((c == 47 && all_from is_target_byte 0 (c ∷ rest))
                && (not (dot_segment_from [] (path_of rest))
                    && all_from is_query_byte 0 (query_of rest)))
              ≡ true =
            ground (arith, e, f) in
          let slash : c ≡ 47 = ground (arith, tests) in
          let bytes : all_from is_target_byte 0 (c ∷ rest) ≡ true = ground (arith, tests) in
          let free : dot_segment_from [] (path_of rest) ≡ false = ground (arith, tests) in
          inr (
            (rest, rw (slash) refl),
            all_from-AreEscaped 0 (c ∷ rest) tt bytes,
            (
              path_of (c ∷ rest),
              path_of-IsPathOf (c ∷ rest),
              subst (λ b. HasNoDots (path_of (b ∷ rest))) (sym slash) (no_dots-path rest free),
            ),
          )
    ]
