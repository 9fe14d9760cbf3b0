-- ===== src/Web/HttpParser/Syntax.antt =====
-- What a request line is that the parser accepts (parse_request_line of modules/web/src/http/parser.c).
use mathlib.Core.Path.{subst}
use blue_bird.Prelude.{
  ℕ, ◌+◌, ◌<◌, ◌≡◌, ◌≢◌, Bool, ap, ◌∙◌, inl, inr, true, not, ◌&&◌, ◌||◌, [], ◌∷◌, ◌++◌, none, some,
  arith, ◌==◌, ltb, if◌then◌else◌, length, Bytes, same_bytes, codes, Bool-cases, Option-cases,
}
use blue_bird.Web.HttpParser.{Message}
use blue_bird.Web.HttpParser.Target.{sanitize_request_target, is_control}
use blue_bird.Web.HttpParser.Target.Allowed.{Every, IsAllowed, sanitize_request_target-IsAllowed}
use blue_bird.Web.HttpParser.StartLine.{
  is_tchar, all, split_first, split_last, parse_version, parse_request_line,
}

split_first-joined :
    (sep : ℕ) (xs a b : Bytes) → split_first sep xs ≡ some (a, b) → xs ≡ a ++ sep ∷ b
unfolding split_first
split_first-joined sep [] a b e = absurd (cc)
split_first-joined sep (c ∷ xs) a b e = elim (Bool-cases (c == sep)) [
  | inl h ↦ let same : some ([], xs) ≡ some (a, b) = rw h at e in ground (arith, same, h)
  | inr h ↦ elim (Option-cases (split_first sep xs)) [
    | inl n ↦ absurd (cc)
    | inr ((front, back), n) ↦
        let joined = split_first-joined sep xs front back n in ground (arith, e, h, n, joined)
  ]
]

split_last-joined : (sep : ℕ) (xs a b : Bytes) → split_last sep xs ≡ some (a, b) → xs ≡ a ++ sep ∷ b
unfolding split_last
split_last-joined sep [] a b e = absurd (cc)
split_last-joined sep (c ∷ xs) a b e = elim (Option-cases (split_last sep xs)) [
  | inr ((front, back), n) ↦
      let joined = split_last-joined sep xs front back n in ground (arith, e, n, joined)
  | inl n ↦ elim (Bool-cases (c == sep)) [
    | inl h ↦ ground (arith, e, n, h)
    | inr h ↦ ground (arith, e, n, h)
  ]
]

-- The text of a version.
abbrev pub version_text : ℕ → ℕ → Bytes
version_text major minor = codes "HTTP/" ++ (48 + major) ∷ 46 ∷ (48 + minor) ∷ []

parse_version-text :
    (text : Bytes) (major minor : ℕ)
    → parse_version text ≡ some (major, minor)
    → (text ≡ version_text major minor) × ((major < 10) × (minor < 10))
unfolding parse_version same_bytes
parse_version-text (h ∷ t ∷ u ∷ p ∷ s ∷ x ∷ dot ∷ y ∷ []) major minor e = ground (arith, e)
parse_version-text _ major minor e = absurd (cc)

-- A visible character that is no delimiter of RFC 9110.
abbrev pub IsTokenByte : ℕ → Type 0
IsTokenByte c = (32 < c) × (c < 127) × Every (λ d. c ≢ d) (codes "\"(),/:;<=>?@[\\]{}")

is_tchar-IsTokenByte : (c : ℕ) → is_tchar c ≡ true → IsTokenByte c
unfolding is_tchar
is_tchar-IsTokenByte c e = ground (arith, e)

-- No space and no control character.
abbrev pub IsTargetByte : ℕ → Type 0
IsTargetByte c = (32 < c) × (c ≢ 127)

all-Every :
    (test : ℕ → Bool) (P : ℕ → Type 0)
    → ((c : ℕ) → test c ≡ true → P c)
    → (bs : Bytes) → all test bs ≡ true
    → Every P bs
all-Every test P h [] e = tt
all-Every test P h (c ∷ bs) e = (h c (ground (arith, e)), all-Every test P h bs (ground (arith, e)))

-- A request line in its parts.
pub record IsRequestLine (line : Bytes) (r : Message) : Type 0 where
  pub parts :
      line ≡ r.method ++ 32 ∷ (r.target ++ 32 ∷ version_text r.version_major r.version_minor)
  pub is_token : Every IsTokenByte r.method × ((0 < length r.method) × (length r.method < 32))
  pub is_target : IsAllowed r.target × (Every IsTargetByte r.target × (length r.target < 8192))
  pub digits : (r.version_major < 10) × (r.version_minor < 10)

-- What the tests of the parser say of the parts, and what is stored of them.
accepted :
    (m r : Message) (line method rest target version : Bytes) (major minor : ℕ)
    → line ≡ method ++ 32 ∷ rest
    → rest ≡ target ++ 32 ∷ version
    → (version ≡ version_text major minor) × ((major < 10) × (minor < 10))
    → (if (not (length method == 0) && (all is_tchar method && ltb (length method) 32))
          && (not (length target == 0)
              && (all (λ c. not (c == 32 || is_control c)) target
                  && (ltb (length target) 8192 && sanitize_request_target target)))
        then some (record m {
          method = method;
          target = target;
          version_major = major;
          version_minor = minor;
        })
        else none)
      ≡ some r
    → IsRequestLine line r
accepted m r line method rest target version major minor first last text e =
    let tests : (not (length method == 0) && (all is_tchar method && ltb (length method) 32))
          && (not (length target == 0)
              && (all (λ c. not (c == 32 || is_control c)) target
                  && (ltb (length target) 8192 && sanitize_request_target target)))
        ≡ true =
      ground (arith, e) in
    let stored : record m {
      method = method;
      target = target;
      version_major = major;
      version_minor = minor;
    }
        ≡ r =
      ground (arith, e) in
    let joined =
      first
      ∙ ap (λ x. method ++ 32 ∷ x) last
      ∙ ap (λ x. method ++ 32 ∷ (target ++ 32 ∷ x)) text.0 in
    subst (IsRequestLine line) stored (record {
      parts = joined;
      is_token = (
        all-Every is_tchar IsTokenByte is_tchar-IsTokenByte method (ground (arith, tests)),
        (ground (arith, tests), ground (arith, tests)),
      );
      is_target = (
        sanitize_request_target-IsAllowed target (ground (arith, tests)),
        (
          all-Every (λ c. not (c == 32 || is_control c)) IsTargetByte (λ c t. ground (arith, t))
              target (ground (arith, tests)),
          ground (arith, tests),
        ),
      );
      digits = text.1;
    })

-- A request line that is accepted is a method, a space, a target, a space and a version. The method has
-- 1 to 31 characters, all visible and no delimiters. The target has at most 8191 bytes, none of them a
-- space or a control character. It is "*", or it begins with '/', has no '#' and no '\', every '%' in it
-- begins an escape of two hexadecimal digits for no control character, '/' or '\', and no segment of
-- its path is "." or "..", a dot's escape included. The numbers of the version are digits.
pub parse_request_line-IsRequestLine :
    (m r : Message) (line : Bytes) → parse_request_line m line ≡ some r → IsRequestLine line r
unfolding parse_request_line
parse_request_line-IsRequestLine m r line e = elim (Option-cases (split_first 32 line)) [
  | inl n ↦ absurd (cc)
  | inr ((method, rest), first) ↦ elim (Option-cases (split_last 32 rest)) [
    | inl n ↦ let impossible : none ≡ some r = rw n at (rw first at e) in absurd (cc)
    | inr ((target, version), last) ↦ elim (Option-cases (parse_version version)) [
      | inl n ↦ let impossible : none ≡ some r = rw n at (rw last at (rw first at e)) in absurd (cc)
      | inr ((major, minor), text) ↦
          accepted m r line method rest target version major minor
            (split_first-joined 32 line method rest first)
            (split_last-joined 32 rest target version last)
            (parse_version-text version major minor text) (rw text at (rw last at (rw first at e)))
    ]
  ]
]
