-- ===== src/Web/HttpParser/StartLine.antt =====
-- The request line and the status line (modules/web/src/http/parser.c).
use blue_bird.Prelude.{
  ℕ, ◌+◌, ◌*◌, ◌-◌, Bool, true, false, not, ◌&&◌, ◌||◌, [], ◌∷◌, Option, none, some, ◌>>=◌, ◌==◌,
  ltb, leb, if◌then◌else◌, length, Bytes, same_bytes, codes,
}
use blue_bird.Web.HttpParser.{Message, method_size, target_size, max_request_line}
use blue_bird.Web.HttpParser.Target.{sanitize_request_target, is_control}

abbrev pub is_digit : ℕ → Bool
is_digit c = leb 48 c && leb c 57

abbrev pub is_in : ℕ → Bytes → Bool
is_in c [] = false
is_in c (x ∷ xs) = c == x || is_in c xs

unfoldable pub is_tchar : ℕ → Bool
is_tchar c =
    (leb 97 c && leb c 122)
    || (leb 65 c && leb c 90)
    || (is_digit c || is_in c (codes "!#$%&'*+-.^_`|~"))

abbrev pub all : (ℕ → Bool) → Bytes → Bool
all test [] = true
all test (c ∷ rest) = test c && all test rest

-- What is in front of the first such byte, and behind it; `none` if there is none.
unfoldable pub split_first : ℕ → Bytes → Option (Bytes × Bytes)
split_first sep [] = none
split_first sep (c ∷ rest) =
    let later = split_first sep rest in
    if c == sep then some ([], rest) else (later >>= λ r. some (c ∷ r.0, r.1))

-- The same for the last such byte.
unfoldable pub split_last : ℕ → Bytes → Option (Bytes × Bytes)
split_last sep [] = none
split_last sep (c ∷ rest) = elim (split_last sep rest) [
  | some r ↦ some (c ∷ r.0, r.1)
  | none ↦ if c == sep then some ([], rest) else none
]

unfoldable pub parse_version : Bytes → Option (ℕ × ℕ)
parse_version (h ∷ t ∷ u ∷ p ∷ s ∷ major ∷ dot ∷ minor ∷ []) =
    if same_bytes (h ∷ t ∷ u ∷ p ∷ s ∷ []) (codes "HTTP/")
      && (is_digit major && (dot == 46 && is_digit minor))
    then some (major - 48, minor - 48)
    else none
parse_version _ = none

-- `none` is -1. The separator is the space (32).
unfoldable pub parse_request_line : Message → Bytes → Option Message
parse_request_line message line = do
  first ← split_first 32 line
  last ← split_last 32 first.1
  version ← parse_version last.1
  let method = first.0
  let target = last.0
  if (not (length method == 0) && (all is_tchar method && ltb (length method) method_size))
        && (not (length target == 0)
            && (all (λ c. not (c == 32 || is_control c)) target
                && (ltb (length target) target_size && sanitize_request_target target)))
      then some (record message {
        method = method;
        target = target;
        version_major = version.0;
        version_minor = version.1;
      })
      else none

-- A byte of a reason phrase or of a field value: no control character but the tab.
abbrev pub is_text_byte : ℕ → Bool
is_text_byte c = not ((ltb c 32 && not (c == 9)) || c == 127)

-- What is behind the status code: nothing, or a space and the reason phrase.
unfoldable pub reason_of : Bytes → Option Bytes
reason_of [] = some []
reason_of (c ∷ reason) = if c == 32 then some reason else none

unfoldable pub parse_response_line : Message → Bytes → Option Message
parse_response_line message (h ∷ t ∷ u ∷ p ∷ s ∷ major ∷ dot ∷ minor ∷ space ∷ x ∷ y ∷ z ∷ rest) =
    do
      version ← parse_version (h ∷ t ∷ u ∷ p ∷ s ∷ major ∷ dot ∷ minor ∷ [])
      reason ← reason_of rest
      if (space == 32 && (is_digit x && (is_digit y && is_digit z)))
            && (ltb (length reason) max_request_line && all is_text_byte reason)
          then some (record message {
            version_major = version.0;
            version_minor = version.1;
            status_code = (x - 48) * 100 + (y - 48) * 10 + (z - 48);
            reason = reason;
          })
          else none
parse_response_line message _ = none
