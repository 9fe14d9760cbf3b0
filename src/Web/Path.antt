-- ===== src/Web/Path.antt =====
-- modules/web/src/http/server_request.c: decoding the path of a request, and the test for dot
-- segments.
--
-- The source of decode_path is the list of its `src_len` bytes. The pointers are not NULL.
pub mod Decode
pub mod Dots
mod Tests
use blue_bird.Prelude.{
  ℕ, zero, suc, ◌+◌, ◌-◌, ◌*◌, Bool, true, false, not, ◌&&◌, ◌||◌, List, [], ◌∷◌, ◌++◌, Option,
  none, some, ◌>>=◌, ◌==◌, ltb, leb, if◌then◌else◌, Bytes,
}

-- `none` is -1. The digits are 48 to 57, the letters 97 to 102 and 65 to 70.
unfoldable pub hex_value : ℕ → Option ℕ
hex_value c =
    if leb 48 c && leb c 57
    then some (c - 48)
    else if leb 97 c && leb c 102
    then some (c - 97 + 10)
    else if leb 65 c && leb c 70
    then some (c - 65 + 10)
    else none

-- The characters of the switch: space " < > \ ^ ` { | }
unfoldable pub is_refused : ℕ → Bool
is_refused c =
    c == 32
    || c == 34
    || c == 60
    || c == 62
    || c == 92
    || c == 94
    || c == 96
    || c == 123
    || c == 124
    || c == 125

unfoldable pub is_valid_decoded_path_char : ℕ → Bool
is_valid_decoded_path_char c = if ltb c 32 || c == 127 then false else not (is_refused c)

-- The byte that two hexadecimal digits stand for, unless it is '/' or '\'.
unfoldable pub unescape : ℕ → ℕ → Option ℕ
unescape hi lo = do
  h ← hex_value hi
  l ← hex_value lo
  if h * 16 + l == 47 || h * 16 + l == 92 then none else some (h * 16 + l)

-- Writing a byte at index `out`, if it is valid and fits, in front of what follows.
unfoldable pub put : ℕ → ℕ → ℕ → Option Bytes → Option Bytes
put dst_cap out c rest =
    if not (is_valid_decoded_path_char c)
    then none
    else if leb dst_cap (out + 1)
    then none
    else (rest >>= λ r. some (c ∷ r))

-- The loop; '%' is 37.
unfoldable pub decode_from : ℕ → ℕ → Bytes → Option Bytes
decode_from dst_cap out [] = some []
decode_from dst_cap out (c ∷ []) = if c == 37 then none else put dst_cap out c (some [])
decode_from dst_cap out (c ∷ hi ∷ []) =
    let plain = put dst_cap out c (decode_from dst_cap (suc out) (hi ∷ [])) in
    if c == 37 then none else plain
decode_from dst_cap out (c ∷ hi ∷ lo ∷ src) =
    let coded = unescape hi lo >>= λ d. put dst_cap out d (decode_from dst_cap (suc out) src) in
    let plain = put dst_cap out c (decode_from dst_cap (suc out) (hi ∷ lo ∷ src)) in
    if c == 37 then coded else plain

unfoldable pub starts_with_slash : Bytes → Bool
starts_with_slash [] = false
starts_with_slash (c ∷ cs) = c == 47

abbrev is_nil : Bytes → Bool
is_nil [] = true
is_nil (c ∷ cs) = false

-- `none` is the result -1.
unfoldable pub decode_path : Bytes → ℕ → Option Bytes
decode_path src dst_cap =
    if dst_cap == 0 || is_nil src
    then none
    else (decode_from dst_cap 0 src >>= λ dst. if starts_with_slash dst then some dst else none)

-- The test of a segment: it is '.' or '..'.
unfoldable pub is_dots : Bytes → Bool
is_dots [] = false
is_dots (a ∷ []) = a == 46
is_dots (a ∷ b ∷ []) = a == 46 && b == 46
is_dots _ = false

-- The loop over the segments, with the bytes of this one so far.
unfoldable pub dots_from : Bytes → Bytes → Bool
dots_from segment [] = is_dots segment
dots_from segment (c ∷ path) =
    let next = dots_from [] path in
    let longer = dots_from (segment ++ c ∷ []) path in
    if c == 47 then is_dots segment || next else longer

-- One slash in front is skipped.
unfoldable pub has_dot_segment : Bytes → Bool
has_dot_segment [] = dots_from [] []
has_dot_segment (c ∷ path) = if c == 47 then dots_from [] path else dots_from [] (c ∷ path)
