-- ===== src/Utils/Encoding.antt =====
-- modules/utils/src/encoding.c: percent decoding in place.
--
-- The string is the list of the bytes before its first NUL, so none of them is 0; the result is the list of the bytes written,
-- a decoded NUL among them.
pub mod RoundTrip
mod Tests
use blue_bird.Prelude.{
  ℕ, ◌+◌, ◌-◌, ◌*◌, Bool, true, false, ◌&&◌, List, [], ◌∷◌, Option, none, some, ◌==◌, leb,
  if◌then◌else◌, Bytes,
}

-- `none` is -1.
unfoldable pub hexval : ℕ → Option ℕ
hexval c =
    if leb 48 c && leb c 57
    then some (c - 48)
    else if leb 97 c && leb c 102
    then some (c - 97 + 10)
    else if leb 65 c && leb c 70
    then some (c - 65 + 10)
    else none

-- `(hi << 4) | lo`, if both are digits
unfoldable pub coded_byte : ℕ → ℕ → Option ℕ
coded_byte a b = elim (hexval a) [
  | none ↦ none
  | some hi ↦ elim (hexval b) [ none ↦ none | some lo ↦ some (hi * 16 + lo) ]
]

-- The byte that a single one becomes: '+' (43) may be a space (32).
unfoldable pub single : Bool → ℕ → ℕ
single decode_plus c = if decode_plus && c == 43 then 32 else c

-- The loop; '%' is 37. The NUL behind the last byte is no digit.
unfoldable pub decode_percent : Bool → Bytes → Bytes
decode_percent decode_plus [] = []
decode_percent decode_plus (c ∷ []) = single decode_plus c ∷ []
decode_percent decode_plus (c ∷ a ∷ []) = single decode_plus c ∷ decode_percent decode_plus (a ∷ [])
decode_percent decode_plus (c ∷ a ∷ b ∷ src) =
    let plain = single decode_plus c ∷ decode_percent decode_plus (a ∷ b ∷ src) in
    let behind = decode_percent decode_plus src in
    if c == 37 then elim (coded_byte a b) [ none ↦ plain | some d ↦ d ∷ behind ] else plain
