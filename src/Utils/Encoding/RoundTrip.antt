-- ===== src/Utils/Encoding/RoundTrip.antt =====
-- Percent decoding of the texts that stand for a string (bb_decode_percent of modules/utils/src/encoding.c).
use blue_bird.Prelude.{
  ℕ, ◌+◌, ◌<◌, ◌≡◌, ◌≢◌, ◌*◌, ◌∙◌, ◌&&◌, refl, Bool, true, false, [], ◌∷◌, some, arith, ◌==◌, Bytes,
}
use blue_bird.Utils.Encoding.{hexval, coded_byte, single, decode_percent}

-- A hexadecimal digit and its value, in either case.
pub data DigitFor : ℕ → ℕ → Type 0 where
  decimal : (v : ℕ) → v < 10 → DigitFor v (48 + v)
  lower : (v : ℕ) → v < 6 → DigitFor (10 + v) (97 + v)
  upper : (v : ℕ) → v < 6 → DigitFor (10 + v) (65 + v)

-- The texts that stand for a string of bytes: each byte is kept, unless it is '%' (37) or a NUL, or
-- is '+' (43) where a plus is a space (32), or is '%' and two digits, or is a plus for a space.
pub data Encodes (decode_plus : Bool) : Bytes → Bytes → Type 0 where
  ends : Encodes decode_plus [] []
  keeps :
      {s text : Bytes} (b : ℕ)
      → b ≢ 37
      → b ≢ 0
      → (decode_plus && b == 43) ≡ false
      → Encodes decode_plus s text
      → Encodes decode_plus (b ∷ s) (b ∷ text)
  codes_byte :
      {s text : Bytes} (hi lo a b : ℕ)
      → DigitFor hi a
      → DigitFor lo b
      → Encodes decode_plus s text
      → Encodes decode_plus ((hi * 16 + lo) ∷ s) (37 ∷ a ∷ b ∷ text)
  plus_for_space :
      {s text : Bytes}
      → decode_plus ≡ true
      → Encodes decode_plus s text
      → Encodes decode_plus (32 ∷ s) (43 ∷ text)

hexval-digit : (v d : ℕ) → DigitFor v d → hexval d ≡ some v
unfolding hexval
hexval-digit v d (decimal v' h) = ground arith
hexval-digit v d (lower v' h) = ground arith
hexval-digit v d (upper v' h) = ground arith

coded_byte-digits :
    (hi lo a b : ℕ) → DigitFor hi a → DigitFor lo b → coded_byte a b ≡ some (hi * 16 + lo)
unfolding coded_byte
coded_byte-digits hi lo a b h l = rw (hexval-digit hi a h, hexval-digit lo b l, coded_byte) refl

decode_percent-single :
    (decode_plus : Bool) (c : ℕ) (text : Bytes)
    → (c == 37) ≡ false
    → decode_percent decode_plus (c ∷ text) ≡ single decode_plus c ∷ decode_percent decode_plus text
unfolding decode_percent
decode_percent-single decode_plus c [] p = refl
decode_percent-single decode_plus c (x ∷ []) p = refl
decode_percent-single decode_plus c (x ∷ y ∷ text) p = ground (arith, p)

-- A text that stands for a string, with digits in either case and, where a plus is a space, with a
-- plus for a space, decodes to that string.
pub Encodes-decode_percent :
    (decode_plus : Bool) {s text : Bytes}
    → Encodes decode_plus s text
    → decode_percent decode_plus text ≡ s
unfolding decode_percent single
Encodes-decode_percent decode_plus ends = refl
Encodes-decode_percent decode_plus (keeps {s} {text} b p z q e) =
    decode_percent-single decode_plus b text (ground (arith, p))
    ∙ rw (q, Encodes-decode_percent decode_plus e) refl
Encodes-decode_percent decode_plus (codes_byte {s} {text} hi lo a b h l e) =
    rw (coded_byte-digits hi lo a b h l, Encodes-decode_percent decode_plus e) refl
Encodes-decode_percent decode_plus (plus_for_space {s} {text} t e) =
    decode_percent-single decode_plus 43 text refl
    ∙ rw (Encodes-decode_percent decode_plus e, t) refl
