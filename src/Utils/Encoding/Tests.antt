-- ===== src/Utils/Encoding/Tests.antt =====
-- Percent encoding at concrete inputs.
use blue_bird.Prelude.{true, ◌≡◌, refl, arith, [], ◌∷◌, codes}
use blue_bird.Utils.Encoding.{hexval, coded_byte, single, decode_percent}
use blue_bird.Utils.Encoding.RoundTrip.{
  decimal, lower, upper, Encodes, ends, keeps, codes_byte, plus_for_space, Encodes-decode_percent,
}

-- A form encoder's text, with digits in both cases.
form : Encodes true (codes "a b/+") (codes "a+b%2f%2B")
form = keeps 97 (omega arith) (omega arith) refl (
    plus_for_space refl (
      keeps 98 (omega arith) (omega arith) refl (
        codes_byte 2 15 50 102 (decimal 2 (omega arith)) (lower 5 (omega arith))
          (codes_byte 2 11 50 66 (decimal 2 (omega arith)) (upper 1 (omega arith)) ends))))

Encodes-decode_percent_example : decode_percent true (codes "a+b%2f%2B") ≡ codes "a b/+"
Encodes-decode_percent_example = Encodes-decode_percent true form

-- What is no code stays as it is, and a decoded NUL stands in the result.
decoded : decode_percent true (codes "1+%2%00x") ≡ 49 ∷ 32 ∷ 37 ∷ 50 ∷ 0 ∷ 120 ∷ []
unfolding decode_percent single coded_byte hexval
decoded = refl
