-- ===== src/Web/Path/Tests.antt =====
-- Paths at concrete inputs.
use blue_bird.Prelude.{◌↔◌, ◌⊎◌, ◌≡◌, refl, true, false, ◌∷◌, none, codes}
use blue_bird.Web.Router.{slash}
use blue_bird.Web.Router.Split.{pieces}
use blue_bird.Web.Path.{
  hex_value, is_refused, is_valid_decoded_path_char, unescape, put, decode_from, starts_with_slash,
  decode_path, is_dots, dots_from, has_dot_segment,
}
use blue_bird.Web.Path.Decode.{Decoded, decode_path-Decoded}
use blue_bird.Web.Path.Dots.{Among, has_dot_segment_iff}

decode_path-Decoded_example :
    (starts_with_slash (codes "/a?b") ≡ true) × Decoded 256 0 (codes "/a%3Fb") (codes "/a?b")
unfolding decode_path decode_from put unescape hex_value is_valid_decoded_path_char is_refused
    starts_with_slash
decode_path-Decoded_example = decode_path-Decoded (codes "/a%3Fb") (codes "/a?b") 256 refl

-- An encoded slash is refused.
decode_slash : decode_path (codes "/a%2Fb") 256 ≡ none
unfolding decode_path decode_from put unescape hex_value is_valid_decoded_path_char is_refused
    starts_with_slash
decode_slash = refl

has_dot_segment_iff_example : (has_dot_segment (slash ∷ codes "a/../b") ≡ true) ↔ (
    Among (codes ".") (pieces (slash ∷ codes "a/../b"))
    ⊎ Among (codes "..") (pieces (slash ∷ codes "a/../b")))
has_dot_segment_iff_example = has_dot_segment_iff (codes "a/../b")

dots : has_dot_segment (slash ∷ codes "a/../b") ≡ true
unfolding has_dot_segment dots_from is_dots
dots = refl

no_dots : has_dot_segment (slash ∷ codes "a.b/...") ≡ false
unfolding has_dot_segment dots_from is_dots
no_dots = refl
