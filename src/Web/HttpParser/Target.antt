-- ===== src/Web/HttpParser/Target.antt =====
-- The target of a request (sanitize_request_target of modules/web/src/http/parser.c).
pub mod Allowed
use blue_bird.Prelude.{
  ℕ, zero, suc, Bool, true, false, not, ◌&&◌, ◌||◌, [], ◌∷◌, ◌++◌, Option, none, some, ◌==◌, ltb,
  if◌then◌else◌, Bytes, same_bytes, codes,
}
use blue_bird.Web.Query.{hex_byte}

-- The byte that the escape in front of these bytes stands for.
abbrev pub escaped : Bytes → Option ℕ
escaped (hi ∷ lo ∷ rest) = hex_byte hi lo
escaped _ = none

abbrev pub is_control : ℕ → Bool
is_control c = ltb c 32 || c == 127

-- A byte of the first loop, with the bytes behind it: '%' (37) begins an escape, '#' (35) and '\' (92)
-- are refused, and '/' (47) and '\' in an escape.
unfoldable pub is_target_byte : ℕ → Bytes → Bool
is_target_byte c rest =
    if c == 37
    then (elim (escaped rest) [
      | none ↦ false
      | some decoded ↦ not (is_control decoded || (decoded == 47 || decoded == 92))
    ])
    else not (c == 35 || c == 92)

-- A byte of the query's loop.
unfoldable pub is_query_byte : ℕ → Bytes → Bool
is_query_byte c rest =
    if c == 37
    then (elim (escaped rest) [ none ↦ false | some decoded ↦ not (is_control decoded) ])
    else not (is_control c || c == 92)

-- A loop that passes over the two bytes of an escape, from a place where some are passed over.
unfoldable pub all_from : (ℕ → Bytes → Bool) → ℕ → Bytes → Bool
all_from test skip [] = true
all_from test (suc skip) (c ∷ rest) = all_from test skip rest
all_from test zero (c ∷ rest) = test c rest && all_from test (if c == 37 then 2 else 0) rest

-- The path is what is in front of the first '?' (63).
unfoldable pub path_of : Bytes → Bytes
path_of [] = []
path_of (c ∷ rest) = let path = path_of rest in if c == 63 then [] else c ∷ path

unfoldable pub query_of : Bytes → Bytes
query_of [] = []
query_of (c ∷ rest) = let query = query_of rest in if c == 63 then rest else query

abbrev pub is_e : ℕ → Bool
is_e c = c == 101 || c == 69

-- The tests of a segment by its length; '.' is 46 and '2' is 50.
unfoldable pub is_dot_segment : Bytes → Bool
is_dot_segment (a ∷ []) = a == 46
is_dot_segment (a ∷ b ∷ []) = a == 46 && b == 46
is_dot_segment (a ∷ b ∷ c ∷ []) = a == 37 && (b == 50 && is_e c)
is_dot_segment (a ∷ b ∷ c ∷ d ∷ []) =
    (a == 46 && (b == 37 && (c == 50 && is_e d))) || (a == 37 && (b == 50 && (is_e c && d == 46)))
is_dot_segment (a ∷ b ∷ c ∷ d ∷ e ∷ f ∷ []) =
    (a == 37 && (b == 50 && is_e c)) && (d == 37 && (e == 50 && is_e f))
is_dot_segment _ = false

-- The loop over the segments of a path, with the bytes of the segment so far.
unfoldable pub dot_segment_from : Bytes → Bytes → Bool
dot_segment_from segment [] = is_dot_segment segment
dot_segment_from segment (c ∷ rest) =
    (c == 47 && is_dot_segment segment)
    || dot_segment_from (if c == 47 then [] else segment ++ c ∷ []) rest

unfoldable pub sanitize_request_target : Bytes → Bool
sanitize_request_target [] = false
sanitize_request_target (c ∷ rest) =
    if same_bytes (c ∷ rest) (codes "*")
    then true
    else (c == 47 && all_from is_target_byte 0 (c ∷ rest))
      && (not (dot_segment_from [] (path_of rest)) && all_from is_query_byte 0 (query_of rest))
