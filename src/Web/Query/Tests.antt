-- ===== src/Web/Query/Tests.antt =====
-- Queries at concrete inputs.
use blue_bird.Prelude.{
  suc, ◌+◌, ◌==◌, ◌≡◌, refl, List, [], ◌∷◌, some, length, count, Bytes, codes, same_bytes,
}
use blue_bird.Web.Path.{hex_value}
use blue_bird.Web.Query.{
  ampersand, QueryParam, put_data, hex_byte, plain_byte, data_from, decode_query_component,
  add_query_param, get_query_param, key_of, value_of, has_byte, parse_pair, parse_from,
  ends_in_ampersand, parse_query_params,
}
use blue_bird.Web.Query.Parse.{Adds, pairs_from, parse_query_params-Adds}

-- "a=1+2&b=%26"
abbrev rest : Bytes
rest = codes "=1+2&b=%26"

abbrev params : List QueryParam
params =
    record { key = codes "a"; value = codes "1 2" }
    ∷ record { key = codes "b"; value = codes "&" }
    ∷ []

parse_query_params-Adds_example :
    Adds [] params (pairs_from [] (97 ∷ rest))
    × (length params ≡ 0 + suc (count (λ x. x == ampersand) (97 ∷ rest)))
unfolding parse_query_params parse_from parse_pair key_of value_of decode_query_component data_from
    put_data hex_byte hex_value plain_byte has_byte add_query_param ends_in_ampersand
parse_query_params-Adds_example = parse_query_params-Adds [] params 97 rest refl

found : get_query_param params (codes "b") ≡ some (codes "&")
unfolding get_query_param same_bytes
found = refl
