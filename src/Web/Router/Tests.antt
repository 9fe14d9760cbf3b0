-- ===== src/Web/Router/Tests.antt =====
-- The route table at concrete inputs.
use blue_bird.Prelude.{
  ◌≡◌, ◌⊎◌, refl, true, ◌&&◌, List, [], ◌∷◌, ◌++◌, none, some, arith, leb, if◌then◌else◌, length,
  Bytes, codes, same_bytes,
}
use blue_bird.Web.Router.{
  max_segments, http_handler, Route, Param, split_path, split_from, end_segment, match_from,
  match_segments, is_param, add_param, add_route, match_route, get_param, add_params,
}
use blue_bird.Web.Router.Split.{segments_of, all_short, split_path_correct}
use blue_bird.Web.Router.First.{Outcome, match_route-Outcome, add_route-match_route}
use blue_bird.Web.Router.Params.{bindings, add_params-bindings}

abbrev users : Route
users = record {
  method = codes "GET";
  path_segments = codes "users" ∷ codes ":id" ∷ [];
  handler = http_handler 1;
}

abbrev me : Route
me = record {
  method = codes "GET";
  path_segments = codes "users" ∷ codes "me" ∷ [];
  handler = http_handler 2;
}

abbrev id_me : List Param
id_me = record { name = codes "id"; value = codes "me" } ∷ []

split_path_correct_example : split_path (codes "//users/7/") ≡ (
    if leb (length (segments_of (codes "//users/7/"))) max_segments
      && all_short (segments_of (codes "//users/7/"))
    then some (segments_of (codes "//users/7/"))
    else none)
split_path_correct_example = split_path_correct (codes "//users/7/")

split_users : split_path (codes "//users/7/") ≡ some (codes "users" ∷ codes "7" ∷ [])
unfolding split_path split_from end_segment
split_users = refl

match_route-Outcome_example :
    ((split_path (codes "/users/me") ≡ none)
      × (match_route (users ∷ me ∷ []) (codes "GET") (codes "/users/me") [] ≡ (none, [])))
    ⊎ ((segments : List Bytes) × ((split_path (codes "/users/me") ≡ some segments)
          × Outcome
              (users ∷ me ∷ [])
              (codes "GET")
              segments
              []
              (match_route (users ∷ me ∷ []) (codes "GET") (codes "/users/me") [])))
match_route-Outcome_example =
    match_route-Outcome (users ∷ me ∷ []) (codes "GET") (codes "/users/me") []

-- The route that was added first answers.
match_users :
    match_route (users ∷ me ∷ []) (codes "GET") (codes "/users/me") [] ≡ (some users, id_me)
unfolding match_route split_path split_from end_segment match_from same_bytes match_segments
    is_param add_params add_param
match_users = refl

add_route-match_route_example :
    match_route (users ∷ me ∷ []) (codes "GET") (codes "/users/me") [] ≡ (some users, id_me)
unfolding add_route match_route split_path split_from end_segment match_from same_bytes
    match_segments is_param add_params add_param
add_route-match_route_example =
    add_route-match_route true true (users ∷ []) (users ∷ me ∷ []) (codes "GET") (codes "/users/me")
      (http_handler 2) (codes "GET") (codes "/users/me") [] id_me users refl refl

add_params-bindings_example :
    add_params [] (codes "users" ∷ codes ":id" ∷ []) (codes "users" ∷ codes "me" ∷ [])
    ≡ [] ++ bindings (codes "users" ∷ codes ":id" ∷ []) (codes "users" ∷ codes "me" ∷ [])
unfolding is_param
add_params-bindings_example =
    add_params-bindings [] (codes "users" ∷ codes ":id" ∷ []) (codes "users" ∷ codes "me" ∷ [])
      (omega arith) (omega arith, (omega arith, tt))

-- An eleventh parameter is dropped.
abbrev ten : List Param
ten = p ∷ p ∷ p ∷ p ∷ p ∷ p ∷ p ∷ p ∷ p ∷ p ∷ []
  where
    p : Param
    p = record { name = codes "p"; value = [] }

eleventh : get_param (add_params ten (codes ":id" ∷ []) (codes "7" ∷ [])) (codes "id") ≡ none
unfolding get_param add_params is_param add_param same_bytes
eleventh = refl
