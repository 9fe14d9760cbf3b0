-- ===== src/Web/Router.antt =====
-- modules/web/src/router.c: the route table, and modules/web/src/http/server_request.c: the
-- parameters of a request.
--
-- A path and a method are C strings. Callbacks are pointers, here numbers. Lists, paths, methods
-- and callbacks are not NULL, as the assertions of the source demand.
pub mod Split
pub mod First
pub mod Params
mod Tests
use blue_bird.Prelude.{
  ℕ, ◌+◌, ◌-◌, Bool, true, false, not, ◌&&◌, ◌||◌, List, [], ◌∷◌, ◌++◌, Option, none, some, ◌>>=◌,
  ◌==◌, ltb, leb, if◌then◌else◌, length, take, Bytes, codes, same_bytes,
}

abbrev pub max_segments : ℕ
max_segments = 20

abbrev pub max_path_len : ℕ
max_path_len = 256

abbrev pub slash : ℕ
slash = 47

abbrev pub colon : ℕ
colon = 58

-- What happens at the end of the segment that lies between `start` and `p`.
unfoldable pub end_segment : Bytes → List Bytes → Option (List Bytes)
end_segment segment segments =
    if ltb 0 (length segment)
    then (if leb max_segments (length segments) || leb max_path_len (length segment)
        then none
        else some (segments ++ segment ∷ []))
    else some segments

-- The loop, with the bytes between `start` and `p`, and the segments before them.
unfoldable pub split_from : Bytes → List Bytes → Bytes → Option (List Bytes)
split_from segment segments [] = end_segment segment segments
split_from segment segments (c ∷ path) =
    let more = end_segment segment segments >>= λ ended. split_from [] ended path in
    let longer = split_from (segment ++ c ∷ []) segments path in if c == slash then more else longer

-- `none` is the result -1.
unfoldable pub split_path : Bytes → Option (List Bytes)
split_path path = split_from [] [] path

-- The union of the handlers, with the route type.
pub data Handler : Type 0 where
  http_handler : ℕ → Handler
  http_ctx_handler : ℕ → ℕ → Handler
  websocket_handler : ℕ → Handler

pub data RouteType : Type 0 where
  http_route websocket_route : RouteType

pub record Route : Type 0 where
  pub method : Bytes
  pub path_segments : List Bytes
  pub handler : Handler

unfoldable pub get_type : Route → RouteType
get_type route = elim route.handler [
  | http_handler f ↦ http_route
  | http_ctx_handler f ctx ↦ http_route
  | websocket_handler f ↦ websocket_route
]

pub data Added : Type 0 where
  err_alloc err_bad_request : Added
  added : List Route → Added

-- `route_create`, and `append_route` on success. The flags are the success of `calloc` and of
-- `bb_strdup`.
unfoldable pub add_route : Bool → Bool → List Route → Bytes → Bytes → Handler → Added
add_route alloc dup routes method path handler =
    if not alloc then err_alloc else if not dup then err_alloc else elim (split_path path) [
      | none ↦ err_bad_request
      | some segments ↦
          added
            (routes ++ record { method = method; path_segments = segments; handler = handler } ∷ [])
    ]

unfoldable pub add_http : Bool → Bool → List Route → Bytes → Bytes → ℕ → Added
add_http alloc dup routes method path f = add_route alloc dup routes method path (http_handler f)

unfoldable pub add_http_ctx : Bool → Bool → List Route → Bytes → Bytes → ℕ → ℕ → Added
add_http_ctx alloc dup routes method path f ctx =
    add_route alloc dup routes method path (http_ctx_handler f ctx)

unfoldable pub add_websocket : Bool → Bool → List Route → Bytes → ℕ → Added
add_websocket alloc dup routes path f =
    add_route alloc dup routes (codes "GET") path (websocket_handler f)

-- `segment[0] == ':'`
unfoldable pub is_param : Bytes → Bool
is_param [] = false
is_param (c ∷ cs) = c == colon

-- `match_segments`: whether 0 is returned. The counts are the lengths.
unfoldable pub match_segments : List Bytes → List Bytes → Bool
match_segments [] [] = true
match_segments (pattern ∷ patterns) (segment ∷ segments) =
    (is_param pattern || same_bytes pattern segment) && match_segments patterns segments
match_segments _ _ = false

abbrev pub max_params : ℕ
max_params = 10

abbrev pub max_param_name : ℕ
max_param_name = 64

abbrev pub max_param_value : ℕ
max_param_value = 256

pub record Param : Type 0 where
  pub name : Bytes
  pub value : Bytes

-- `bb_server_request_add_param` on the parameters so far; `strncpy` cuts off what does not fit.
unfoldable pub add_param : List Param → Bytes → Bytes → List Param
add_param params key value =
    if leb max_params (length params)
    then params
    else params
      ++ record { name = take (max_param_name - 1) key; value = take (max_param_value - 1) value }
        ∷ []

-- `none` is NULL.
unfoldable pub get_param : List Param → Bytes → Option Bytes
get_param [] name = none
get_param (p ∷ params) name =
    let rest = get_param params name in if same_bytes p.name name then some p.value else rest

-- `segment + 1`
abbrev pub behind_colon : Bytes → Bytes
behind_colon [] = []
behind_colon (c ∷ cs) = cs

-- The loop that adds the parameters of the route that matches.
unfoldable pub add_params : List Param → List Bytes → List Bytes → List Param
add_params params (pattern ∷ patterns) (segment ∷ segments) =
    add_params
      (if is_param pattern then add_param params (behind_colon pattern) segment else params)
      patterns segments
add_params params _ _ = params

-- The loop over the routes: the route that matches, and the parameters then.
unfoldable pub match_from : List Route → Bytes → List Bytes → List Param → Option Route × List Param
match_from [] method segments params = (none, params)
match_from (route ∷ routes) method segments params =
    let rest = match_from routes method segments params in
    if not (same_bytes method route.method)
    then rest
    else if match_segments route.path_segments segments
    then (some route, add_params params route.path_segments segments)
    else rest

-- `bb_route_list_match`, for the method, the path and the parameters of a request.
unfoldable pub match_route : List Route → Bytes → Bytes → List Param → Option Route × List Param
match_route routes method path params = elim (split_path path) [
  | none ↦ (none, params)
  | some segments ↦ match_from routes method segments params
]
