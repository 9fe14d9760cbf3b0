-- ===== src/Web/Query.antt =====
-- modules/web/src/http/server_request.c: the query parameters of a request.
--
-- The query is the list of its `query_len` bytes. The pointers are not NULL. `none` is the result -1,
-- with which the request is given up, and the parameters that it has by then with it.
pub mod Parse
mod Tests
use blue_bird.Prelude.{
  ℕ, zero, suc, ◌+◌, ◌*◌, Bool, true, false, not, ◌&&◌, ◌||◌, List, [], ◌∷◌, ◌++◌, Option, none,
  some, ◌>>=◌, ◌==◌, ltb, leb, if◌then◌else◌, length, Bytes, same_bytes,
}
use blue_bird.Web.Path.{hex_value}

abbrev pub max_query_params : ℕ
max_query_params = 10

abbrev pub max_query_param_key : ℕ
max_query_param_key = 64

abbrev pub max_query_param_value : ℕ
max_query_param_value = 256

abbrev pub ampersand : ℕ
ampersand = 38

abbrev pub equals : ℕ
equals = 61

pub record QueryParam : Type 0 where
  pub key : Bytes
  pub value : Bytes

-- Writing a byte at index `out`, unless it is a control character or does not fit.
unfoldable pub put_data : ℕ → ℕ → ℕ → Option Bytes → Option Bytes
put_data dst_cap out c rest =
    if c == 0 || ltb c 32 || c == 127
    then none
    else if leb dst_cap (out + 1)
    then none
    else (rest >>= λ r. some (c ∷ r))

unfoldable pub hex_byte : ℕ → ℕ → Option ℕ
hex_byte hi lo = do h ← hex_value hi; l ← hex_value lo; some (h * 16 + l)

-- A byte that is not '%' (37): '+' (43) is a space (32).
unfoldable pub plain_byte : ℕ → ℕ
plain_byte c = if c == 43 then 32 else c

-- The loop of decode_query_component.
unfoldable pub data_from : ℕ → ℕ → Bytes → Option Bytes
data_from dst_cap out [] = some []
data_from dst_cap out (c ∷ []) =
    if c == 37 then none else put_data dst_cap out (plain_byte c) (some [])
data_from dst_cap out (c ∷ hi ∷ []) =
    let plain = put_data dst_cap out (plain_byte c) (data_from dst_cap (suc out) (hi ∷ [])) in
    if c == 37 then none else plain
data_from dst_cap out (c ∷ hi ∷ lo ∷ src) =
    let coded = hex_byte hi lo >>= λ d. put_data dst_cap out d (data_from dst_cap (suc out) src) in
    let plain = put_data dst_cap out (plain_byte c) (data_from dst_cap (suc out) (hi ∷ lo ∷ src)) in
    if c == 37 then coded else plain

unfoldable pub decode_query_component : ℕ → Bytes → Option Bytes
decode_query_component dst_cap src = if dst_cap == 0 then none else data_from dst_cap 0 src

unfoldable pub add_query_param : List QueryParam → Bytes → Bytes → Option (List QueryParam)
add_query_param query key value =
    if leb max_query_params (length query)
    then none
    else if leb max_query_param_key (length key) || leb max_query_param_value (length value)
    then none
    else some (query ++ record { key = key; value = value } ∷ [])

-- `none` is NULL.
unfoldable pub get_query_param : List QueryParam → Bytes → Option Bytes
get_query_param [] key = none
get_query_param (p ∷ query) key =
    let rest = get_query_param query key in if same_bytes p.key key then some p.value else rest

-- The bytes in front of the first '=', and those behind it.
unfoldable pub key_of : Bytes → Bytes
key_of [] = []
key_of (c ∷ pair) = if c == equals then [] else c ∷ key_of pair

unfoldable pub value_of : Bytes → Bytes
value_of [] = []
value_of (c ∷ pair) = if c == equals then pair else value_of pair

-- `strchr(s, c) != NULL`
unfoldable pub has_byte : ℕ → Bytes → Bool
has_byte x [] = false
has_byte x (c ∷ cs) = c == x || has_byte x cs

abbrev is_nil : Bytes → Bool
is_nil [] = true
is_nil (c ∷ cs) = false

-- A round of the loop, for the bytes between two '&'.
unfoldable pub parse_pair : List QueryParam → Bytes → Option (List QueryParam)
parse_pair query pair =
    if is_nil pair
    then none
    else if leb max_query_params (length query)
    then none
    else if is_nil (key_of pair) || leb max_query_param_key (length (key_of pair))
    then none
    else if leb max_query_param_value (length (value_of pair))
    then none
    else (do
      key ← decode_query_component max_query_param_key (key_of pair)
      value ← decode_query_component max_query_param_value (value_of pair)
      if has_byte equals key || has_byte ampersand key
          then none
          else add_query_param query key value)

-- The loop, with the bytes of this pair so far; a query does not end in '&' here.
unfoldable pub parse_from : List QueryParam → Bytes → Bytes → Option (List QueryParam)
parse_from query pair [] = parse_pair query pair
parse_from query pair (c ∷ rest) =
    let next = parse_pair query pair >>= λ added. parse_from added [] rest in
    let longer = parse_from query (pair ++ c ∷ []) rest in if c == ampersand then next else longer

-- `query[query_len - 1] == '&'`
unfoldable pub ends_in_ampersand : Bytes → Bool
ends_in_ampersand [] = false
ends_in_ampersand (c ∷ []) = c == ampersand
ends_in_ampersand (c ∷ d ∷ rest) = ends_in_ampersand (d ∷ rest)

unfoldable pub parse_query_params : List QueryParam → Bytes → Option (List QueryParam)
parse_query_params query src =
    if is_nil src
    then some query
    else if ends_in_ampersand src
    then none
    else parse_from query [] src
