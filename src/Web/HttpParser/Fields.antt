-- ===== src/Web/HttpParser/Fields.antt =====
-- Header and trailer lines, the framing headers and the size of a chunk
-- (modules/web/src/http/parser.c).
use blue_bird.Prelude.{
  ℕ, ◌+◌, ◌*◌, ◌-◌, ◌/◌, ◌^◌, Bool, true, false, not, ◌&&◌, ◌||◌, List, [], ◌∷◌, ◌++◌, Option, none,
  some, ◌>>=◌, ◌==◌, ltb, leb, if◌then◌else◌, length, map, Bytes, same_bytes, codes,
}
use blue_bird.Web.Path.{hex_value}
use blue_bird.Web.HttpParser.{Header, Parser, max_body_size, max_chunk_size}
use blue_bird.Web.HttpParser.StartLine.{is_tchar, is_text_byte, is_digit, all, split_first}

-- A space or a tab.
abbrev pub is_blank : ℕ → Bool
is_blank c = c == 32 || c == 9

abbrev pub is_empty : Bytes → Bool
is_empty [] = true
is_empty (c ∷ rest) = false

unfoldable pub trim_start : Bytes → Bytes
trim_start [] = []
trim_start (c ∷ rest) = let trimmed = trim_start rest in if is_blank c then trimmed else c ∷ rest

unfoldable pub trim_end : Bytes → Bytes
trim_end [] = []
trim_end (c ∷ rest) =
    let trimmed = trim_end rest in if is_blank c && is_empty trimmed then [] else c ∷ trimmed

abbrev pub begins_blank : Bytes → Bool
begins_blank [] = false
begins_blank (c ∷ rest) = is_blank c

-- The name and the value of a field line; `:` is 58.
unfoldable pub split_field : Bytes → Option Header
split_field line = split_first 58 line >>= λ parts.
    let value = trim_end (trim_start parts.1) in
    if not (begins_blank line)
      && (not (length parts.0 == 0) && (all is_tchar parts.0 && all is_text_byte value))
    then some (record { name = parts.0; value = value })
    else none

-- The bytes of an entry of the array, two pointers.
abbrev header_size : ℕ
header_size = 16

-- The fields after one more line, their bytes, and the field.
unfoldable pub parse_field_line :
    (ℕ → Bool) → ℕ → ℕ → Bytes → List Header → ℕ → Option (List Header × ℕ × Header)
parse_field_line alloc max_count max_bytes line headers bytes_total =
    let total = bytes_total + (length line + 2) in
    split_field line >>= λ field.
    if leb max_count (length headers) || ltb max_bytes total
    then none
    else if alloc (length field.name + 1)
        && (alloc (length field.value + 1) && alloc ((length headers + 1) * header_size))
    then some (headers ++ field ∷ [], total, field)
    else none

abbrev pub lower : ℕ → ℕ
lower c = if leb 65 c && leb c 90 then c + 32 else c

-- `bb_strcasecmp(a, b) == 0`
abbrev pub same_letters : Bytes → Bytes → Bool
same_letters a b = same_bytes (map lower a) (map lower b)

abbrev pub max_value : ℕ
max_value = 2 ^ 64 - 1

-- The loop over the digits, with the value so far.
unfoldable pub decimal_from : ℕ → Bytes → Option ℕ
decimal_from val [] = some val
decimal_from val (c ∷ rest) =
    let later = decimal_from (val * 10 + (c - 48)) rest in
    if not (is_digit c) then none else if ltb ((max_value - (c - 48)) / 10) val then none else later

unfoldable pub apply_content_length : Parser → Bytes → Option Parser
apply_content_length p value =
    if p.has_content_length || length value == 0
    then none
    else (decimal_from 0 value >>= λ val.
        if ltb max_body_size val
        then none
        else some (record p { has_content_length = true; content_length = val }))

-- The codings of a list with commas (44), with the bytes of the coding so far. The last one is
-- left out when it is empty.
unfoldable pub codings_from : Bytes → Bytes → List Bytes
codings_from coding [] = if is_empty coding then [] else coding ∷ []
codings_from coding (c ∷ rest) =
    let later = codings_from (if c == 44 then [] else coding ++ c ∷ []) rest in
    if c == 44 then coding ∷ later else later

abbrev pub all_chunked : List Bytes → Bool
all_chunked [] = true
all_chunked (coding ∷ codings) =
    same_letters (trim_end (trim_start coding)) (codes "chunked") && all_chunked codings

unfoldable pub apply_transfer_encoding : Parser → Bytes → Option Parser
apply_transfer_encoding p value =
    if all_chunked (codings_from [] value) && (p.transfer_chunked || not (is_empty value))
    then some (record p { has_transfer_encoding = true; transfer_chunked = true })
    else none

-- The hexadecimal digits at the front: the value, and what is behind them.
unfoldable pub hex_from : ℕ → Bytes → Option (ℕ × Bytes)
hex_from val [] = some (val, [])
hex_from val (c ∷ rest) = elim (hex_value c) [
  | none ↦ some (val, c ∷ rest)
  | some digit ↦
      let later = hex_from (val * 16 + digit) rest in if ltb (2 ^ 60 - 1) val then none else later
]

abbrev pub begins_hex : Bytes → Bool
begins_hex [] = false
begins_hex (c ∷ rest) = elim (hex_value c) [ none ↦ false | some digit ↦ true ]

-- Nothing, or an extension behind a semicolon (59).
abbrev pub is_extension : Bytes → Bool
is_extension [] = true
is_extension (c ∷ rest) = c == 59

unfoldable pub parse_chunk_size_line : Bytes → Option ℕ
parse_chunk_size_line line = hex_from 0 line >>= λ size.
    if begins_hex line && (is_extension size.1 && leb size.0 max_chunk_size)
    then some size.0
    else none
