-- ===== src/Web/HttpParser/Feed.antt =====
-- The loop over the bytes that arrive (bb_http_parser_feed of modules/web/src/http/parser.c).
pub mod Ends
pub mod Capacity
pub mod Lines
pub mod Bodies
pub mod Resume
pub mod Split
mod Tests
use blue_bird.Prelude.{
  ℕ, zero, suc, ◌+◌, ◌*◌, ◌-◌, Bool, true, false, not, ◌&&◌, ◌||◌, List, [], ◌∷◌, ◌++◌, Option,
  none, some, ◌>>=◌, ◌==◌, ltb, leb, if◌then◌else◌, length, take, drop, Bytes, codes,
}
use blue_bird.Web.HttpParser.{
  ParseState, at_request_line, at_headers, at_body_fixed, at_chunk_size, at_chunk_data,
  at_chunk_data_crlf, at_trailers, at_complete, at_error, Parser, Message, Header, Body, Line,
  LineResult, line_open, line_full, line_error, consume_line, reset_line, body_reserve, body_append,
  max_header_size, max_header_count, max_body_size, max_chunk_line, max_trailer_size,
  max_trailer_count,
}
use blue_bird.Web.HttpParser.StartLine.{parse_request_line, parse_response_line}
use blue_bird.Web.HttpParser.Fields.{
  parse_field_line, same_letters, apply_content_length, apply_transfer_encoding,
  parse_chunk_size_line,
}

-- bb_http_parse_status_t
pub data ParseStatus : Type 0 where
  incomplete complete parse_error : ParseStatus

-- The end of a line in each state; `none` is an error.
unfoldable pub on_start_line : Parser → Option Parser
on_start_line p =
    (if p.response_mode
      then parse_response_line p.message p.line.buf
      else parse_request_line p.message p.line.buf)
    >>= λ message. some (record p {
      message = message;
      line = reset_line p.line max_header_size;
      state = at_headers;
    })

-- A response without a body, by its status.
abbrev pub has_no_body : ℕ → Bool
has_no_body status_code =
    (leb 100 status_code && ltb status_code 200) || (status_code == 204 || status_code == 304)

unfoldable pub finish_headers : (ℕ → Bool) → Parser → Option Parser
finish_headers alloc p =
    if p.response_mode && has_no_body p.message.status_code
    then some (record p { state = at_complete })
    else if p.has_content_length && p.has_transfer_encoding
    then none
    else if p.has_transfer_encoding
    then some (record p { state = at_chunk_size; line = reset_line p.line max_chunk_line })
    else if p.has_content_length && not (p.content_length == 0)
    then (body_reserve alloc p.body p.content_length >>= λ body.
        some (record p { body = body; state = at_body_fixed }))
    else some (record p { state = at_complete })

-- The headers that say how long the body is.
unfoldable pub apply_framing : Parser → Header → Option Parser
apply_framing p field =
    if same_letters field.name (codes "content-length")
    then apply_content_length p field.value
    else if same_letters field.name (codes "transfer-encoding")
    then apply_transfer_encoding p field.value
    else some p

unfoldable pub on_header_line : (ℕ → Bool) → Parser → Option Parser
on_header_line alloc p =
    let field =
      parse_field_line alloc max_header_count max_header_size p.line.buf p.message.headers
        p.header_bytes_total in
    if length p.line.buf == 0
    then finish_headers alloc p
    else (field >>= λ f.
        apply_framing
          (record p { message = record (p.message) { headers = f.0 }; header_bytes_total = f.1 })
          f.2
        >>= λ applied. some (record applied { line = reset_line p.line max_header_size }))

unfoldable pub on_chunk_size_line : Parser → Option Parser
on_chunk_size_line p = parse_chunk_size_line p.line.buf >>= λ chunk_size.
    if not (chunk_size == 0) && ltb (max_body_size - length p.body.bytes) chunk_size
    then none
    else if chunk_size == 0
    then some (record p { state = at_trailers; line = reset_line p.line max_trailer_size })
    else some (record p { chunk_remaining = chunk_size; state = at_chunk_data })

unfoldable pub on_chunk_end : Parser → Option Parser
on_chunk_end p =
    if length p.line.buf == 0
    then some (record p { state = at_chunk_size; line = reset_line p.line max_chunk_line })
    else none

unfoldable pub on_trailer_line : (ℕ → Bool) → Parser → Option Parser
on_trailer_line alloc p =
    let field =
      parse_field_line alloc max_trailer_count max_trailer_size p.line.buf p.message.trailers
        p.trailer_bytes_total in
    if length p.line.buf == 0
    then some (record p { state = at_complete })
    else (field >>= λ f.
        if same_letters f.2.name (codes "content-length")
          || same_letters f.2.name (codes "transfer-encoding")
        then none
        else some (record p {
          message = record (p.message) { trailers = f.0 };
          trailer_bytes_total = f.1;
          line = reset_line p.line max_trailer_size;
        }))

-- A round of the loop: the parser and the bytes that are left, and whether feeding ends.
pub data Round : Type 0 where
  again : Parser → Bytes → Round
  ends : ParseStatus → Parser → Bytes → Round

abbrev pub failed : Parser → Bytes → Round
failed p rest = ends parse_error (record p { state = at_error }) rest

-- A state that reads a line.
unfoldable pub line_round : (ℕ → Bool) → (Parser → Option Parser) → Parser → Bytes → Round
line_round alloc on_line p bytes =
    let (line, result, rest) = consume_line alloc p.line bytes in
    let next = record p { line = line } in
    elim result [
      | line_open ↦ ends incomplete next rest
      | line_error ↦ failed next rest
      | line_full ↦ elim (on_line next) [ none ↦ failed next rest | some q ↦ again q rest ]
    ]

-- A state that reads at most `need` bytes of the body.
unfoldable pub body_fixed_round : (ℕ → Bool) → Parser → Bytes → Round
body_fixed_round alloc p bytes =
    let need = p.content_length - length p.body.bytes in
    elim (body_append alloc p.body (take need bytes)) [
      | none ↦ failed p bytes
      | some body ↦
          let next = record p { body = body } in
          if leb p.content_length (length body.bytes)
          then ends complete (record next { state = at_complete }) (drop need bytes)
          else ends incomplete next (drop need bytes)
    ]

unfoldable pub chunk_data_round : (ℕ → Bool) → Parser → Bytes → Round
chunk_data_round alloc p bytes =
    let taken = take p.chunk_remaining bytes in
    let rest = drop p.chunk_remaining bytes in
    elim (body_append alloc p.body taken) [
      | none ↦ failed p bytes
      | some body ↦
          let left = p.chunk_remaining - length taken in
          let next = record p { body = body; chunk_remaining = left } in
          if left == 0
          then again (record next { state = at_chunk_data_crlf; line = reset_line p.line 0 }) rest
          else ends incomplete next rest
    ]

unfoldable pub feed_round : (ℕ → Bool) → Parser → Bytes → Round
feed_round alloc p bytes = elim p.state [
  | at_request_line ↦ line_round alloc on_start_line p bytes
  | at_headers ↦ line_round alloc (on_header_line alloc) p bytes
  | at_body_fixed ↦ body_fixed_round alloc p bytes
  | at_chunk_size ↦ line_round alloc on_chunk_size_line p bytes
  | at_chunk_data ↦ chunk_data_round alloc p bytes
  | at_chunk_data_crlf ↦ line_round alloc on_chunk_end p bytes
  | at_trailers ↦ line_round alloc (on_trailer_line alloc) p bytes
  | at_complete ↦ ends complete p bytes
  | at_error ↦ ends parse_error p bytes
]

-- The rounds; `none` is an exhausted fuel.
unfoldable pub feed_from : (ℕ → Bool) → ℕ → Parser → Bytes → Option (ParseStatus × Parser × Bytes)
feed_from alloc zero p bytes = none
feed_from alloc (suc fuel) p bytes = elim (feed_round alloc p bytes) [
  | again next rest ↦ feed_from alloc fuel next rest
  | ends status next rest ↦ some (status, next, rest)
]

-- The parser remembers how many of the bytes it took.
abbrev pub with_consumed : Bytes → ParseStatus × Parser × Bytes → ParseStatus × Parser
with_consumed bytes fed = (fed.0, record (fed.1) { last_consumed = length bytes - length fed.2 })

-- `bb_http_parser_feed`
unfoldable pub feed : (ℕ → Bool) → Parser → Bytes → Option (ParseStatus × Parser)
feed alloc p bytes = elim p.state [
  | at_error ↦ some (parse_error, record p { last_consumed = 0 })
  | at_complete ↦ some (complete, record p { last_consumed = 0 })
  | _ ↦ feed_from alloc (2 * length bytes + 2) p bytes >>= λ fed. some (with_consumed bytes fed)
]
