-- ===== src/Web/HttpParser.antt =====
-- modules/web/src/http/parser.c: the state of the HTTP parser, its line and body buffers. Target,
-- StartLine and Fields have the syntax of a line, Feed the loop over the bytes that arrive.
--
-- The buffers are the bytes they hold, with their capacity. The texts of errors are left out, and so
-- is what an error has written by then, as no message is handed out after one. Parsers are not NULL. A block
-- of memory is had or not by its size alone.
pub mod Target
pub mod StartLine
pub mod Syntax
pub mod Fields
pub mod Feed
mod Tests
use blue_bird.Prelude.{
  ℕ, ◌+◌, ◌*◌, Bool, true, false, ◌||◌, List, [], ◌∷◌, ◌++◌, Option, none, some, ◌>>=◌, ◌==◌, ltb,
  leb, if◌then◌else◌, length, Bytes,
}

abbrev pub max_request_line : ℕ
max_request_line = 8192

abbrev pub max_header_size : ℕ
max_header_size = 32768

abbrev pub max_header_count : ℕ
max_header_count = 100

abbrev pub max_body_size : ℕ
max_body_size = 16777216

abbrev pub max_chunk_size : ℕ
max_chunk_size = 16777216

abbrev pub max_chunk_line : ℕ
max_chunk_line = 1024

abbrev pub max_trailer_size : ℕ
max_trailer_size = 8192

abbrev pub max_trailer_count : ℕ
max_trailer_count = 50

abbrev pub method_size : ℕ
method_size = 32

abbrev pub target_size : ℕ
target_size = 8192

-- bb_http_parse_state_t
pub data ParseState : Type 0 where
  at_request_line at_headers at_body_fixed at_chunk_size at_chunk_data at_chunk_data_crlf
        at_trailers at_complete at_error :
      ParseState

-- bb_http_header_t
pub record Header : Type 0 where
  pub name : Bytes
  pub value : Bytes

-- The request and the response, of which the mode uses one.
pub record Message : Type 0 where
  pub method : Bytes
  pub target : Bytes
  pub version_major : ℕ
  pub version_minor : ℕ
  pub status_code : ℕ
  pub reason : Bytes
  pub headers : List Header
  pub trailers : List Header

-- The fields `line_*` of the parser.
pub record Line : Type 0 where
  pub buf : Bytes
  pub cap : ℕ
  pub limit : ℕ
  pub saw_cr : Bool

-- The body of the message with `body_cap`; `body_written` is its length.
pub record Body : Type 0 where
  pub bytes : Bytes
  pub body_cap : ℕ

-- struct bb_http_parser
pub record Parser : Type 0 where
  pub state : ParseState
  pub response_mode : Bool
  pub line : Line
  pub message : Message
  pub has_content_length : Bool
  pub content_length : ℕ
  pub has_transfer_encoding : Bool
  pub transfer_chunked : Bool
  pub header_bytes_total : ℕ
  pub trailer_bytes_total : ℕ
  pub body : Body
  pub chunk_remaining : ℕ
  pub last_consumed : ℕ

abbrev pub empty_message : Message
empty_message = record {
  method = [];
  target = [];
  version_major = 0;
  version_minor = 0;
  status_code = 0;
  reason = [];
  headers = [];
  trailers = [];
}

unfoldable pub reset_line : Line → ℕ → Line
reset_line l limit = record { buf = []; cap = l.cap; limit = limit; saw_cr = false }

-- The flag is the response mode.
unfoldable pub parser_create : Bool → Parser
parser_create response_mode = record {
  state = at_request_line;
  response_mode = response_mode;
  line = record { buf = []; cap = 0; limit = max_request_line; saw_cr = false };
  message = empty_message;
  has_content_length = false;
  content_length = 0;
  has_transfer_encoding = false;
  transfer_chunked = false;
  header_bytes_total = 0;
  trailer_bytes_total = 0;
  body = record { bytes = []; body_cap = 0 };
  chunk_remaining = 0;
  last_consumed = 0;
}

unfoldable pub parser_reset : Parser → Parser
parser_reset p = record p {
  state = at_request_line;
  line = reset_line p.line max_request_line;
  message = empty_message;
  has_content_length = false;
  content_length = 0;
  has_transfer_encoding = false;
  transfer_chunked = false;
  header_bytes_total = 0;
  trailer_bytes_total = 0;
  body = record { bytes = []; body_cap = 0 };
  chunk_remaining = 0;
  last_consumed = 0;
}

-- Room in the line buffer for one more byte.
unfoldable pub grow_line : (ℕ → Bool) → Line → Option Line
grow_line alloc l =
    let doubled = if l.cap == 0 then 256 else l.cap * 2 in
    let new_cap = if ltb (l.limit + 1) doubled then l.limit + 1 else doubled in
    if leb (length l.buf + 1) l.cap
    then some l
    else if alloc new_cap
    then some (record l { cap = new_cap })
    else none

-- What a byte does to a line: it goes on, ends, or is refused; a byte that is refused behind a
-- carriage return is taken, any other stays.
pub data ByteStep : Type 0 where
  goes_on ends_line refused_behind_cr refused : Line → ByteStep

unfoldable pub consume_byte : (ℕ → Bool) → Line → ℕ → ByteStep
consume_byte alloc l c =
    if l.saw_cr
    then (if c == 10
        then ends_line (record l { saw_cr = false })
        else refused_behind_cr (record l { saw_cr = false }))
    else if c == 13
    then goes_on (record l { saw_cr = true })
    else if c == 10 || c == 0
    then refused l
    else if leb l.limit (length l.buf)
    then refused l
    else elim (grow_line alloc l) [
      | none ↦ refused l
      | some grown ↦ goes_on (record grown { buf = grown.buf ++ c ∷ [] })
    ]

pub data LineResult : Type 0 where
  line_open line_full line_error : LineResult

-- The line, the result, and the bytes that are left.
unfoldable pub consume_line : (ℕ → Bool) → Line → Bytes → Line × LineResult × Bytes
consume_line alloc l [] = (l, line_open, [])
consume_line alloc l (c ∷ bytes) = elim (consume_byte alloc l c) [
  | goes_on next ↦ consume_line alloc next bytes
  | ends_line next ↦ (next, line_full, bytes)
  | refused_behind_cr next ↦ (next, line_error, bytes)
  | refused next ↦ (next, line_error, c ∷ bytes)
]

unfoldable pub body_reserve : (ℕ → Bool) → Body → ℕ → Option Body
body_reserve alloc b needed_total =
    let doubled = if b.body_cap == 0 then 4096 else b.body_cap * 2 in
    let enough = if ltb doubled needed_total then needed_total else doubled in
    let new_cap = if ltb max_body_size enough then max_body_size else enough in
    if leb needed_total b.body_cap
    then some b
    else if alloc new_cap
    then some (record b { body_cap = new_cap })
    else none

unfoldable pub body_append : (ℕ → Bool) → Body → Bytes → Option Body
body_append alloc b bytes =
    if length bytes == 0
    then some b
    else (body_reserve alloc b (length b.bytes + length bytes) >>= λ room.
        some (record room { bytes = room.bytes ++ bytes }))
