-- ===== src/Web/HttpParser/Feed/Tests.antt =====
-- Requests that arrive in pieces, and the theorems at concrete inputs.
use blue_bird.Prelude.{
  ◌≤◌, ◌≡◌, refl, false, List, [], ◌∷◌, ◌++◌, Option, none, some, length, Bytes, codes, same_bytes,
}
use blue_bird.Web.HttpParser.{
  Parser, Header, ParseState, at_complete, at_headers, at_request_line, parser_create,
  empty_message, consume_line, consume_byte, grow_line, reset_line, body_reserve, body_append,
}
use blue_bird.Web.HttpParser.Target.{sanitize_request_target}
use blue_bird.Web.HttpParser.StartLine.{parse_request_line}
use blue_bird.Web.HttpParser.Feed.{
  ParseStatus, incomplete, complete, parse_error, feed, feed_from, feed_round, line_round,
}
use blue_bird.Web.HttpParser.Feed.Capacity.{ample, forget}
use blue_bird.Web.HttpParser.Feed.Ends.{feed_ends}
use blue_bird.Web.HttpParser.Feed.Split.{feed-append}

abbrev line_break : Bytes
line_break = 13 ∷ 10 ∷ []

abbrev start : Parser
start = record {
  state = at_request_line;
  response_mode = false;
  line = record { buf = []; cap = 0; limit = 8192; saw_cr = false };
  message = empty_message;
  has_content_length = false;
  content_length = 0;
  has_transfer_encoding = false;
  transfer_chunked = false;
  header_bytes_total = 0;
  trailer_bytes_total = 0;
  body = record { bytes = []; body_cap = 0 };
  chunk_remaining = 0;
  last_consumed = 0;
}

abbrev half : Parser
half = record start {
  line = record { buf = codes "GET /"; cap = 256; limit = 8192; saw_cr = false };
  last_consumed = 5;
}

abbrev ready : Parser
ready = record start {
  state = at_complete;
  line = record { buf = []; cap = 256; limit = 32768; saw_cr = false };
  message = record empty_message {
    method = codes "GET";
    target = codes "/";
    version_major = 1;
    version_minor = 1;
  };
  last_consumed = 13;
}

abbrev rest : Bytes
rest = codes " HTTP/1.1" ++ line_break ++ line_break

created : parser_create false ≡ start
unfolding parser_create
created = refl

first_half : feed ample start (codes "GET /") ≡ some (incomplete, half)
unfolding feed feed_from feed_round line_round consume_line consume_byte grow_line
first_half = refl

second_half : feed ample half rest ≡ some (complete, ready)
unfolding blue_bird.Web.Path.hex_value blue_bird.Web.Query.hex_byte same_bytes
    blue_bird.Web.HttpParser.consume_line blue_bird.Web.HttpParser.consume_byte
    blue_bird.Web.HttpParser.grow_line blue_bird.Web.HttpParser.reset_line
    blue_bird.Web.HttpParser.body_reserve blue_bird.Web.HttpParser.body_append
    blue_bird.Web.HttpParser.parser_create blue_bird.Web.HttpParser.Target.is_target_byte
    blue_bird.Web.HttpParser.Target.is_query_byte blue_bird.Web.HttpParser.Target.all_from
    blue_bird.Web.HttpParser.Target.path_of blue_bird.Web.HttpParser.Target.query_of
    blue_bird.Web.HttpParser.Target.is_dot_segment blue_bird.Web.HttpParser.Target.dot_segment_from
    blue_bird.Web.HttpParser.Target.sanitize_request_target
    blue_bird.Web.HttpParser.StartLine.is_tchar blue_bird.Web.HttpParser.StartLine.split_first
    blue_bird.Web.HttpParser.StartLine.split_last blue_bird.Web.HttpParser.StartLine.parse_version
    blue_bird.Web.HttpParser.StartLine.parse_request_line
    blue_bird.Web.HttpParser.StartLine.reason_of
    blue_bird.Web.HttpParser.StartLine.parse_response_line
    blue_bird.Web.HttpParser.Fields.trim_start blue_bird.Web.HttpParser.Fields.trim_end
    blue_bird.Web.HttpParser.Fields.split_field blue_bird.Web.HttpParser.Fields.parse_field_line
    blue_bird.Web.HttpParser.Fields.decimal_from
    blue_bird.Web.HttpParser.Fields.apply_content_length
    blue_bird.Web.HttpParser.Fields.codings_from
    blue_bird.Web.HttpParser.Fields.apply_transfer_encoding blue_bird.Web.HttpParser.Fields.hex_from
    blue_bird.Web.HttpParser.Fields.parse_chunk_size_line blue_bird.Web.HttpParser.Feed.feed
    blue_bird.Web.HttpParser.Feed.feed_from blue_bird.Web.HttpParser.Feed.feed_round
    blue_bird.Web.HttpParser.Feed.line_round blue_bird.Web.HttpParser.Feed.body_fixed_round
    blue_bird.Web.HttpParser.Feed.chunk_data_round blue_bird.Web.HttpParser.Feed.on_start_line
    blue_bird.Web.HttpParser.Feed.finish_headers blue_bird.Web.HttpParser.Feed.apply_framing
    blue_bird.Web.HttpParser.Feed.on_header_line blue_bird.Web.HttpParser.Feed.on_chunk_size_line
    blue_bird.Web.HttpParser.Feed.on_chunk_end blue_bird.Web.HttpParser.Feed.on_trailer_line
second_half = refl

feed-append_example :
    (v : Parser) × (feed ample start (codes "GET /" ++ rest) ≡ some (complete, v))
    × (forget v ≡ forget ready)
feed-append_example =
    feed-append start half ready (codes "GET /") rest complete first_half second_half

feed_ends_example :
    (status : ParseStatus) × (q : Parser) × (feed ample half rest ≡ some (status, q))
    × (q.last_consumed ≤ length rest)
feed_ends_example = feed_ends ample half rest

-- A chunked request, with a trailer, of which the body comes out.
abbrev chunked : Bytes
chunked =
    codes "POST /a HTTP/1.1"
    ++ line_break
    ++ codes "Transfer-Encoding: chunked"
    ++ line_break
    ++ line_break
    ++ codes "3;x"
    ++ line_break
    ++ codes "abc"
    ++ line_break
    ++ codes "1"
    ++ line_break
    ++ codes "d"
    ++ line_break
    ++ codes "0"
    ++ line_break
    ++ codes "T: u"
    ++ line_break
    ++ line_break

abbrev received : Option (ParseStatus × Parser) → Option (ParseStatus × Bytes × List Header)
received none = none
received (some (status, p)) = some (status, p.body.bytes, p.message.trailers)

parse_chunked :
    received (feed ample start chunked)
    ≡ some (complete, codes "abcd", record { name = codes "T"; value = codes "u" } ∷ [])
unfolding blue_bird.Web.Path.hex_value blue_bird.Web.Query.hex_byte same_bytes
    blue_bird.Web.HttpParser.consume_line blue_bird.Web.HttpParser.consume_byte
    blue_bird.Web.HttpParser.grow_line blue_bird.Web.HttpParser.reset_line
    blue_bird.Web.HttpParser.body_reserve blue_bird.Web.HttpParser.body_append
    blue_bird.Web.HttpParser.parser_create blue_bird.Web.HttpParser.Target.is_target_byte
    blue_bird.Web.HttpParser.Target.is_query_byte blue_bird.Web.HttpParser.Target.all_from
    blue_bird.Web.HttpParser.Target.path_of blue_bird.Web.HttpParser.Target.query_of
    blue_bird.Web.HttpParser.Target.is_dot_segment blue_bird.Web.HttpParser.Target.dot_segment_from
    blue_bird.Web.HttpParser.Target.sanitize_request_target
    blue_bird.Web.HttpParser.StartLine.is_tchar blue_bird.Web.HttpParser.StartLine.split_first
    blue_bird.Web.HttpParser.StartLine.split_last blue_bird.Web.HttpParser.StartLine.parse_version
    blue_bird.Web.HttpParser.StartLine.parse_request_line
    blue_bird.Web.HttpParser.StartLine.reason_of
    blue_bird.Web.HttpParser.StartLine.parse_response_line
    blue_bird.Web.HttpParser.Fields.trim_start blue_bird.Web.HttpParser.Fields.trim_end
    blue_bird.Web.HttpParser.Fields.split_field blue_bird.Web.HttpParser.Fields.parse_field_line
    blue_bird.Web.HttpParser.Fields.decimal_from
    blue_bird.Web.HttpParser.Fields.apply_content_length
    blue_bird.Web.HttpParser.Fields.codings_from
    blue_bird.Web.HttpParser.Fields.apply_transfer_encoding blue_bird.Web.HttpParser.Fields.hex_from
    blue_bird.Web.HttpParser.Fields.parse_chunk_size_line blue_bird.Web.HttpParser.Feed.feed
    blue_bird.Web.HttpParser.Feed.feed_from blue_bird.Web.HttpParser.Feed.feed_round
    blue_bird.Web.HttpParser.Feed.line_round blue_bird.Web.HttpParser.Feed.body_fixed_round
    blue_bird.Web.HttpParser.Feed.chunk_data_round blue_bird.Web.HttpParser.Feed.on_start_line
    blue_bird.Web.HttpParser.Feed.finish_headers blue_bird.Web.HttpParser.Feed.apply_framing
    blue_bird.Web.HttpParser.Feed.on_header_line blue_bird.Web.HttpParser.Feed.on_chunk_size_line
    blue_bird.Web.HttpParser.Feed.on_chunk_end blue_bird.Web.HttpParser.Feed.on_trailer_line
parse_chunked = refl

-- Targets that are refused.
refuse_dots : sanitize_request_target (codes "/a/%2E./b") ≡ false
unfolding blue_bird.Web.Path.hex_value blue_bird.Web.Query.hex_byte same_bytes
    blue_bird.Web.HttpParser.Target.is_target_byte blue_bird.Web.HttpParser.Target.is_query_byte
    blue_bird.Web.HttpParser.Target.all_from blue_bird.Web.HttpParser.Target.path_of
    blue_bird.Web.HttpParser.Target.query_of blue_bird.Web.HttpParser.Target.is_dot_segment
    blue_bird.Web.HttpParser.Target.dot_segment_from
    blue_bird.Web.HttpParser.Target.sanitize_request_target
refuse_dots = refl

refuse_coded_slash : sanitize_request_target (codes "/a/b?c=%2F") ≡ false
unfolding blue_bird.Web.Path.hex_value blue_bird.Web.Query.hex_byte same_bytes
    blue_bird.Web.HttpParser.Target.is_target_byte blue_bird.Web.HttpParser.Target.is_query_byte
    blue_bird.Web.HttpParser.Target.all_from blue_bird.Web.HttpParser.Target.path_of
    blue_bird.Web.HttpParser.Target.query_of blue_bird.Web.HttpParser.Target.is_dot_segment
    blue_bird.Web.HttpParser.Target.dot_segment_from
    blue_bird.Web.HttpParser.Target.sanitize_request_target
refuse_coded_slash = refl
