-- ===== src/Web/HttpParser/Tests.antt =====
-- A request line at a concrete input.
use blue_bird.Prelude.{◌≡◌, refl, some, Bytes, codes, same_bytes}
use blue_bird.Web.HttpParser.{Message, empty_message}
use blue_bird.Web.HttpParser.StartLine.{parse_request_line}
use blue_bird.Web.HttpParser.Syntax.{IsRequestLine, parse_request_line-IsRequestLine}

abbrev line : Bytes
line = codes "GET /a?b=%20 HTTP/1.0"

abbrev message : Message
message = record empty_message {
  method = codes "GET";
  target = codes "/a?b=%20";
  version_major = 1;
  version_minor = 0;
}

parsed : parse_request_line empty_message line ≡ some message
unfolding blue_bird.Web.Path.hex_value blue_bird.Web.Query.hex_byte same_bytes
    blue_bird.Web.HttpParser.Target.is_target_byte blue_bird.Web.HttpParser.Target.is_query_byte
    blue_bird.Web.HttpParser.Target.all_from blue_bird.Web.HttpParser.Target.path_of
    blue_bird.Web.HttpParser.Target.query_of blue_bird.Web.HttpParser.Target.is_dot_segment
    blue_bird.Web.HttpParser.Target.dot_segment_from
    blue_bird.Web.HttpParser.Target.sanitize_request_target
    blue_bird.Web.HttpParser.StartLine.is_tchar blue_bird.Web.HttpParser.StartLine.split_first
    blue_bird.Web.HttpParser.StartLine.split_last blue_bird.Web.HttpParser.StartLine.parse_version
    blue_bird.Web.HttpParser.StartLine.parse_request_line
parsed = refl

parse_request_line-IsRequestLine_example : IsRequestLine line message
parse_request_line-IsRequestLine_example =
    parse_request_line-IsRequestLine empty_message message line parsed
