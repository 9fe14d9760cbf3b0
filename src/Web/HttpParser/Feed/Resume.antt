-- ===== src/Web/HttpParser/Feed/Resume.antt =====
-- A round over bytes that arrive in two pieces (bb_http_parser_feed of modules/web/src/http/parser.c).
use mathlib.Core.Path.{subst}
use blue_bird.Prelude.{
  ◌≡◌, refl, sym, ap, ◌∙◌, inl, inr, ◌++◌, Option, none, some, length, take, drop, leb, ◌==◌, Bytes,
  Bool-cases,
}
use blue_bird.Web.HttpParser.{
  ParseState, at_request_line, at_headers, at_body_fixed, at_chunk_size, at_chunk_data,
  at_chunk_data_crlf, at_trailers, at_complete, at_error, Parser, Line, LineResult, line_open,
  line_full, line_error, consume_line,
}
use blue_bird.Web.HttpParser.Feed.{
  incomplete, complete, parse_error, Round, again, ends, line_round, body_fixed_round,
  chunk_data_round, feed_round, on_start_line, on_header_line, on_chunk_size_line, on_chunk_end,
  on_trailer_line,
}
use blue_bird.Web.HttpParser.Feed.Capacity.{
  ample, forget, start-IsBlind, header-IsBlind, chunk_size-IsBlind, chunk_end-IsBlind,
  trailer-IsBlind,
}
use blue_bird.Web.HttpParser.Feed.Lines.{
  forget_round, resumed, settle, line_end, line_round_end, line_round-IsBlind, line_round-append,
}
use blue_bird.Web.HttpParser.Feed.Bodies.{
  fixed_end, needed, fixed_run, chunk_end, left_of, chunk_run, body_fixed_round-IsBlind,
  body_fixed_round-append, chunk_data_round-IsBlind, chunk_data_round-append,
}

-- The round of a state.
abbrev pub round_in : ParseState → Parser → Bytes → Round
round_in at_request_line p b = line_round ample on_start_line p b
round_in at_headers p b = line_round ample (on_header_line ample) p b
round_in at_body_fixed p b = body_fixed_round ample p b
round_in at_chunk_size p b = line_round ample on_chunk_size_line p b
round_in at_chunk_data p b = chunk_data_round ample p b
round_in at_chunk_data_crlf p b = line_round ample on_chunk_end p b
round_in at_trailers p b = line_round ample (on_trailer_line ample) p b
round_in at_complete p b = ends complete p b
round_in at_error p b = ends parse_error p b

pub feed_round_in : (p : Parser) (b : Bytes) → feed_round ample p b ≡ round_in p.state p b
unfolding feed_round
feed_round_in p b = in_state p.state
  where
    in_state :
        (s : ParseState)
        → (elim s [
          | at_request_line ↦ line_round ample on_start_line p b
          | at_headers ↦ line_round ample (on_header_line ample) p b
          | at_body_fixed ↦ body_fixed_round ample p b
          | at_chunk_size ↦ line_round ample on_chunk_size_line p b
          | at_chunk_data ↦ chunk_data_round ample p b
          | at_chunk_data_crlf ↦ line_round ample on_chunk_end p b
          | at_trailers ↦ line_round ample (on_trailer_line ample) p b
          | at_complete ↦ ends complete p b
          | at_error ↦ ends parse_error p b
        ])
          ≡ round_in s p b
    in_state at_request_line = refl
    in_state at_headers = refl
    in_state at_body_fixed = refl
    in_state at_chunk_size = refl
    in_state at_chunk_data = refl
    in_state at_chunk_data_crlf = refl
    in_state at_trailers = refl
    in_state at_complete = refl
    in_state at_error = refl

round_in-IsBlind :
    (s : ParseState) (p : Parser) (b : Bytes)
    → forget_round (round_in s p b) ≡ forget_round (round_in s (forget p) b)
round_in-IsBlind at_request_line p b = line_round-IsBlind on_start_line p b start-IsBlind
round_in-IsBlind at_headers p b = line_round-IsBlind (on_header_line ample) p b header-IsBlind
round_in-IsBlind at_body_fixed p b = body_fixed_round-IsBlind p b
round_in-IsBlind at_chunk_size p b = line_round-IsBlind on_chunk_size_line p b chunk_size-IsBlind
round_in-IsBlind at_chunk_data p b = chunk_data_round-IsBlind p b
round_in-IsBlind at_chunk_data_crlf p b = line_round-IsBlind on_chunk_end p b chunk_end-IsBlind
round_in-IsBlind at_trailers p b = line_round-IsBlind (on_trailer_line ample) p b trailer-IsBlind
round_in-IsBlind at_complete p b = refl
round_in-IsBlind at_error p b = refl

-- Parsers that differ in what is forgotten take the same round.
pub feed_round-IsBlind :
    (p q : Parser) (b : Bytes)
    → forget p ≡ forget q
    → forget_round (feed_round ample p b) ≡ forget_round (feed_round ample q b)
feed_round-IsBlind p q b e =
    ap forget_round (feed_round_in p b)
    ∙ round_in-IsBlind p.state p b
    ∙ ap (λ x. forget_round (round_in x.state x b)) e
    ∙ sym (round_in-IsBlind q.state q b)
    ∙ sym (ap forget_round (feed_round_in q b))

round_in-append :
    (s : ParseState) (p : Parser) (a b : Bytes)
    → forget_round (round_in s p (a ++ b)) ≡ forget_round (resumed (round_in s) b (round_in s p a))
round_in-append at_request_line p a b = ap forget_round (line_round-append on_start_line p a b)
round_in-append at_headers p a b = ap forget_round (line_round-append (on_header_line ample) p a b)
round_in-append at_body_fixed p a b = body_fixed_round-append p a b
round_in-append at_chunk_size p a b = ap forget_round (line_round-append on_chunk_size_line p a b)
round_in-append at_chunk_data p a b = chunk_data_round-append p a b
round_in-append at_chunk_data_crlf p a b = ap forget_round (line_round-append on_chunk_end p a b)
round_in-append at_trailers p a b =
    ap forget_round (line_round-append (on_trailer_line ample) p a b)
round_in-append at_complete p a b = refl
round_in-append at_error p a b = refl

-- A parser that waits for more stays in its state.
abbrev Stays : ParseState → Round → Type 0
Stays s (again q rest) = Unit
Stays s (ends incomplete q rest) = q.state ≡ s
Stays s (ends complete q rest) = Unit
Stays s (ends parse_error q rest) = Unit

line_round-Stays :
    (f : Parser → Option Parser) (p : Parser) (b : Bytes) → Stays p.state (line_round ample f p b)
line_round-Stays f p b =
    subst (Stays p.state) (sym (line_round_end f p b)) (by_result (consume_line ample p.line b))
  where
    settled :
        (next : Parser) (rest : Bytes) (o : Option Parser) → Stays p.state (settle next rest o)
    settled next rest none = tt
    settled next rest (some q) = tt

    by_result : (r : Line × LineResult × Bytes) → Stays p.state (line_end f p r)
    by_result (l, line_open, rest) = refl
    by_result (l, line_error, rest) = tt
    by_result (l, line_full, rest) =
        settled (record p { line = l }) rest (f (record p { line = l }))

body_fixed_round-Stays : (p : Parser) (b : Bytes) → Stays p.state (body_fixed_round ample p b)
body_fixed_round-Stays p b =
    let (cap, e) = fixed_run p b in
    let x = p.body.bytes ++ take (needed p) b in
    let rest = drop (needed p) b in
    let kept : Stays p.state (fixed_end p x rest cap) =
      elim (Bool-cases (leb p.content_length (length x))) [
        | inl full ↦ rw full tt
        | inr more ↦ rw more refl
      ] in
    subst (Stays p.state) (sym e) kept

chunk_data_round-Stays : (p : Parser) (b : Bytes) → Stays p.state (chunk_data_round ample p b)
chunk_data_round-Stays p b =
    let (cap, e) = chunk_run p b in
    let x = p.body.bytes ++ take p.chunk_remaining b in
    let rest = drop p.chunk_remaining b in
    let kept : Stays p.state (chunk_end p x (left_of p b) rest cap) =
      elim (Bool-cases (left_of p b == 0)) [ inl full ↦ rw full tt | inr more ↦ rw more refl ] in
    subst (Stays p.state) (sym e) kept

round_in-Stays : (s : ParseState) (p : Parser) (b : Bytes) → p.state ≡ s → Stays s (round_in s p b)
round_in-Stays at_request_line p b e =
    subst (λ s. Stays s (line_round ample on_start_line p b)) e (line_round-Stays on_start_line p b)
round_in-Stays at_headers p b e =
    subst (λ s. Stays s (line_round ample (on_header_line ample) p b)) e
      (line_round-Stays (on_header_line ample) p b)
round_in-Stays at_body_fixed p b e =
    subst (λ s. Stays s (body_fixed_round ample p b)) e (body_fixed_round-Stays p b)
round_in-Stays at_chunk_size p b e =
    subst (λ s. Stays s (line_round ample on_chunk_size_line p b)) e
      (line_round-Stays on_chunk_size_line p b)
round_in-Stays at_chunk_data p b e =
    subst (λ s. Stays s (chunk_data_round ample p b)) e (chunk_data_round-Stays p b)
round_in-Stays at_chunk_data_crlf p b e =
    subst (λ s. Stays s (line_round ample on_chunk_end p b)) e (line_round-Stays on_chunk_end p b)
round_in-Stays at_trailers p b e =
    subst (λ s. Stays s (line_round ample (on_trailer_line ample) p b)) e
      (line_round-Stays (on_trailer_line ample) p b)
round_in-Stays at_complete p b e = tt
round_in-Stays at_error p b e = tt

resume_same :
    (s : ParseState) (b : Bytes) (r : Round)
    → Stays s r
    → resumed (round_in s) b r ≡ resumed (feed_round ample) b r
resume_same s b (again q rest) h = refl
resume_same s b (ends incomplete q rest) h =
    ap (λ t. round_in t q b) (sym h) ∙ sym (feed_round_in q b)
resume_same s b (ends complete q rest) h = refl
resume_same s b (ends parse_error q rest) h = refl

pub feed_round-append :
    (p : Parser) (a b : Bytes)
    → forget_round (feed_round ample p (a ++ b))
      ≡ forget_round (resumed (feed_round ample) b (feed_round ample p a))
feed_round-append p a b =
    let s = p.state in
    ap forget_round (feed_round_in p (a ++ b))
    ∙ round_in-append s p a b
    ∙ ap forget_round (resume_same s b (round_in s p a) (round_in-Stays s p a refl))
    ∙ sym (ap (λ r. forget_round (resumed (feed_round ample) b r)) (feed_round_in p a))
