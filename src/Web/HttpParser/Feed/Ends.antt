-- ===== src/Web/HttpParser/Feed/Ends.antt =====
-- Feeding ends (bb_http_parser_feed of modules/web/src/http/parser.c).
use blue_bird.Prelude.{
  ℕ, zero, suc, ◌+◌, ◌*◌, ◌-◌, ◌≤◌, ◌<◌, ◌≡◌, refl, inl, inr, Bool, [], ◌∷◌, Option, none, some,
  arith, ◌>>=◌, ◌==◌, length, take, length-drop, leb, Bytes, Bool-cases, Option-cases,
}
use blue_bird.Web.HttpParser.{
  ParseState, at_request_line, at_headers, at_body_fixed, at_chunk_size, at_chunk_data,
  at_chunk_data_crlf, at_trailers, at_complete, at_error, Parser, Line, LineResult, line_open,
  line_full, line_error, ByteStep, goes_on, ends_line, refused_behind_cr, refused, consume_byte,
  consume_line, body_append,
}
use blue_bird.Web.HttpParser.Feed.{
  ParseStatus, incomplete, complete, parse_error, Round, again, ends, line_round, body_fixed_round,
  chunk_data_round, feed_round, feed_from, feed, with_consumed, on_start_line, on_header_line,
  on_chunk_size_line, on_chunk_end, on_trailer_line,
}

-- A line that ends takes a byte at least.
Shorter : Bytes → Line × LineResult × Bytes → Type 0
Shorter bytes (l, line_open, rest) = length rest ≤ length bytes
Shorter bytes (l, line_error, rest) = length rest ≤ length bytes
Shorter bytes (l, line_full, rest) = length rest < length bytes

wider :
    (c : ℕ) (bytes : Bytes) (r : Line × LineResult × Bytes)
    → Shorter bytes r
    → Shorter (c ∷ bytes) r
unfolding Shorter
wider c bytes (l, line_open, rest) h = omega (arith, h)
wider c bytes (l, line_error, rest) h = omega (arith, h)
wider c bytes (l, line_full, rest) h = omega (arith, h)

byte-Shorter :
    (alloc : ℕ → Bool) (c : ℕ) (bytes : Bytes)
    → ((l : Line) → Shorter bytes (consume_line alloc l bytes))
    → (step : ByteStep)
    → Shorter (c ∷ bytes) (elim step [
      | goes_on next ↦ consume_line alloc next bytes
      | ends_line next ↦ (next, line_full, bytes)
      | refused_behind_cr next ↦ (next, line_error, bytes)
      | refused next ↦ (next, line_error, c ∷ bytes)
    ])
unfolding Shorter
byte-Shorter alloc c bytes ih (goes_on next) =
    wider c bytes (consume_line alloc next bytes) (ih next)
byte-Shorter alloc c bytes ih (ends_line next) = omega arith
byte-Shorter alloc c bytes ih (refused_behind_cr next) = omega arith
byte-Shorter alloc c bytes ih (refused next) = omega arith

consume_line-Shorter :
    (alloc : ℕ → Bool) (l : Line) (bytes : Bytes) → Shorter bytes (consume_line alloc l bytes)
unfolding consume_line Shorter
consume_line-Shorter alloc l [] = omega arith
consume_line-Shorter alloc l (c ∷ bytes) =
    byte-Shorter alloc c bytes (λ next. consume_line-Shorter alloc next bytes)
      (consume_byte alloc l c)

-- A chunk of which nothing is left passes to its end without a byte.
abbrev pub weight : ParseState → ℕ
weight at_chunk_data = 1
weight _ = 0

pub weight_bound : (state : ParseState) → weight state ≤ 1
unfolding weight
weight_bound at_request_line = omega arith
weight_bound at_headers = omega arith
weight_bound at_body_fixed = omega arith
weight_bound at_chunk_size = omega arith
weight_bound at_chunk_data = omega arith
weight_bound at_chunk_data_crlf = omega arith
weight_bound at_trailers = omega arith
weight_bound at_complete = omega arith
weight_bound at_error = omega arith

-- A round that is not the last one comes nearer to the end; none makes bytes.
abbrev pub Nearer : ℕ → Bytes → Round → Type 0
Nearer w bytes (again q rest) = 2 * length rest + weight q.state < 2 * length bytes + w
Nearer w bytes (ends status q rest) = length rest ≤ length bytes

line_round-Nearer :
    (alloc : ℕ → Bool) (on_line : Parser → Option Parser) (p : Parser) (w : ℕ) (bytes : Bytes)
    → Nearer w bytes (line_round alloc on_line p bytes)
unfolding line_round
line_round-Nearer alloc on_line p w bytes =
    result (consume_line alloc p.line bytes) (consume_line-Shorter alloc p.line bytes)
  where
    on_full :
        (next : Parser) (rest : Bytes) (o : Option Parser)
        → length rest < length bytes
        → Nearer w bytes (elim o [
          | none ↦ ends parse_error (record next { state = at_error }) rest
          | some q ↦ again q rest
        ])
    on_full next rest none h = omega (arith, h)
    on_full next rest (some q) h = omega (arith, h, weight_bound q.state)

    result :
        (r : Line × LineResult × Bytes)
        → Shorter bytes r
        → Nearer w bytes (elim r.1 [
          | line_open ↦ ends incomplete (record p { line = r.0 }) r.2
          | line_error ↦ ends parse_error (record p { line = r.0; state = at_error }) r.2
          | line_full ↦ elim (on_line (record p { line = r.0 })) [
            | none ↦ ends parse_error (record p { line = r.0; state = at_error }) r.2
            | some q ↦ again q r.2
          ]
        ])
    result (l, line_open, rest) h = unfold Shorter in h
    result (l, line_error, rest) h = unfold Shorter in h
    result (l, line_full, rest) h =
        on_full (record p { line = l }) rest (on_line (record p { line = l })) (unfold Shorter in h)

body_fixed_round-Nearer :
    (alloc : ℕ → Bool) (p : Parser) (w : ℕ) (bytes : Bytes)
    → Nearer w bytes (body_fixed_round alloc p bytes)
unfolding body_fixed_round Nearer
body_fixed_round-Nearer alloc p w bytes =
    let need = p.content_length - length p.body.bytes in
    elim (Option-cases (body_append alloc p.body (take need bytes))) [
      | inl n ↦ rw (n, body_fixed_round) (omega arith)
      | inr (body, e) ↦ elim (Bool-cases (leb p.content_length (length body.bytes))) [
        | inl full ↦ rw (e, body_fixed_round) (rw full (omega (arith, length-drop need bytes)))
        | inr more ↦ rw (e, body_fixed_round) (rw more (omega (arith, length-drop need bytes)))
      ]
    ]

chunk_data_round-Nearer :
    (alloc : ℕ → Bool) (p : Parser) (bytes : Bytes)
    → Nearer 1 bytes (chunk_data_round alloc p bytes)
unfolding chunk_data_round Nearer weight
chunk_data_round-Nearer alloc p bytes =
    let need = p.chunk_remaining in
    elim (Option-cases (body_append alloc p.body (take need bytes))) [
      | inl n ↦ rw (n, chunk_data_round) (omega arith)
      | inr (body, e) ↦ elim (Bool-cases (need - length (take need bytes) == 0)) [
        | inl full ↦ rw (e, chunk_data_round) (rw full (omega (arith, length-drop need bytes)))
        | inr more ↦ rw (e, chunk_data_round) (rw more (omega (arith, length-drop need bytes)))
      ]
    ]

feed_round-Nearer :
    (alloc : ℕ → Bool) (p : Parser) (bytes : Bytes)
    → Nearer (weight p.state) bytes (feed_round alloc p bytes)
unfolding feed_round weight Nearer
feed_round-Nearer alloc p bytes = in_state p.state
  where
    in_state :
        (state : ParseState)
        → Nearer (weight state) bytes (elim state [
          | at_request_line ↦ line_round alloc on_start_line p bytes
          | at_headers ↦ line_round alloc (on_header_line alloc) p bytes
          | at_body_fixed ↦ body_fixed_round alloc p bytes
          | at_chunk_size ↦ line_round alloc on_chunk_size_line p bytes
          | at_chunk_data ↦ chunk_data_round alloc p bytes
          | at_chunk_data_crlf ↦ line_round alloc on_chunk_end p bytes
          | at_trailers ↦ line_round alloc (on_trailer_line alloc) p bytes
          | at_complete ↦ ends complete p bytes
          | at_error ↦ ends parse_error p bytes
        ])
    in_state at_request_line = line_round-Nearer alloc on_start_line p 0 bytes
    in_state at_headers = line_round-Nearer alloc (on_header_line alloc) p 0 bytes
    in_state at_body_fixed = body_fixed_round-Nearer alloc p 0 bytes
    in_state at_chunk_size = line_round-Nearer alloc on_chunk_size_line p 0 bytes
    in_state at_chunk_data = chunk_data_round-Nearer alloc p bytes
    in_state at_chunk_data_crlf = line_round-Nearer alloc on_chunk_end p 0 bytes
    in_state at_trailers = line_round-Nearer alloc (on_trailer_line alloc) p 0 bytes
    in_state at_complete = omega arith
    in_state at_error = omega arith

-- With fuel for what is left, the rounds end, and leave no more bytes than there were.
pub feed_from_ends :
    (alloc : ℕ → Bool) (fuel : ℕ) (p : Parser) (bytes : Bytes)
    → 2 * length bytes + weight p.state < fuel
    → (status : ParseStatus) × (q : Parser) × (rest : Bytes) × (feed_from alloc fuel p bytes
        ≡ some (status, q, rest))
      × (length rest ≤ length bytes)
unfolding feed_from
feed_from_ends alloc zero p bytes h = absurd (omega (arith, h))
feed_from_ends alloc (suc fuel) p bytes h =
    last_or_next (feed_round alloc p bytes) (feed_round-Nearer alloc p bytes)
      (λ q rest. feed_from_ends alloc fuel q rest)
  where
    last_or_next :
        (round : Round)
        → Nearer (weight p.state) bytes round
        → ((q : Parser) (rest : Bytes)
            → 2 * length rest + weight q.state < fuel
            → (status : ParseStatus) × (r : Parser) × (left : Bytes) × (feed_from alloc fuel q rest
                ≡ some (status, r, left))
              × (length left ≤ length rest))
        → (status : ParseStatus) × (q : Parser) × (rest : Bytes) × ((elim round [
          | again next rest ↦ feed_from alloc fuel next rest
          | ends status next rest ↦ some (status, next, rest)
        ])
            ≡ some (status, q, rest))
          × (length rest ≤ length bytes)
    last_or_next (again q rest) n ih =
        let (status, r, left, ran, few) = ih q rest (omega (arith, h, n)) in
        (status, r, left, ran, omega (arith, few, n, weight_bound p.state))
    last_or_next (ends status q rest) n ih = (status, q, rest, refl, n)

-- Feeding ends for every parser, input and state of the memory, and has consumed no more bytes than
-- it was given.
pub feed_ends :
    (alloc : ℕ → Bool) (p : Parser) (bytes : Bytes)
    → (status : ParseStatus) × (q : Parser) × (feed alloc p bytes ≡ some (status, q))
      × (q.last_consumed ≤ length bytes)
unfolding feed
feed_ends alloc p bytes = in_state p.state
  where
    fed :
        (status : ParseStatus) × (q : Parser) × ((feed_from alloc (2 * length bytes + 2) p bytes
            >>= λ fed. some (with_consumed bytes fed))
          ≡ some (status, q))
        × (q.last_consumed ≤ length bytes)
    fed =
        let (status, q, rest, ran, few) =
          feed_from_ends alloc (2 * length bytes + 2) p bytes
            (omega (arith, weight_bound p.state)) in
        (status, record q { last_consumed = length bytes - length rest }, rw ran refl, omega arith)

    in_state :
        (state : ParseState)
        → (status : ParseStatus) × (q : Parser) × ((elim state [
          | at_error ↦ some (parse_error, record p { last_consumed = 0 })
          | at_complete ↦ some (complete, record p { last_consumed = 0 })
          | _ ↦ feed_from alloc (2 * length bytes + 2) p bytes >>= λ fed.
              some (with_consumed bytes fed)
        ])
            ≡ some (status, q))
          × (q.last_consumed ≤ length bytes)
    in_state at_request_line = fed
    in_state at_headers = fed
    in_state at_body_fixed = fed
    in_state at_chunk_size = fed
    in_state at_chunk_data = fed
    in_state at_chunk_data_crlf = fed
    in_state at_trailers = fed
    in_state at_complete = (complete, record p { last_consumed = 0 }, refl, omega arith)
    in_state at_error = (parse_error, record p { last_consumed = 0 }, refl, omega arith)
