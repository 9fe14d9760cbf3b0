-- ===== src/Web/HttpParser/Feed/Bodies.antt =====
-- Bodies and chunks that arrive in two pieces (bb_http_parser_feed of modules/web/src/http/parser.c).
use blue_bird.Prelude.{
  ℕ, ◌+◌, ◌-◌, ◌≤◌, ◌≡◌, refl, sym, ap, ◌∙◌, inl, inr, [], ◌∷◌, ◌++◌, some, arith, ◌>>=◌, ◌==◌, leb,
  if◌then◌else◌, if_false, length, length-append, length-take, take, drop, append_nil, append_assoc,
  Bytes, Bool-cases,
}
use blue_bird.Web.HttpParser.{
  at_chunk_data_crlf, at_complete, Parser, Body, reset_line, body_reserve, body_append,
}
use blue_bird.Web.HttpParser.Feed.{
  incomplete, complete, Round, again, ends, body_fixed_round, chunk_data_round,
}
use blue_bird.Web.HttpParser.Feed.Capacity.{ample, forget, body_reserve-ample}
use blue_bird.Web.HttpParser.Feed.Lines.{
  forget_round, resumed, take_long, drop_long, take_short, drop_short, take_all,
}

body_append-ample :
    (b : Body) (x : Bytes)
    → (cap : ℕ) × (body_append ample b x ≡ some (record { bytes = b.bytes ++ x; body_cap = cap }))
unfolding body_append
body_append-ample b [] = (
  b.body_cap,
  ap (λ xs. some (record { bytes = xs; body_cap = b.body_cap })) (sym (append_nil b.bytes)),
)
body_append-ample b (c ∷ x) =
    let (cap, e) = body_reserve-ample b (length b.bytes + length (c ∷ x)) in
    (
      cap,
      if_false (length (c ∷ x) == 0) (some b)
            (body_reserve ample b (length b.bytes + length (c ∷ x)) >>= λ room.
              some (record room { bytes = room.bytes ++ c ∷ x }))
            (ground arith)
          ∙ rw e refl,
    )

-- The body of a parser, whatever its capacity.
abbrev pub filled : Parser → Bytes → ℕ → Parser
filled p x cap = record p { body = record { bytes = x; body_cap = cap } }

abbrev pub fixed_end : Parser → Bytes → Bytes → ℕ → Round
fixed_end p x rest cap =
    if leb p.content_length (length x)
    then ends complete (record (filled p x cap) { state = at_complete }) rest
    else ends incomplete (filled p x cap) rest

abbrev pub needed : Parser → ℕ
needed p = p.content_length - length p.body.bytes

pub fixed_run :
    (p : Parser) (b : Bytes)
    → (cap : ℕ) × (body_fixed_round ample p b
        ≡ fixed_end p (p.body.bytes ++ take (needed p) b) (drop (needed p) b) cap)
unfolding body_fixed_round
fixed_run p b =
    let (cap, e) = body_append-ample p.body (take (needed p) b) in
    (cap, rw (e, body_fixed_round) refl)

forget_fixed :
    (p : Parser) (x rest : Bytes) (cap : ℕ)
    → forget_round (fixed_end p x rest cap) ≡ fixed_end (forget p) x rest 0
forget_fixed p x rest cap = elim (Bool-cases (leb p.content_length (length x))) [
  | inl e ↦ rw e refl
  | inr e ↦ rw e refl
]

-- What a round over a body of known length does, but for the capacity.
fixed_forgotten :
    (p : Parser) (b : Bytes)
    → forget_round (body_fixed_round ample p b)
      ≡ fixed_end (forget p) (p.body.bytes ++ take (needed p) b) (drop (needed p) b) 0
fixed_forgotten p b =
    let (cap, e) = fixed_run p b in
    ap forget_round e ∙ forget_fixed p (p.body.bytes ++ take (needed p) b) (drop (needed p) b) cap

pub body_fixed_round-IsBlind :
    (p : Parser) (b : Bytes)
    → forget_round (body_fixed_round ample p b) ≡ forget_round (body_fixed_round ample (forget p) b)
body_fixed_round-IsBlind p b = fixed_forgotten p b ∙ sym (fixed_forgotten (forget p) b)

pub body_fixed_round-append :
    (p : Parser) (a b : Bytes)
    → forget_round (body_fixed_round ample p (a ++ b))
      ≡ forget_round (resumed (body_fixed_round ample) b (body_fixed_round ample p a))
body_fixed_round-append p a b =
    let n = needed p in
    let old = p.body.bytes in
    let (cap, e) = fixed_run p a in
    let grown = length-append old (take n a) in
    let size = length-take n a in
    elim (Bool-cases (leb p.content_length (length (old ++ take n a)))) [
      | inl full ↦
          let short : n ≤ length a = ground (arith, grown, size, full) in
          fixed_forgotten p (a ++ b)
          ∙ ap (λ x. fixed_end (forget p) (old ++ x) (drop n (a ++ b)) 0) (take_short n a b short)
          ∙ ap (λ x. fixed_end (forget p) (old ++ take n a) x 0) (drop_short n a b short)
          ∙ rw (e) (rw full refl)
      | inr more ↦
          let m = n - length a in
          let long : n ≡ length a + m = ground (arith, grown, size, more) in
          let whole = take_all n a (omega (arith, long)) in
          let next = filled p (old ++ take n a) cap in
          let left : m ≡ needed next = omega (arith, grown, size, long) in
          let resume : forget_round
                (resumed (body_fixed_round ample) b (body_fixed_round ample p a))
              ≡ forget_round (body_fixed_round ample next b) =
            rw e (rw more refl) in
          fixed_forgotten p (a ++ b)
          ∙ ap (λ x. fixed_end (forget p) (old ++ x) (drop n (a ++ b)) 0) (take_long n m a b long)
          ∙ ap (λ x. fixed_end (forget p) (old ++ (a ++ take m b)) x 0) (drop_long n m a b long)
          ∙ ap (λ x. fixed_end (forget p) x (drop m b) 0) (sym (append_assoc old a (take m b)))
          ∙ ap (λ x. fixed_end (forget p) ((old ++ x) ++ take m b) (drop m b) 0) (sym whole)
          ∙ ap (λ k. fixed_end (forget p) ((old ++ take n a) ++ take k b) (drop k b) 0) left
          ∙ sym (fixed_forgotten next b)
          ∙ sym resume
    ]

-- The same for the data of a chunk.
abbrev pub chunk_end : Parser → Bytes → ℕ → Bytes → ℕ → Round
chunk_end p x left rest cap =
    if left == 0
    then again
        (record (filled p x cap) {
          chunk_remaining = left;
          state = at_chunk_data_crlf;
          line = reset_line p.line 0;
        })
        rest
    else ends incomplete (record (filled p x cap) { chunk_remaining = left }) rest

abbrev pub left_of : Parser → Bytes → ℕ
left_of p b = p.chunk_remaining - length (take p.chunk_remaining b)

pub chunk_run :
    (p : Parser) (b : Bytes)
    → (cap : ℕ) × (chunk_data_round ample p b
        ≡ chunk_end p
            (p.body.bytes ++ take p.chunk_remaining b)
            (left_of p b)
            (drop p.chunk_remaining b)
            cap)
unfolding chunk_data_round
chunk_run p b =
    let (cap, e) = body_append-ample p.body (take p.chunk_remaining b) in
    (cap, rw (e, chunk_data_round) refl)

forget_chunk :
    (p : Parser) (x : Bytes) (left : ℕ) (rest : Bytes) (cap : ℕ)
    → forget_round (chunk_end p x left rest cap) ≡ chunk_end (forget p) x left rest 0
forget_chunk p x left rest cap = elim (Bool-cases (left == 0)) [
  | inl e ↦ rw e refl
  | inr e ↦ rw e refl
]

chunk_forgotten :
    (p : Parser) (b : Bytes)
    → forget_round (chunk_data_round ample p b)
      ≡ chunk_end
          (forget p)
          (p.body.bytes ++ take p.chunk_remaining b)
          (left_of p b)
          (drop p.chunk_remaining b)
          0
chunk_forgotten p b =
    let (cap, e) = chunk_run p b in
    ap forget_round e
    ∙ forget_chunk p (p.body.bytes ++ take p.chunk_remaining b) (left_of p b)
        (drop p.chunk_remaining b) cap

pub chunk_data_round-IsBlind :
    (p : Parser) (b : Bytes)
    → forget_round (chunk_data_round ample p b) ≡ forget_round (chunk_data_round ample (forget p) b)
chunk_data_round-IsBlind p b = chunk_forgotten p b ∙ sym (chunk_forgotten (forget p) b)

pub chunk_data_round-append :
    (p : Parser) (a b : Bytes)
    → forget_round (chunk_data_round ample p (a ++ b))
      ≡ forget_round (resumed (chunk_data_round ample) b (chunk_data_round ample p a))
chunk_data_round-append p a b =
    let n = p.chunk_remaining in
    let old = p.body.bytes in
    let (cap, e) = chunk_run p a in
    let size = length-take n a in
    elim (Bool-cases (left_of p a == 0)) [
      | inl full ↦
          let short : n ≤ length a = ground (arith, size, full) in
          let resume : forget_round
                (resumed (chunk_data_round ample) b (chunk_data_round ample p a))
              ≡ chunk_end (forget p) (old ++ take n a) (left_of p a) (drop n a ++ b) 0 =
            rw e (rw full refl) in
          chunk_forgotten p (a ++ b)
          ∙ ap (λ x. chunk_end (forget p) (old ++ x) (n - length x) (drop n (a ++ b)) 0)
              (take_short n a b short)
          ∙ ap (λ x. chunk_end (forget p) (old ++ take n a) (left_of p a) x 0)
              (drop_short n a b short)
          ∙ sym resume
      | inr more ↦
          let m = n - length a in
          let long : n ≡ length a + m = ground (arith, size, more) in
          let whole = take_all n a (omega (arith, long)) in
          let next = record (filled p (old ++ take n a) cap) { chunk_remaining = left_of p a } in
          let left : m ≡ left_of p a = omega (arith, size, long) in
          let resume : forget_round
                (resumed (chunk_data_round ample) b (chunk_data_round ample p a))
              ≡ forget_round (chunk_data_round ample next b) =
            rw e (rw more refl) in
          let shorter : n - length (a ++ take m b) ≡ m - length (take m b) =
            omega (arith, length-append a (take m b), long) in
          chunk_forgotten p (a ++ b)
          ∙ ap (λ x. chunk_end (forget p) (old ++ x) (n - length x) (drop n (a ++ b)) 0)
              (take_long n m a b long)
          ∙ ap (λ x. chunk_end (forget p) (old ++ (a ++ take m b)) (n - length (a ++ take m b)) x 0)
              (drop_long n m a b long)
          ∙ ap (λ x. chunk_end (forget p) (old ++ (a ++ take m b)) x (drop m b) 0) shorter
          ∙ ap (λ x. chunk_end (forget p) x (m - length (take m b)) (drop m b) 0)
              (sym (append_assoc old a (take m b)))
          ∙ ap
              (λ x.
                chunk_end (forget p) ((old ++ x) ++ take m b) (m - length (take m b)) (drop m b) 0)
              (sym whole)
          ∙ ap
              (λ k.
                chunk_end (forget p) ((old ++ take n a) ++ take k b) (k - length (take k b))
                  (drop k b) 0)
              left
          ∙ sym (chunk_forgotten next b)
          ∙ sym resume
    ]
