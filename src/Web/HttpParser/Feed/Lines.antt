-- ===== src/Web/HttpParser/Feed/Lines.antt =====
-- Lines that arrive in two pieces
-- (bb_http_parser_feed of modules/web/src/http/parser.c).
use blue_bird.Prelude.{
  ℕ, zero, suc, ◌+◌, ◌≤◌, ◌≡◌, refl, sym, ap, ◌∙◌, List, [], ◌∷◌, ◌++◌, Option, none, some, arith,
  length, take, drop, Bytes,
}
use blue_bird.Web.HttpParser.{
  at_error, Parser, Line, LineResult, line_open, line_full, line_error, ByteStep, goes_on,
  ends_line, refused_behind_cr, refused, consume_byte, consume_line,
}
use blue_bird.Web.HttpParser.Feed.{
  incomplete, complete, parse_error, Round, again, ends, line_round,
}
use blue_bird.Web.HttpParser.Feed.Capacity.{ample, forget, forget_some, IsBlind}

module _ {A : Type 0} where
  pub take_long : (n m : ℕ) (a b : List A) → n ≡ length a + m → take n (a ++ b) ≡ a ++ take m b
  take_long n m [] b h = let same : n ≡ m = omega (arith, h) in ap (λ k. take k b) same
  take_long zero m (x ∷ a) b h = absurd (omega (arith, h))
  take_long (suc n) m (x ∷ a) b h = ap (λ xs. x ∷ xs) (take_long n m a b (omega (arith, h)))

  pub drop_long : (n m : ℕ) (a b : List A) → n ≡ length a + m → drop n (a ++ b) ≡ drop m b
  drop_long n m [] b h = let same : n ≡ m = omega (arith, h) in ap (λ k. drop k b) same
  drop_long zero m (x ∷ a) b h = absurd (omega (arith, h))
  drop_long (suc n) m (x ∷ a) b h = drop_long n m a b (omega (arith, h))

  pub take_short : (n : ℕ) (a b : List A) → n ≤ length a → take n (a ++ b) ≡ take n a
  take_short zero a b h = refl
  take_short (suc n) [] b h = absurd (omega (arith, h))
  take_short (suc n) (x ∷ a) b h = ap (λ xs. x ∷ xs) (take_short n a b (omega (arith, h)))

  pub take_all : (n : ℕ) (a : List A) → length a ≤ n → take n a ≡ a
  take_all zero [] h = refl
  take_all (suc n) [] h = refl
  take_all zero (x ∷ a) h = absurd (omega (arith, h))
  take_all (suc n) (x ∷ a) h = ap (λ xs. x ∷ xs) (take_all n a (omega (arith, h)))

  pub drop_short : (n : ℕ) (a b : List A) → n ≤ length a → drop n (a ++ b) ≡ drop n a ++ b
  drop_short zero a b h = refl
  drop_short (suc n) [] b h = absurd (omega (arith, h))
  drop_short (suc n) (x ∷ a) b h = drop_short n a b (omega (arith, h))

-- What reading a line makes of more bytes.
abbrev resumed_line : Bytes → Line × LineResult × Bytes → Line × LineResult × Bytes
resumed_line b (l, line_open, rest) = consume_line ample l b
resumed_line b (l, line_full, rest) = (l, line_full, rest ++ b)
resumed_line b (l, line_error, rest) = (l, line_error, rest ++ b)

consume_line-append :
    (l : Line) (a b : Bytes)
    → consume_line ample l (a ++ b) ≡ resumed_line b (consume_line ample l a)
unfolding consume_line
consume_line-append l [] b = refl
consume_line-append l (c ∷ a) b =
    by_step (consume_byte ample l c) (λ next. consume_line-append next a b)
  where
    after : Bytes → ByteStep → Line × LineResult × Bytes
    after bytes step = elim step [
      | goes_on next ↦ consume_line ample next bytes
      | ends_line next ↦ (next, line_full, bytes)
      | refused_behind_cr next ↦ (next, line_error, bytes)
      | refused next ↦ (next, line_error, c ∷ bytes)
    ]

    by_step :
        (step : ByteStep)
        → ((next : Line)
            → consume_line ample next (a ++ b) ≡ resumed_line b (consume_line ample next a))
        → after (a ++ b) step ≡ resumed_line b (after a step)
    by_step (goes_on next) ih = ih next
    by_step (ends_line next) ih = refl
    by_step (refused_behind_cr next) ih = refl
    by_step (refused next) ih = refl

abbrev pub forget_round : Round → Round
forget_round (again q rest) = again (forget q) rest
forget_round (ends status q rest) = ends status (forget q) rest

-- What a round makes of more bytes.
abbrev pub resumed : (Parser → Bytes → Round) → Bytes → Round → Round
resumed round b (again q rest) = again q (rest ++ b)
resumed round b (ends incomplete q rest) = round q b
resumed round b (ends complete q rest) = ends complete q (rest ++ b)
resumed round b (ends parse_error q rest) = ends parse_error q (rest ++ b)

-- The round behind a line.
abbrev pub settle : Parser → Bytes → Option Parser → Round
settle next rest none = ends parse_error (record next { state = at_error }) rest
settle next rest (some q) = again q rest

forget-settle :
    (next : Parser) (rest : Bytes) (o : Option Parser)
    → forget_round (settle next rest o) ≡ settle (forget next) rest (forget_some o)
forget-settle next rest none = refl
forget-settle next rest (some q) = refl

resumed-settle :
    (round : Parser → Bytes → Round) (next : Parser) (rest b : Bytes) (o : Option Parser)
    → settle next (rest ++ b) o ≡ resumed round b (settle next rest o)
resumed-settle round next rest b none = refl
resumed-settle round next rest b (some q) = refl

abbrev pub line_end : (Parser → Option Parser) → Parser → Line × LineResult × Bytes → Round
line_end f p (l, line_open, rest) = ends incomplete (record p { line = l }) rest
line_end f p (l, line_error, rest) = ends parse_error (record p { line = l; state = at_error }) rest
line_end f p (l, line_full, rest) = settle (record p { line = l }) rest (f (record p { line = l }))

pub line_round_end :
    (f : Parser → Option Parser) (p : Parser) (b : Bytes)
    → line_round ample f p b ≡ line_end f p (consume_line ample p.line b)
unfolding line_round
line_round_end f p b = by_result (consume_line ample p.line b)
  where
    at_settled :
        (next : Parser) (rest : Bytes) (o : Option Parser)
        → (elim o [
          | none ↦ ends parse_error (record next { state = at_error }) rest
          | some q ↦ again q rest
        ])
          ≡ settle next rest o
    at_settled next rest none = refl
    at_settled next rest (some q) = refl

    by_result :
        (r : Line × LineResult × Bytes)
        → (elim r.1 [
          | line_open ↦ ends incomplete (record p { line = r.0 }) r.2
          | line_error ↦ ends parse_error (record p { line = r.0; state = at_error }) r.2
          | line_full ↦ elim (f (record p { line = r.0 })) [
            | none ↦ ends parse_error (record p { line = r.0; state = at_error }) r.2
            | some q ↦ again q r.2
          ]
        ])
          ≡ line_end f p r
    by_result (l, line_open, rest) = refl
    by_result (l, line_error, rest) = refl
    by_result (l, line_full, rest) =
        at_settled (record p { line = l }) rest (f (record p { line = l }))

pub line_round-IsBlind :
    (f : Parser → Option Parser) (p : Parser) (b : Bytes)
    → IsBlind f
    → forget_round (line_round ample f p b) ≡ forget_round (line_round ample f (forget p) b)
line_round-IsBlind f p b blind =
    ap forget_round (line_round_end f p b)
    ∙ by_result (consume_line ample p.line b)
    ∙ sym (ap forget_round (line_round_end f (forget p) b))
  where
    by_result :
        (r : Line × LineResult × Bytes)
        → forget_round (line_end f p r) ≡ forget_round (line_end f (forget p) r)
    by_result (l, line_open, rest) = refl
    by_result (l, line_error, rest) = refl
    by_result (l, line_full, rest) =
        let next = record p { line = l } in
        forget-settle next rest (f next)
        ∙ ap (settle (forget next) rest) (blind next)
        ∙ sym (forget-settle (forget next) rest (f (forget next)))

pub line_round-append :
    (f : Parser → Option Parser) (p : Parser) (a b : Bytes)
    → line_round ample f p (a ++ b) ≡ resumed (line_round ample f) b (line_round ample f p a)
line_round-append f p a b =
    line_round_end f p (a ++ b)
    ∙ ap (line_end f p) (consume_line-append p.line a b)
    ∙ by_result (consume_line ample p.line a)
    ∙ sym (ap (resumed (line_round ample f) b) (line_round_end f p a))
  where
    by_result :
        (r : Line × LineResult × Bytes)
        → line_end f p (resumed_line b r) ≡ resumed (line_round ample f) b (line_end f p r)
    by_result (l, line_open, rest) = sym (line_round_end f (record p { line = l }) b)
    by_result (l, line_error, rest) = refl
    by_result (l, line_full, rest) =
        resumed-settle (line_round ample f) (record p { line = l }) rest b
          (f (record p { line = l }))
