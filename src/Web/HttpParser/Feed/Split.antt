-- ===== src/Web/HttpParser/Feed/Split.antt =====
-- Bytes that arrive in two pieces are parsed like those that arrive at once
-- (bb_http_parser_feed of modules/web/src/http/parser.c).
use blue_bird.Prelude.{
  ℕ, zero, suc, ◌+◌, ◌*◌, ◌-◌, ◌≤◌, ◌≡◌, refl, sym, ap, ◌∙◌, ◌++◌, Option, some, arith, ◌>>=◌,
  length, length-append, Bytes,
}
use blue_bird.Web.HttpParser.{
  Parser, ParseState, at_request_line, at_headers, at_body_fixed, at_chunk_size, at_chunk_data,
  at_chunk_data_crlf, at_trailers, at_complete, at_error,
}
use blue_bird.Web.HttpParser.Feed.{
  ParseStatus, incomplete, complete, parse_error, Round, again, ends, feed_round, feed_from, feed,
  with_consumed,
}
use blue_bird.Web.HttpParser.Feed.Capacity.{ample, forget}
use blue_bird.Web.HttpParser.Feed.Ends.{weight_bound, feed_from_ends}
use blue_bird.Web.HttpParser.Feed.Lines.{forget_round, resumed}
use blue_bird.Web.HttpParser.Feed.Resume.{
  round_in, feed_round_in, feed_round-IsBlind, feed_round-append,
}

abbrev Fed : Type 0
Fed = ParseStatus × Parser × Bytes

abbrev forget_fed : Fed → Fed
forget_fed (status, p, rest) = (status, forget p, rest)

-- What comes of a round.
abbrev go_on : ℕ → Round → Option Fed
go_on n (again q rest) = feed_from ample n q rest
go_on n (ends status q rest) = some (status, q, rest)

feed_from_round :
    (n : ℕ) (p : Parser) (b : Bytes) → feed_from ample (suc n) p b ≡ go_on n (feed_round ample p b)
unfolding feed_from
feed_from_round n p b = by_round (feed_round ample p b)
  where
    by_round :
        (r : Round)
        → (elim r [
          | again next rest ↦ feed_from ample n next rest
          | ends status next rest ↦ some (status, next, rest)
        ])
          ≡ go_on n r
    by_round (again q rest) = refl
    by_round (ends status q rest) = refl

abbrev parser_of : Round → Parser
parser_of (again q rest) = q
parser_of (ends status q rest) = q

abbrev rest_of : Round → Bytes
rest_of (again q rest) = rest
rest_of (ends status q rest) = rest

abbrev fed_of : Round → Fed
fed_of (again q rest) = (incomplete, q, rest)
fed_of (ends status q rest) = (status, q, rest)

no_fuel : (p : Parser) (b : Bytes) (x : Fed) → feed_from ample 0 p b ≡ some x → ⊥
unfolding feed_from
no_fuel p b x e = absurd (cc)

-- Rounds that differ in what is forgotten come to the same, with more fuel too.
go_on_same :
    (n k : ℕ) (r r' : Round) (x : Fed)
    → n ≤ k
    → forget_round r ≡ forget_round r'
    → go_on n r ≡ some x
    → (y : Fed) × (go_on k r' ≡ some y) × (forget_fed y ≡ forget_fed x)
go_on_same n k (ends status q rest) (ends status' q' rest') x h same e =
    let equal : (status, q, rest) ≡ x = ground (arith, e) in
    ((status', q', rest'), refl, sym (ap fed_of same) ∙ ap forget_fed equal)
go_on_same n k (ends status q rest) (again q' rest') x h same e = absurd (cc)
go_on_same n k (again q rest) (ends status' q' rest') x h same e = absurd (cc)
go_on_same zero k (again q rest) (again q' rest') x h same e = absurd (no_fuel q rest x e)
go_on_same (suc n) zero (again q rest) (again q' rest') x h same e = absurd (omega (arith, h))
go_on_same (suc n) (suc k) (again q rest) (again q' rest') x h same e =
    let (y, ran, like) =
      go_on_same n k (feed_round ample q rest) (feed_round ample q' rest') x (omega (arith, h))
        (feed_round-IsBlind q q' rest (ap parser_of same)
          ∙ ap (λ b. forget_round (feed_round ample q' b)) (ap rest_of same))
        (sym (feed_from_round n q rest) ∙ e) in
    (y, feed_from_round k q' rest' ∙ ran, like)

some_same : {A : Type 0} (x y : A) → some x ≡ some y → x ≡ y
some_same x y e = ground (arith, e)

-- A run that waits for more, and one that goes on from there, make one run.
join_runs :
    (n m k : ℕ) (r : Round) (b : Bytes) (q u : Parser) (rest : Bytes) (x : Fed)
    → go_on n r ≡ some (incomplete, q, rest)
    → forget u ≡ forget q
    → feed_from ample m u b ≡ some x
    → n + m ≤ k
    → (y : Fed) × (go_on k (resumed (feed_round ample) b r) ≡ some y)
      × (forget_fed y ≡ forget_fed x)
join_runs n zero k r b q u rest x first like second h = absurd (no_fuel u b x second)
join_runs n (suc m) k (ends incomplete q' rest') b q u rest x first like second h =
    let equal = some_same (incomplete, q', rest') (incomplete, q, rest) first in
    let same : q ≡ q' = sym (ap (λ fed. fed.1) equal) in
    go_on_same m k (feed_round ample u b) (feed_round ample q' b) x (omega (arith, h))
      (feed_round-IsBlind u q' b (like ∙ ap forget same)) (sym (feed_from_round m u b) ∙ second)
join_runs n (suc m) k (ends complete q' rest') b q u rest x first like second h = absurd (cc)
join_runs n (suc m) k (ends parse_error q' rest') b q u rest x first like second h = absurd (cc)
join_runs zero (suc m) k (again p rest') b q u rest x first like second h =
    absurd (no_fuel p rest' (incomplete, q, rest) first)
join_runs (suc n) (suc m) zero (again p rest') b q u rest x first like second h =
    absurd (omega (arith, h))
join_runs (suc n) (suc m) (suc k) (again p rest') b q u rest x first like second h =
    let (y, ran, alike) =
      join_runs n (suc m) k (feed_round ample p rest') b q u rest x
        (sym (feed_from_round n p rest') ∙ first) like second (omega (arith, h)) in
    let (z, runs, alike') =
      go_on_same k k (resumed (feed_round ample) b (feed_round ample p rest'))
        (feed_round ample p (rest' ++ b)) y (omega arith) (sym (feed_round-append p rest' b)) ran in
    (z, feed_from_round k p (rest' ++ b) ∙ runs, alike' ∙ alike)

-- Feeding is running with fuel for the bytes.
abbrev fuel_of : Bytes → ℕ
fuel_of b = 2 * length b + 1

at_rest :
    (p : Parser) (b : Bytes) (status : ParseStatus) (x : Fed)
    → feed_round ample p b ≡ ends status p b
    → go_on (fuel_of b) (feed_round ample p b) ≡ some x
    → some (status, record p { last_consumed = 0 }) ≡ some (with_consumed b x)
at_rest p b status x e run =
    let none_left : 0 ≡ length b - length b = omega arith in
    let equal : (status, p, b) ≡ x =
      some_same (status, p, b) x (sym (ap (go_on (fuel_of b)) e) ∙ run) in
    ap (λ n. some (status, record p { last_consumed = n })) none_left
    ∙ ap (λ fed. some (with_consumed b fed)) equal

feed_run :
    (p : Parser) (b : Bytes)
    → (x : Fed) × (go_on (fuel_of b) (feed_round ample p b) ≡ some x)
      × (feed ample p b ≡ some (with_consumed b x))
unfolding feed
feed_run p b =
    let (status, q, rest, ran, few) =
      feed_from_ends ample (2 * length b + 2) p b (omega (arith, weight_bound p.state)) in
    let fuel : suc (fuel_of b) ≡ 2 * length b + 2 = omega arith in
    let run : go_on (fuel_of b) (feed_round ample p b) ≡ some (status, q, rest) =
      sym (feed_from_round (fuel_of b) p b) ∙ ap (λ n. feed_from ample n p b) fuel ∙ ran in
    ((status, q, rest), run, in_state (status, q, rest) ran run p.state refl)
  where
    fed :
        (x : Fed)
        → feed_from ample (2 * length b + 2) p b ≡ some x
        → (feed_from ample (2 * length b + 2) p b >>= λ fed. some (with_consumed b fed))
          ≡ some (with_consumed b x)
    fed x ran = rw ran refl

    in_state :
        (x : Fed)
        → feed_from ample (2 * length b + 2) p b ≡ some x
        → go_on (fuel_of b) (feed_round ample p b) ≡ some x
        → (s : ParseState) → p.state ≡ s
        → (elim s [
          | at_error ↦ some (parse_error, record p { last_consumed = 0 })
          | at_complete ↦ some (complete, record p { last_consumed = 0 })
          | _ ↦ feed_from ample (2 * length b + 2) p b >>= λ fed. some (with_consumed b fed)
        ])
          ≡ some (with_consumed b x)
    in_state x ran run at_request_line e = fed x ran
    in_state x ran run at_headers e = fed x ran
    in_state x ran run at_body_fixed e = fed x ran
    in_state x ran run at_chunk_size e = fed x ran
    in_state x ran run at_chunk_data e = fed x ran
    in_state x ran run at_chunk_data_crlf e = fed x ran
    in_state x ran run at_trailers e = fed x ran
    in_state x ran run at_complete e =
        at_rest p b complete x (feed_round_in p b ∙ ap (λ s. round_in s p b) e) run
    in_state x ran run at_error e =
        at_rest p b parse_error x (feed_round_in p b ∙ ap (λ s. round_in s p b) e) run

-- If memory is not short, and a parser that is fed `a` waits for more and is then fed `b`, then feeding
-- it `a` and `b` at once gives the same status, and the same parser but for the capacity of the body's
-- buffer and the count of consumed bytes.
pub feed-append :
    (p q u : Parser) (a b : Bytes) (status : ParseStatus)
    → feed ample p a ≡ some (incomplete, q)
    → feed ample q b ≡ some (status, u)
    → (v : Parser) × (feed ample p (a ++ b) ≡ some (status, v)) × (forget v ≡ forget u)
feed-append p q u a b status first second =
    let (x, run, fed) = feed_run p a in
    let (y, run', fed') = feed_run q b in
    let (z, run'', fed'') = feed_run p (a ++ b) in
    let waits : with_consumed a x ≡ (incomplete, q) =
      some_same (with_consumed a x) (incomplete, q) (sym fed ∙ first) in
    let ended : with_consumed b y ≡ (status, u) =
      some_same (with_consumed b y) (status, u) (sym fed' ∙ second) in
    let enough = fuel_of a + (2 * length b + 2) in
    let (w, joined, like) =
      join_runs (fuel_of a) (suc (fuel_of b)) enough (feed_round ample p a) b x.1 q x.2 y
        (run ∙ ap (λ s. some (s, x.1, x.2)) (ap (λ r. r.0) waits))
        (sym (ap (λ r. forget r.1) waits)) (feed_from_round (fuel_of b) q b ∙ run') (omega arith) in
    let (t, whole, like') =
      go_on_same (fuel_of (a ++ b)) enough (feed_round ample p (a ++ b))
        (resumed (feed_round ample) b (feed_round ample p a)) z (omega (arith, length-append a b))
        (feed_round-append p a b) run'' in
    let same : forget_fed z ≡ forget_fed y =
      sym like' ∙ ap forget_fed (some_same t w (sym whole ∙ joined)) ∙ like in
    let alike : z.0 ≡ status = ap (λ r. r.0) same ∙ ap (λ r. r.0) ended in
    (
      (with_consumed (a ++ b) z).1,
      fed'' ∙ ap (λ s. some (s, (with_consumed (a ++ b) z).1)) alike,
      ap (λ r. r.1) same ∙ ap (λ r. forget r.1) ended,
    )
