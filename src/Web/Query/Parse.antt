-- ===== src/Web/Query/Parse.antt =====
-- What the parsed query parameters are (parse_query_params of
-- modules/web/src/http/server_request.c).
use blue_bird.Prelude.{
  ℕ, suc, ◌+◌, ◌≤◌, ◌<◌, ◌≡◌, refl, ap, ◌∙◌, false, List, [], ◌∷◌, ◌++◌, some, arith, ◌==◌,
  if◌then◌else◌, inl, inr, Bool-cases, Option-cases, length, length-append, append_assoc, count,
  Bytes,
}
use blue_bird.Web.Query.{
  max_query_params, max_query_param_key, max_query_param_value, ampersand, equals, QueryParam,
  decode_query_component, add_query_param, has_byte, key_of, value_of, parse_pair, parse_from,
  parse_query_params,
}

-- A parameter that a pair of the query stands for: its two sides, each decoded after the pair was
-- taken apart, within its bounds.
pub record Stands (pair : Bytes) (p : QueryParam) : Type 0 where
  key_decoded : decode_query_component max_query_param_key (key_of pair) ≡ some p.key
  value_decoded : decode_query_component max_query_param_value (value_of pair) ≡ some p.value
  key_short : length p.key < max_query_param_key
  value_short : length p.value < max_query_param_value
  key_plain : has_byte equals p.key ≡ false × (has_byte ampersand p.key ≡ false)

-- The parameters of a list of pairs, one each.
pub data StandAll : List Bytes → List QueryParam → Type 0 where
  none_left : StandAll [] []
  one_more :
      {pair : Bytes} {p : QueryParam} {pairs : List Bytes} {ps : List QueryParam}
      → Stands pair p
      → StandAll pairs ps
      → StandAll (pair ∷ pairs) (p ∷ ps)

-- The pairs between the separators of a query.
abbrev pub pairs_from : Bytes → Bytes → List Bytes
pairs_from pair [] = pair ∷ []
pairs_from pair (c ∷ rest) =
    if c == ampersand then pair ∷ pairs_from [] rest else pairs_from (pair ++ c ∷ []) rest

parse_pair-Stands :
    (query after : List QueryParam) (pair : Bytes)
    → parse_pair query pair ≡ some after
    → (p : QueryParam) × ((after ≡ query ++ p ∷ [])
        × (Stands pair p × (length query < max_query_params)))
unfolding parse_pair add_query_param
parse_pair-Stands query after pair h =
    elim (Option-cases (decode_query_component max_query_param_key (key_of pair))) [
      | inl n ↦ absurd (ground (arith, n, h))
      | inr (k, n) ↦
          elim (Option-cases (decode_query_component max_query_param_value (value_of pair))) [
            | inl m ↦ absurd (ground (arith, n, m, h))
            | inr (v, m) ↦ (
              record { key = k; value = v },
              (
                ground (arith, n, m, h),
                (
                  record {
                    key_decoded = n;
                    value_decoded = m;
                    key_short = ground (arith, n, m, h);
                    value_short = ground (arith, n, m, h);
                    key_plain = ground (arith, n, m, h);
                  },
                  ground (arith, n, m, h),
                ),
              ),
            )
          ]
    ]

-- What a part of the query adds.
pub record Adds (query after : List QueryParam) (pairs : List Bytes) : Type 0 where
  added : List QueryParam
  behind : after ≡ query ++ added
  stand : StandAll pairs added
  bounded : length after ≤ max_query_params

parse_from-Adds :
    (query after : List QueryParam) (pair rest : Bytes)
    → parse_from query pair rest ≡ some after
    → Adds query after (pairs_from pair rest)
unfolding parse_from
parse_from-Adds query after pair [] h =
    let (p, (e, (s, room))) = parse_pair-Stands query after pair h in
    record {
      added = p ∷ [];
      behind = e;
      stand = one_more s none_left;
      bounded = rw (e) (omega (arith, room, length-append query (p ∷ [])));
    }
parse_from-Adds query after pair (c ∷ rest) h = elim (Bool-cases (c == ampersand)) [
  | inl t ↦ elim (Option-cases (parse_pair query pair)) [
    | inl n ↦ absurd (ground (arith, t, n, h))
    | inr (middle, n) ↦
        let (p, (e, (s, room))) = parse_pair-Stands query middle pair n in
        let a = parse_from-Adds middle after [] rest (rw (t, n) at h) in
        rw (t) (record {
          added = p ∷ a.added;
          behind = a.behind ∙ rw (e) (append_assoc query (p ∷ []) a.added);
          stand = one_more s a.stand;
          bounded = a.bounded;
        })
  ]
  | inr t ↦ rw (t) (parse_from-Adds query after (pair ++ c ∷ []) rest (rw (t) at h))
]

length-pairs_from :
    (pair src : Bytes) → length (pairs_from pair src) ≡ suc (count (λ c. c == ampersand) src)
length-pairs_from pair [] = refl
length-pairs_from pair (c ∷ src) =
    ground (arith, length-pairs_from [] src, length-pairs_from (pair ++ c ∷ []) src)

length-StandAll :
    {pairs : List Bytes} {ps : List QueryParam} → StandAll pairs ps → length ps ≡ length pairs
length-StandAll none_left = refl
length-StandAll (one_more s rest) = ap suc (length-StandAll rest)

-- If a query that is not empty is accepted, each pair between its separators '&' adds one parameter,
-- in order: the two sides of the pair, decoded. So an encoded separator makes no parameter. There
-- are at most 10 in all, and each fits its buffers.
pub parse_query_params-Adds :
    (query after : List QueryParam) (c : ℕ) (src : Bytes)
    → parse_query_params query (c ∷ src) ≡ some after
    → Adds query after (pairs_from [] (c ∷ src))
      × (length after ≡ length query + suc (count (λ x. x == ampersand) (c ∷ src)))
unfolding parse_query_params
parse_query_params-Adds query after c src h =
    let parsed : parse_from query [] (c ∷ src) ≡ some after = ground (arith, h) in
    let a = parse_from-Adds query after [] (c ∷ src) parsed in
    (
      a,
      omega (
        arith,
        ap length a.behind,
        length-append query a.added,
        length-StandAll a.stand,
        length-pairs_from [] (c ∷ src),
      ),
    )
