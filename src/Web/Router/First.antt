-- ===== src/Web/Router/First.antt =====
-- Which route answers a request, and with which parameters (bb_route_list_match and the bb_route_list_add
-- functions of modules/web/src/router.c).
use blue_bird.Prelude.{
  ◌≡◌, ◌⊎◌, inl, inr, refl, sym, ap, Bool, true, List, [], ◌∷◌, ◌++◌, Option, none, some, arith,
  Bytes, same_bytes, same_bytes_iff, Bool-cases, Option-cases,
}
use blue_bird.Web.Router.{
  Handler, Route, Param, added, split_path, match_segments, is_param, add_params, add_route,
  match_from, match_route,
}

-- A path fits a pattern, segment by segment: a segment that begins with ':' stands for any other.
pub data Fits : List Bytes → List Bytes → Type 0 where
  end : Fits [] []
  any :
      {pattern segment : Bytes} {patterns segments : List Bytes}
      → is_param pattern ≡ true
      → Fits patterns segments
      → Fits (pattern ∷ patterns) (segment ∷ segments)
  same :
      {segment : Bytes} {patterns segments : List Bytes}
      → Fits patterns segments
      → Fits (segment ∷ patterns) (segment ∷ segments)

-- The route answers the method and the segments.
abbrev pub Answers : Bytes → List Bytes → Route → Type 0
Answers method segments route = (method ≡ route.method) × Fits route.path_segments segments

-- No route of the list does.
abbrev pub Unanswered : Bytes → List Bytes → List Route → Type 0
Unanswered method segments [] = Unit
Unanswered method segments (route ∷ routes) =
    (¬ Answers method segments route) × Unanswered method segments routes

Fits→match_segments : {ps ss : List Bytes} → Fits ps ss → match_segments ps ss ≡ true
unfolding match_segments
Fits→match_segments end = refl
Fits→match_segments (any e f) = rw (e, Fits→match_segments f)
Fits→match_segments (same {segment} f) =
    ground (arith, Fits→match_segments f, same_bytes_iff segment segment)

match_segments→Fits : (ps ss : List Bytes) → match_segments ps ss ≡ true → Fits ps ss
unfolding match_segments
match_segments→Fits [] [] h = end
match_segments→Fits (p ∷ ps) (s ∷ ss) h = elim (Bool-cases (is_param p)) [
  | inl t ↦ any t (match_segments→Fits ps ss (ground (arith, t, h)))
  | inr t ↦
      rw (sym ((same_bytes_iff p s).0 (ground (arith, t, h))))
        (same (match_segments→Fits ps ss (ground (arith, t, h))))
]
match_segments→Fits [] (s ∷ ss) h = absurd (cc)
match_segments→Fits (p ∷ ps) [] h = absurd (cc)

-- The first route of the list that does, and what stands before it and behind it.
pub record FirstAnswer (routes : List Route) (method : Bytes) (segments : List Bytes)
    (route : Route) : Type 0 where
  before : List Route
  after : List Route
  splits : routes ≡ before ++ route ∷ after
  passed_over : Unanswered method segments before
  answers : Answers method segments route

-- Either no route answers, and the search finds none and adds no parameter; or the search finds
-- the first route that answers, and adds its parameters.
abbrev pub Outcome :
    List Route → Bytes → List Bytes → List Param → Option Route × List Param → Type 0
Outcome routes method segments params result =
    (Unanswered method segments routes × (result ≡ (none, params)))
    ⊎ ((route : Route) × (FirstAnswer routes method segments route
          × (result ≡ (some route, add_params params route.path_segments segments))))

pass_over :
    (routes : List Route) (method : Bytes) (segments : List Bytes) (params : List Param)
    (route : Route) (result : Option Route × List Param)
    → ¬ Answers method segments route
    → Outcome routes method segments params result
    → Outcome (route ∷ routes) method segments params result
pass_over routes method segments params route result n (inl u) = inl ((n, u.0), u.1)
pass_over routes method segments params route result n (inr (found, (f, e))) = inr (
  found,
  (
    record {
      before = route ∷ f.before;
      after = f.after;
      splits = ap (◌∷◌ route) f.splits;
      passed_over = (n, f.passed_over);
      answers = f.answers;
    },
    e,
  ),
)

match_from-Outcome :
    (routes : List Route) (method : Bytes) (segments : List Bytes) (params : List Param)
    → Outcome routes method segments params (match_from routes method segments params)
unfolding match_from
match_from-Outcome [] method segments params = inl (tt, refl)
match_from-Outcome (route ∷ routes) method segments params =
    let rest = match_from-Outcome routes method segments params in
    let pass =
      pass_over routes method segments params route (match_from routes method segments params) in
    elim (Bool-cases (same_bytes method route.method)) [
      | inl m ↦ elim (Bool-cases (match_segments route.path_segments segments)) [
        | inl t ↦
            rw (m, t)
              (inr (
                route,
                (
                  record {
                    before = [];
                    after = routes;
                    splits = refl;
                    passed_over = tt;
                    answers = (
                      (same_bytes_iff method route.method).0 m,
                      match_segments→Fits route.path_segments segments t,
                    );
                  },
                  refl,
                ),
              ))
        | inr t ↦ rw (m, t) (pass (λ a. absurd (cc (t, Fits→match_segments a.1))) rest)
      ]
      | inr m ↦
          rw (m) (pass (λ a. absurd (cc (m, (same_bytes_iff method route.method).1 a.0))) rest)
    ]

-- Routes are tried in the order in which they were added, on all segments of the path: the first
-- that answers is found, with its parameters added; if none does, none is found, and the
-- parameters stay as they are. A path that is too deep or too long finds none either.
pub match_route-Outcome :
    (routes : List Route) (method path : Bytes) (params : List Param)
    → ((split_path path ≡ none) × (match_route routes method path params ≡ (none, params)))
      ⊎ ((segments : List Bytes) × ((split_path path ≡ some segments)
            × Outcome routes method segments params (match_route routes method path params)))
unfolding match_route
match_route-Outcome routes method path params = elim (Option-cases (split_path path)) [
  | inl e ↦ inl (e, rw (e, match_route) refl)
  | inr (segments, e) ↦
      inr (segments, (e, rw (e, match_route) (match_from-Outcome routes method segments params)))
]

match_from-append :
    (routes more : List Route) (method : Bytes) (segments : List Bytes) (params : List Param)
    (found : Route) (after : List Param)
    → match_from routes method segments params ≡ (some found, after)
    → match_from (routes ++ more) method segments params ≡ (some found, after)
unfolding match_from
match_from-append [] more method segments params found after e = absurd (cc (ap (λ r. r.0) e))
match_from-append (route ∷ routes) more method segments params found after e =
    let rest = match_from-append routes more method segments params found after in
    elim (Bool-cases (same_bytes method route.method)) [
      | inl m ↦ elim (Bool-cases (match_segments route.path_segments segments)) [
        | inl t ↦ rw (m, t) (rw (m, t) at e)
        | inr t ↦ rw (m, t) (rest (rw (m, t) at e))
      ]
      | inr m ↦ rw (m) (rest (rw (m) at e))
    ]

add_route_appends :
    (alloc dup : Bool) (routes more : List Route) (method path : Bytes) (handler : Handler)
    → add_route alloc dup routes method path handler ≡ added more
    → (route : Route) × (more ≡ routes ++ route ∷ [])
unfolding add_route
add_route_appends alloc dup routes more method path handler e =
    elim (Option-cases (split_path path)) [
      | inl n ↦ absurd (ground (arith, n, e))
      | inr (segments, n) ↦
          let route : Route = record {
            method = method;
            path_segments = segments;
            handler = handler;
          } in
          (route, ground (arith, n, e))
    ]

-- Adding a route changes nothing for a request that had one: it finds the same route, with the same
-- parameters.
pub add_route-match_route :
    (alloc dup : Bool) (routes more : List Route) (method path : Bytes) (handler : Handler)
    (request_method request_path : Bytes) (params after : List Param) (found : Route)
    → add_route alloc dup routes method path handler ≡ added more
    → match_route routes request_method request_path params ≡ (some found, after)
    → match_route more request_method request_path params ≡ (some found, after)
unfolding match_route
add_route-match_route alloc dup routes more method path handler request_method request_path params
      after found e f =
    let (route, last) = add_route_appends alloc dup routes more method path handler e in
    elim (Option-cases (split_path request_path)) [
      | inl n ↦ absurd (ground (arith, n, f))
      | inr (segments, n) ↦
          rw (n, last, match_route)
            (match_from-append routes (route ∷ []) request_method segments params found after
              (rw (n, match_route) at f))
    ]
