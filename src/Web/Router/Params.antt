-- ===== src/Web/Router/Params.antt =====
-- The parameters of a request that a route with variable segments answers (the loop of
-- bb_route_list_match in modules/web/src/router.c, and bb_server_request_add_param and
-- bb_server_request_get_param of modules/web/src/http/server_request.c).
use blue_bird.Prelude.{
  ℕ, zero, suc, ◌+◌, ◌≤◌, ◌<◌, ◌≡◌, refl, sym, ap, ◌∙◌, List, [], ◌∷◌, ◌++◌, arith, if◌then◌else◌,
  length, length-append, append_nil, append_assoc, take, Bytes, Bool-cases, inl, inr,
}
use blue_bird.Web.Router.{
  max_params, max_param_name, max_param_value, Param, is_param, behind_colon, add_param, add_params,
}

-- What the variable segments of a pattern stand for.
abbrev pub bindings : List Bytes → List Bytes → List Param
bindings [] segments = []
bindings (p ∷ ps) [] = []
bindings (p ∷ ps) (s ∷ ss) =
    if is_param p
    then record { name = behind_colon p; value = s } ∷ bindings ps ss
    else bindings ps ss

-- Names and values fit their buffers, with the final NUL.
abbrev pub Short : List Param → Type 0
Short [] = Unit
Short (p ∷ ps) = (length p.name < max_param_name) × ((length p.value < max_param_value) × Short ps)

take_all : (n : ℕ) (xs : Bytes) → length xs ≤ n → take n xs ≡ xs
take_all zero [] h = refl
take_all (suc n) [] h = refl
take_all (suc n) (x ∷ xs) h = ap (◌∷◌ x) (take_all n xs (omega arith))
take_all zero (x ∷ xs) h = absurd (omega arith)

add_param_room :
    (params : List Param) (key value : Bytes)
    → length params < max_params
    → length key < max_param_name
    → length value < max_param_value
    → add_param params key value ≡ params ++ record { name = key; value = value } ∷ []
unfolding add_param
add_param_room params key value r k v =
    ground (arith, take_all 63 key (omega arith), take_all 255 value (omega arith))

-- The parameters are those of the pattern, in order and behind the earlier ones, if there is room
-- for them and each is short enough.
pub add_params-bindings :
    (params : List Param) (patterns segments : List Bytes)
    → length params + length (bindings patterns segments) ≤ max_params
    → Short (bindings patterns segments)
    → add_params params patterns segments ≡ params ++ bindings patterns segments
unfolding add_params
add_params-bindings params [] segments h s = sym (append_nil params)
add_params-bindings params (p ∷ ps) [] h s = sym (append_nil params)
add_params-bindings params (p ∷ ps) (v ∷ vs) h s = elim (Bool-cases (is_param p)) [
  | inl t ↦
      let room = rw (t) at h in
      let fits = rw (t) at s in
      let longer = params ++ record { name = behind_colon p; value = v } ∷ [] in
      rw (t, add_param_room params (behind_colon p) v (omega (arith, room)) fits.0 fits.1.0)
        (add_params-bindings longer ps vs
            (omega (
              arith,
              room,
              length-append params (record { name = behind_colon p; value = v } ∷ []),
            ))
            fits.1.1
          ∙ append_assoc params (record { name = behind_colon p; value = v } ∷ []) (bindings ps vs))
  | inr t ↦ rw (t) (add_params-bindings params ps vs (rw (t) at h) (rw (t) at s))
]
