-- ===== src/Web/Router/Split.antt =====
-- Splitting a path (split_path of modules/web/src/router.c), against the segments it ought to have.
use blue_bird.Prelude.{
  ℕ, suc, ◌+◌, ◌≤◌, ◌≡◌, refl, ◌∙◌, sym, ap, Bool, true, ◌&&◌, List, [], ◌∷◌, ◌++◌, Option, none,
  some, ◌>>=◌, arith, ◌==◌, ltb, leb, if◌then◌else◌, length, length-append, append_nil,
  append_assoc, Bytes, Bool-cases, inl, inr, ltb→lt,
}
use blue_bird.Web.Router.{max_segments, max_path_len, slash, end_segment, split_from, split_path}

-- The pieces between the slashes of a path, the empty ones too.
abbrev pub onto_first : Bytes → List Bytes → List Bytes
onto_first start [] = start ∷ []
onto_first start (piece ∷ pieces) = (start ++ piece) ∷ pieces

abbrev pub pieces : Bytes → List Bytes
pieces [] = [] ∷ []
pieces (c ∷ path) = if c == slash then [] ∷ pieces path else onto_first (c ∷ []) (pieces path)

abbrev pub not_empty : List Bytes → List Bytes
not_empty [] = []
not_empty ([] ∷ ps) = not_empty ps
not_empty ((c ∷ p) ∷ ps) = (c ∷ p) ∷ not_empty ps

abbrev pub all_short : List Bytes → Bool
all_short [] = true
all_short (p ∷ ps) = ltb (length p) max_path_len && all_short ps

abbrev pub segments_of : Bytes → List Bytes
segments_of path = not_empty (pieces path)

-- The bounds as the loop tests them, behind `n` segments.
abbrev fit : ℕ → List Bytes → Bool
fit n [] = true
fit n (p ∷ ps) = ltb n max_segments && (ltb (length p) max_path_len && fit (suc n) ps)

fit_iff : (n : ℕ) (ps : List Bytes) → n ≤ 20 → fit n ps ≡ (leb (n + length ps) 20 && all_short ps)
fit_iff n [] h = ground arith
fit_iff n (p ∷ ps) h = elim (Bool-cases (ltb n 20)) [
  | inl t ↦ ground (arith, t, fit_iff (suc n) ps (ltb→lt n 20 t))
  | inr t ↦ ground (arith, t)
]

pieces_cons : (path : Bytes) → (p : Bytes) × ((ps : List Bytes) × (pieces path ≡ p ∷ ps))
pieces_cons [] = ([], ([], refl))
pieces_cons (c ∷ path) =
    let (p, rest) = pieces_cons path in
    elim (Bool-cases (c == slash)) [
      | inl t ↦ rw (t) ([], (pieces path, refl))
      | inr t ↦ rw (t, rest.1) (c ∷ p, (rest.0, refl))
    ]

pub onto_first_twice :
    (a b : Bytes) (ps : List Bytes) → onto_first (a ++ b) ps ≡ onto_first a (onto_first b ps)
onto_first_twice a b [] = refl
onto_first_twice a b (p ∷ ps) = rw (append_assoc a b p)

pub onto_first_nil : (path : Bytes) → onto_first [] (pieces path) ≡ pieces path
onto_first_nil path = rw ((pieces_cons path).1.1)

-- A segment that ends: it is dropped if empty, and otherwise tested and kept.
end_segment-fit :
    (segment : Bytes) (segments ps : List Bytes)
    → (if fit (length segments) (not_empty (segment ∷ ps))
        then some (segments ++ not_empty (segment ∷ ps))
        else none)
      ≡ (end_segment segment segments >>= λ ended.
          if fit (length ended) (not_empty ps) then some (ended ++ not_empty ps) else none)
unfolding end_segment
end_segment-fit [] segments ps = refl
end_segment-fit (c ∷ segment) segments ps = ground (
  arith,
  length-append segments ((c ∷ segment) ∷ []),
  append_assoc segments ((c ∷ segment) ∷ []) (not_empty ps),
)

append_nothing : (o : Option (List Bytes)) → (o >>= λ e. some (e ++ [])) ≡ o
append_nothing none = refl
append_nothing (some xs) = ap some (append_nil xs)

same_next :
    {f g : List Bytes → Option (List Bytes)} (o : Option (List Bytes))
    → ((xs : List Bytes) → f xs ≡ g xs)
    → (o >>= f) ≡ (o >>= g)
same_next none h = refl
same_next (some xs) h = h xs

split_from-fit :
    (segment : Bytes) (segments : List Bytes) (path : Bytes)
    → split_from segment segments path ≡ (
        if fit (length segments) (not_empty (onto_first segment (pieces path)))
        then some (segments ++ not_empty (onto_first segment (pieces path)))
        else none)
unfolding split_from
split_from-fit segment segments [] =
    rw (append_nil segment)
      (sym (end_segment-fit segment segments [] ∙ append_nothing (end_segment segment segments)))
split_from-fit segment segments (c ∷ path) = elim (Bool-cases (c == slash)) [
  | inl t ↦
      rw (t, append_nil segment, end_segment-fit segment segments (pieces path))
        (same_next (end_segment segment segments)
          (λ ended. split_from-fit [] ended path ∙ rw (onto_first_nil path)))
  | inr t ↦
      rw (t, sym (onto_first_twice segment (c ∷ []) (pieces path)))
        (split_from-fit (segment ++ c ∷ []) segments path)
]

-- A path is split into all its segments that are not empty, in order, if there are at most 20 and
-- each is shorter than 256 bytes; otherwise there is no result.
pub split_path_correct :
    (path : Bytes)
    → split_path path ≡ (
        if leb (length (segments_of path)) max_segments && all_short (segments_of path)
        then some (segments_of path)
        else none)
unfolding split_path
split_path_correct path =
    rw (split_from-fit [] [] path, onto_first_nil path)
      (ground (arith, fit_iff 0 (segments_of path) (omega arith)))
