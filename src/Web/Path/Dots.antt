-- ===== src/Web/Path/Dots.antt =====
-- Dot segments (has_dot_segment of modules/web/src/http/server_request.c).
use blue_bird.Prelude.{
  ◌≡◌, ◌↔◌, ◌⊎◌, refl, sym, ◌∙◌, Bool, true, false, codes, ◌||◌, List, [], ◌∷◌, ◌++◌, arith, ◌==◌,
  inl, inr, Bool-cases, append_nil, Bytes,
}
use blue_bird.Web.Router.{slash}
use blue_bird.Web.Router.Split.{pieces, onto_first, onto_first_twice, onto_first_nil}
use blue_bird.Web.Path.{is_dots, dots_from, has_dot_segment}

abbrev any_dots : List Bytes → Bool
any_dots [] = false
any_dots (p ∷ ps) = is_dots p || any_dots ps

dots_from-pieces :
    (segment path : Bytes) → dots_from segment path ≡ any_dots (onto_first segment (pieces path))
unfolding dots_from
dots_from-pieces segment [] = rw (append_nil segment) (ground arith)
dots_from-pieces segment (c ∷ path) = elim (Bool-cases (c == 47)) [
  | inl t ↦ rw (t, append_nil segment, dots_from-pieces [] path, onto_first_nil path) refl
  | inr t ↦
      rw (t, sym (onto_first_twice segment (c ∷ []) (pieces path)))
        (dots_from-pieces (segment ++ c ∷ []) path)
]

-- A piece is among these.
abbrev pub Among : Bytes → List Bytes → Type 0
Among piece [] = ⊥
Among piece (p ∷ ps) = (p ≡ piece) ⊎ Among piece ps

is_dots_iff : (p : Bytes) → (is_dots p ≡ true) ↔ ((p ≡ codes ".") ⊎ (p ≡ codes ".."))
unfolding is_dots
is_dots_iff [] = ground arith
is_dots_iff (a ∷ []) = ground arith
is_dots_iff (a ∷ b ∷ []) = ground arith
is_dots_iff (a ∷ b ∷ c ∷ p) = ground arith

any_dots_iff :
    (ps : List Bytes) → (any_dots ps ≡ true) ↔ (Among (codes ".") ps ⊎ Among (codes "..") ps)
any_dots_iff [] = ground arith
any_dots_iff (p ∷ ps) =
    let (this, this_back) = is_dots_iff p in
    let (later, later_back) = any_dots_iff ps in
    (
      λ e. elim (Bool-cases (is_dots p)) [
        | inl t ↦ elim (this t) [ inl one ↦ inl (inl one) | inr two ↦ inr (inl two) ]
        | inr f ↦ elim (later (ground (arith, e, f))) [
          | inl one ↦ inl (inr one)
          | inr two ↦ inr (inr two)
        ]
      ],
      λ among. elim among [
        | inl one ↦ elim one [
          | inl here ↦ ground (arith, this_back (inl here))
          | inr there ↦ ground (arith, later_back (inl there))
        ]
        | inr two ↦ elim two [
          | inl here ↦ ground (arith, this_back (inr here))
          | inr there ↦ ground (arith, later_back (inr there))
        ]
      ],
    )

-- A path that begins with a slash has a dot segment exactly if "." or ".." is one of the pieces
-- between its slashes, the first and the last included.
pub has_dot_segment_iff :
    (path : Bytes)
    → (has_dot_segment (slash ∷ path) ≡ true)
      ↔ (Among (codes ".") (pieces (slash ∷ path)) ⊎ Among (codes "..") (pieces (slash ∷ path)))
unfolding has_dot_segment is_dots
has_dot_segment_iff path =
    let all : has_dot_segment (slash ∷ path) ≡ any_dots (pieces (slash ∷ path)) =
      dots_from-pieces [] path ∙ rw (onto_first_nil path) refl in
    let (there, back) = any_dots_iff (pieces (slash ∷ path)) in
    (λ e. there (sym all ∙ e), λ among. all ∙ back among)
