-- ===== src/Web/Middleware.antt =====
-- modules/web/src/middleware.c: callbacks that run one behind the other.
--
-- A callback is a pointer, here a number. What it does to the request, the response and everything
-- else is `call`, a parameter, with the error it returns; `none` is success.
mod Tests
use blue_bird.Prelude.{
  ℕ, ◌≡◌, refl, ◌∙◌, Bool, true, false, List, [], ◌∷◌, ◌++◌, Option, none, some, if◌then◌else◌,
  Option-cases, inl, inr, arith,
}

-- The flag is the success of `malloc`; without memory the list stays as it is.
unfoldable pub append : Bool → List ℕ → ℕ → List ℕ
append alloc list mw = if alloc then list ++ mw ∷ [] else list

module _ {State Error : Type 0} where
  -- The next step, unless there is an error to return.
  abbrev pub unless_failed :
      Option Error × State → (State → Option Error × State) → Option Error × State
  unless_failed (none, s) next = next s
  unless_failed (some e, s) next = (some e, s)

module _ {State Error : Type 0} (call : ℕ → State → Option Error × State) where
  unfoldable pub run : List ℕ → State → Option Error × State
  run [] s = (none, s)
  run (current ∷ list) s = unless_failed (call current s) (λ t. run list t)

  -- The callbacks behind a list are called on what the list leaves, unless one of the list fails.
  run_list :
      (before after : List ℕ) (s : State)
      → run (before ++ after) s ≡ unless_failed (run before s) (λ t. run after t)
  unfolding run
  run_list [] after s = refl
  run_list (current ∷ before) after s = called (call current s) (λ t. run_list before after t)
    where
      called :
          (r : Option Error × State)
          → ((t : State)
              → run (before ++ after) t ≡ unless_failed (run before t) (λ u. run after u))
          → unless_failed r (λ t. run (before ++ after) t)
            ≡ unless_failed (unless_failed r (λ t. run before t)) (λ t. run after t)
      called (none, t) h = h t
      called (some e, t) h = refl

  -- With memory, an appended callback is called last, on what the others leave, and only if none of
  -- them fails; the first error is the result.
  pub run-append :
      (list : List ℕ) (mw : ℕ) (s : State)
      → run (append true list mw) s ≡ unless_failed (run list s) (λ t. call mw t)
  unfolding append run
  run-append list mw s = run_list list (mw ∷ []) s ∙ alone (run list s)
    where
      last : (r : Option Error × State) → unless_failed r (λ t. (none, t)) ≡ r
      last (none, t) = refl
      last (some e, t) = refl

      alone :
          (r : Option Error × State)
          → unless_failed r (λ t. run (mw ∷ []) t) ≡ unless_failed r (λ t. call mw t)
      alone (none, t) = last (call mw t)
      alone (some e, t) = refl
