-- ===== src/Web/Middleware/Tests.antt =====
-- Callbacks that count, and one that refuses.
use blue_bird.Prelude.{ℕ, suc, ◌≡◌, refl, true, [], ◌∷◌, Option, none, some, ◌==◌, if◌then◌else◌}
use blue_bird.Web.Middleware.{append, run, unless_failed, run-append}

abbrev call : ℕ → ℕ → Option ℕ × ℕ
call f calls = (if f == 9 then some 401 else none, suc calls)

run-append_example :
    run call (append true (1 ∷ 9 ∷ []) 2) 0
    ≡ unless_failed (run call (1 ∷ 9 ∷ []) 0) (λ t. call 2 t)
run-append_example = run-append call (1 ∷ 9 ∷ []) 2 0

-- The third is not called.
refused : run call (append true (1 ∷ 9 ∷ []) 2) 0 ≡ (some 401, 2)
unfolding append run
refused = refl
