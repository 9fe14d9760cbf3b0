-- ===== src/Migrate/Plan/Build.antt =====
-- `bb_migrate_plan_build` and `bb_migrate_plan_first_problem` of tools/migrate/src/plan.c.
use blue_bird.Prelude.{
  ℕ, ◌+◌, ◌≤◌, ◌≡◌, refl, sym, ◌∙◌, ap, ◌↔◌, inl, inr, Bool, true, false, ◌&&◌, List, [], ◌∷◌,
  Option, none, arith, Bool-cases, IsAscending, find, length, count,
}
use blue_bird.Migrate.Plan.{
  Migration, Applied, Entry, Plan, source_unsorted, applied_unsorted, ok, err, empty_plan,
  migrations_sorted, applied_sorted, latest_applied, allows_late, join, build, is_nil,
  first_problem, first_problem_of,
}
use blue_bird.Migrate.Plan.Entries.{merged, join-Extends, pends, blocks}
use blue_bird.Migrate.Plan.States.{
  on_disk, in_ledger, planned, classify, merged-IsAscending, find-merged,
}

pub migrations_sorted_iff :
    (ss : List Migration) → (migrations_sorted ss ≡ true) ↔ IsAscending on_disk ss
unfolding migrations_sorted
migrations_sorted_iff [] = (λ _. tt, λ _. refl)
migrations_sorted_iff (s ∷ []) = (λ _. tt, λ _. refl)
migrations_sorted_iff (s ∷ t ∷ ss) = ground (arith, migrations_sorted_iff (t ∷ ss))

pub applied_sorted_iff :
    (as' : List Applied) → (applied_sorted as' ≡ true) ↔ IsAscending in_ledger as'
unfolding applied_sorted
applied_sorted_iff [] = (λ _. tt, λ _. refl)
applied_sorted_iff (a ∷ []) = (λ _. tt, λ _. refl)
applied_sorted_iff (a ∷ b ∷ rest) = ground (arith, applied_sorted_iff (b ∷ rest))

false_of : {P : Type 0} (b : Bool) → (b ≡ true) ↔ P → ¬ P → b ≡ false
false_of true h n = absurd (n (h.0 refl))
false_of false h n = refl

abbrev joined : Option Bool → List Migration → List Applied → Plan
joined opts source ledger = join (allows_late opts) (latest_applied ledger) empty_plan source ledger

joined_nil :
    (opts : Option Bool) (source : List Migration) (ledger : List Applied)
    → (is_nil source && is_nil ledger) ≡ true
    → empty_plan ≡ joined opts source ledger
unfolding join
joined_nil opts [] [] h = refl
joined_nil opts [] (a ∷ rest) h = absurd (ground arith)
joined_nil opts (s ∷ ss) ledger h = absurd (ground arith)

-- A plan comes of sorted inputs only, and is the result of the merge-join.
build-ok :
    (alloc : Bool) (source : List Migration) (ledger : List Applied) (opts : Option Bool) (p : Plan)
    → build alloc source ledger opts ≡ ok p
    → IsAscending on_disk source × IsAscending in_ledger ledger × (p ≡ joined opts source ledger)
unfolding build
build-ok alloc source ledger opts p e = (
  (migrations_sorted_iff source).0 (ground arith),
  (applied_sorted_iff ledger).0 (ground arith),
  ground (arith, joined_nil opts source ledger),
)

length-merged :
    (allow : Bool) (latest : Option ℕ) (ss : List Migration) (ledger : List Applied)
    → length (merged allow latest ss ledger) ≤ length ss + length ledger
unfolding merged
length-merged allow latest [] [] = omega arith
length-merged allow latest (s ∷ ss) [] = omega (arith, length-merged allow latest ss [])
length-merged allow latest [] (a ∷ rest) = omega (arith, length-merged allow latest [] rest)
length-merged allow latest (s ∷ ss) (a ∷ rest) = ground (
  arith,
  length-merged allow latest ss (a ∷ rest),
  length-merged allow latest (s ∷ ss) rest,
  length-merged allow latest ss rest,
)

-- What a plan promises about its inputs.
pub record IsPlanOf (source : List Migration) (ledger : List Applied) (opts : Option Bool)
    (p : Plan) : Type 0 where
  pub ascending : IsAscending planned p.entries
  pub states :
      (v : ℕ)
      → find planned v p.entries
        ≡ classify
            (allows_late opts)
            (latest_applied ledger)
            (find on_disk v source)
            (find in_ledger v ledger)
  pub pending_counted : p.pending_count ≡ count pends p.entries
  pub problems_counted : p.problem_count ≡ count blocks p.entries
  pub within : length p.entries ≤ length source + length ledger

-- A plan that is built lists each version on disk or in the ledger once, in ascending order, with
-- the state that its description gives it; its counters count its entries, which fit the
-- allocation.
pub build-IsPlanOf :
    (alloc : Bool) (source : List Migration) (ledger : List Applied) (opts : Option Bool) (p : Plan)
    → build alloc source ledger opts ≡ ok p
    → IsPlanOf source ledger opts p
build-IsPlanOf alloc source ledger opts p e =
    let (hs, ha, same) = build-ok alloc source ledger opts p e in
    let allow = allows_late opts in
    let latest = latest_applied ledger in
    let x = join-Extends allow latest empty_plan source ledger in
    let entries = ap (λ (q : Plan). q.entries) same ∙ x.entries in
    record {
      ascending = rw entries (merged-IsAscending allow latest source ledger hs ha);
      states = λ v. rw entries (find-merged allow latest v source ledger hs ha);
      pending_counted = ground (arith, same, entries, x.pending_counted);
      problems_counted = ground (arith, same, entries, x.problems_counted);
      within = rw entries (length-merged allow latest source ledger);
    }

-- When a plan is built, and which error stands for what.
pub build_outcome :
    (alloc : Bool) (source : List Migration) (ledger : List Applied) (opts : Option Bool)
    → ((build alloc source ledger opts ≡ err source_unsorted) ↔ (¬ IsAscending on_disk source))
      × ((build alloc source ledger opts ≡ err applied_unsorted)
          ↔ (IsAscending on_disk source × (¬ IsAscending in_ledger ledger)))
      × (IsAscending on_disk source
          → IsAscending in_ledger ledger
          → alloc ≡ true
          → (p : Plan) × (build alloc source ledger opts ≡ ok p))
unfolding build
build_outcome alloc source ledger opts =
    let ms = migrations_sorted_iff source in
    let as' = applied_sorted_iff ledger in
    (
      (
        λ e h. absurd (ground (arith, ms.1 h)),
        λ h. ground (arith, false_of (migrations_sorted source) ms h),
      ),
      (
        λ e. (
          (migrations_sorted_iff source).0 (ground arith),
          λ h. absurd (ground (arith, as'.1 h)),
        ),
        λ h. ground (arith, ms.1 h.0, false_of (applied_sorted ledger) as' h.1),
      ),
      λ h k e. elim (Bool-cases (is_nil source && is_nil ledger)) [
        | inl nothing ↦ (empty_plan, ground (arith, ms.1 h, as'.1 k))
        | inr more ↦ (joined opts source ledger, ground (arith, ms.1 h, as'.1 k))
      ],
    )

first_problem_of-none : (es : List Entry) → (first_problem_of es ≡ none) ↔ (count blocks es ≡ 0)
unfolding first_problem_of
first_problem_of-none [] = ground arith
first_problem_of-none (e ∷ es) = ground (arith, first_problem_of-none es)

-- A built plan has no first problem exactly if its problem counter is zero.
pub first_problem-none :
    (alloc : Bool) (source : List Migration) (ledger : List Applied) (opts : Option Bool) (p : Plan)
    → build alloc source ledger opts ≡ ok p
    → (first_problem p ≡ none) ↔ (p.problem_count ≡ 0)
unfolding first_problem
first_problem-none alloc source ledger opts p e =
    let counted = (build-IsPlanOf alloc source ledger opts p e).problems_counted in
    let both = first_problem_of-none p.entries in
    (λ h. counted ∙ both.0 h, λ h. both.1 (sym counted ∙ h))
