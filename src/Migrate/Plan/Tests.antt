-- ===== src/Migrate/Plan/Tests.antt =====
-- Runs of tools/migrate/src/plan.c, and the theorems at concrete inputs.
use blue_bird.Prelude.{
  ℕ, ◌≡◌, ◌↔◌, refl, Bool, true, false, List, [], ◌∷◌, none, some, Bytes, codes, same_bytes,
  IsAscending,
}
use blue_bird.Migrate.Plan.{
  State, Migration, Applied, Entry, Plan, ok, err, source_unsorted, applied_unsorted, build, join,
  on_disk_only, in_ledger_only, in_both, latest_applied, migrations_sorted, applied_sorted,
}
use blue_bird.Migrate.Plan.States.{on_disk, in_ledger}
use blue_bird.Migrate.Plan.Build.{IsPlanOf, build-IsPlanOf, build_outcome}

abbrev file : ℕ → Bytes → Bytes → Migration
file version name checksum = record { version = version; name = name; checksum = checksum }

abbrev row : ℕ → Bytes → Bytes → Applied
row version name checksum = record { version = version; name = name; checksum = checksum }

-- Version 2 came late, 3 was edited, 4 is new, 1 is unchanged.
abbrev source : List Migration
source =
    file 1 (codes "a") (codes "x")
    ∷ file 2 (codes "b") (codes "y")
    ∷ file 3 (codes "c") (codes "z")
    ∷ file 4 (codes "d") (codes "w")
    ∷ []

abbrev ledger : List Applied
ledger = row 1 (codes "a") (codes "x") ∷ row 3 (codes "c") (codes "q") ∷ []

abbrev entry : ℕ → Bytes → State → Bool → Migration → Entry
entry version name state late m = record {
  version = version;
  name = name;
  state = state;
  late = late;
  migration = some m;
}

abbrev plan : Plan
plan = record {
  entries =
      entry 1 (codes "a") State.applied false (file 1 (codes "a") (codes "x"))
      ∷ entry 2 (codes "b") State.out_of_order true (file 2 (codes "b") (codes "y"))
      ∷ entry 3 (codes "c") State.modified false (file 3 (codes "c") (codes "z"))
      ∷ entry 4 (codes "d") State.pending false (file 4 (codes "d") (codes "w"))
      ∷ [];
  pending_count = 1;
  problem_count = 2;
}

build_example : build true source ledger none ≡ ok plan
unfolding build join on_disk_only in_ledger_only in_both latest_applied migrations_sorted
    applied_sorted same_bytes
build_example = refl

build-IsPlanOf_example : IsPlanOf source ledger none plan
build-IsPlanOf_example = build-IsPlanOf true source ledger none plan build_example

build_outcome_example :
    ((build true source ledger none ≡ err source_unsorted) ↔ (¬ IsAscending on_disk source))
    × ((build true source ledger none ≡ err applied_unsorted)
        ↔ (IsAscending on_disk source × (¬ IsAscending in_ledger ledger)))
    × (IsAscending on_disk source
        → IsAscending in_ledger ledger
        → true ≡ true
        → (p : Plan) × (build true source ledger none ≡ ok p))
build_outcome_example = build_outcome true source ledger none
