-- ===== src/Migrate/Plan/States.antt =====
-- The state of each version in a plan of tools/migrate/src/plan.c, against its description in
-- tools/migrate/src/plan.h.
use native.Mathlib.Decide.{dec_lt}
use blue_bird.Prelude.{
  ℕ, ◌≡◌, refl, Bool, List, [], ◌∷◌, Option, none, some, arith, IsAbove, IsAscending, find,
  find-IsAbove, IsAbove-le, IsAscending-tail,
}
use blue_bird.Migrate.Plan.{Migration, Applied, Entry}
use blue_bird.Migrate.Plan.Entries.{
  disk_entry, ledger_entry, both_entry, merged, merged-before, merged-after, merged_both,
}

abbrev pub on_disk : Migration → ℕ
on_disk m = m.version

abbrev pub in_ledger : Applied → ℕ
in_ledger a = a.version

abbrev pub planned : Entry → ℕ
planned e = e.version

-- What plan.h says of a version: by whether it is on disk and whether it is in the ledger.
abbrev pub classify : Bool → Option ℕ → Option Migration → Option Applied → Option Entry
classify allow latest none none = none
classify allow latest (some s) none = some (disk_entry allow latest s)
classify allow latest none (some a) = some (ledger_entry a)
classify allow latest (some s) (some a) = some (both_entry s a)

module _ (allow : Bool) (latest : Option ℕ) where
  merged-IsAbove :
      (n : ℕ) (ss : List Migration) (ledger : List Applied)
      → IsAbove on_disk n ss
      → IsAbove in_ledger n ledger
      → IsAbove planned n (merged allow latest ss ledger)
  unfolding merged
  merged-IsAbove n [] [] hs ha = tt
  merged-IsAbove n (s ∷ ss) [] (lt, hs) ha = (lt, merged-IsAbove s.version ss [] hs tt)
  merged-IsAbove n [] (a ∷ rest) hs (lt, ha) = (lt, merged-IsAbove a.version [] rest tt ha)
  merged-IsAbove n (s ∷ ss) (a ∷ rest) (ls, hs) (la, ha) = elim (dec_lt s.version a.version) [
    | yes p ↦
        rw (merged-before allow latest s ss a rest p)
          (ls, merged-IsAbove s.version ss (a ∷ rest) hs (p, ha))
    | no p ↦ elim (dec_lt a.version s.version) [
      | yes q ↦
          rw (merged-after allow latest s ss a rest q)
            (la, merged-IsAbove a.version (s ∷ ss) rest (q, hs) ha)
      | no q ↦
          let e : s.version ≡ a.version = omega arith in
          rw (merged_both allow latest s ss a rest e) (
            ls,
            merged-IsAbove s.version ss rest hs
                (IsAbove-le in_ledger s.version a.version rest (omega arith) ha),
          )
    ]
  ]

  pub merged-IsAscending :
      (ss : List Migration) (ledger : List Applied)
      → IsAscending on_disk ss
      → IsAscending in_ledger ledger
      → IsAscending planned (merged allow latest ss ledger)
  unfolding merged
  merged-IsAscending [] [] hs ha = tt
  merged-IsAscending (s ∷ ss) [] hs ha = merged-IsAbove s.version ss [] hs tt
  merged-IsAscending [] (a ∷ rest) hs ha = merged-IsAbove a.version [] rest tt ha
  merged-IsAscending (s ∷ ss) (a ∷ rest) hs ha = elim (dec_lt s.version a.version) [
    | yes p ↦
        rw (merged-before allow latest s ss a rest p)
          (merged-IsAbove s.version ss (a ∷ rest) hs (p, ha))
    | no p ↦ elim (dec_lt a.version s.version) [
      | yes q ↦
          rw (merged-after allow latest s ss a rest q)
            (merged-IsAbove a.version (s ∷ ss) rest (q, hs) ha)
      | no q ↦
          let e : s.version ≡ a.version = omega arith in
          rw (merged_both allow latest s ss a rest e) (
            merged-IsAbove s.version ss rest hs
              (IsAbove-le in_ledger s.version a.version rest (omega arith) ha))
    ]
  ]

  pub find-merged :
      (v : ℕ) (ss : List Migration) (ledger : List Applied)
      → IsAscending on_disk ss
      → IsAscending in_ledger ledger
      → find planned v (merged allow latest ss ledger)
        ≡ classify allow latest (find on_disk v ss) (find in_ledger v ledger)
  unfolding merged
  find-merged v [] [] hs ha = refl
  find-merged v (s ∷ ss) [] hs ha =
      ground (arith, find-merged v ss [] (IsAscending-tail on_disk s ss hs) tt)
  find-merged v [] (a ∷ rest) hs ha =
      ground (arith, find-merged v [] rest tt (IsAscending-tail in_ledger a rest ha))
  find-merged v (s ∷ ss) (a ∷ rest) hs ha = elim (dec_lt s.version a.version) [
    | yes p ↦ rw (merged-before allow latest s ss a rest p) (
        ground (
          arith,
          find-IsAbove in_ledger v a.version rest ha,
          find-merged v ss (a ∷ rest) (IsAscending-tail on_disk s ss hs) ha,
        ))
    | no p ↦ elim (dec_lt a.version s.version) [
      | yes q ↦ rw (merged-after allow latest s ss a rest q) (
          ground (
            arith,
            find-IsAbove on_disk v s.version ss hs,
            find-merged v (s ∷ ss) rest hs (IsAscending-tail in_ledger a rest ha),
          ))
      | no q ↦
          let e : s.version ≡ a.version = omega arith in
          rw (merged_both allow latest s ss a rest e) (
            ground (
              arith,
              e,
              find-merged v ss rest (IsAscending-tail on_disk s ss hs)
                  (IsAscending-tail in_ledger a rest ha),
            ))
    ]
  ]
