-- ===== src/Migrate/Plan/Entries.antt =====
-- The merge-join of tools/migrate/src/plan.c with no accumulator: the entries that it appends.
use mathlib.Core.List.{append_assoc, append-nil}
use blue_bird.Prelude.{
  ℕ, ◌+◌, ◌-◌, ◌<◌, ◌≡◌, sym, ◌∙◌, Bool, true, false, not, ◌&&◌, List, [], ◌∷◌, ◌++◌, Option, none,
  some, inl, inr, arith, ltb, if◌then◌else◌, Bool-cases, lt→ltb, take, count, same_bytes,
}
use blue_bird.Migrate.Plan.{
  State, applied, pending, modified, missing, out_of_order, Migration, Applied, Entry, Plan,
  is_problem, is_pending, name_max, add_entry, is_late, on_disk_only, in_ledger_only, in_both, join,
}

abbrev entry : ℕ → List ℕ → State → Option Migration → Bool → Entry
entry version name state migration late = record {
  version = version;
  name = take (name_max - 1) name;
  state = state;
  late = late;
  migration = migration;
}

-- What each kind of version becomes.
abbrev pub disk_entry : Bool → Option ℕ → Migration → Entry
disk_entry allow latest s =
    entry s.version s.name (if is_late latest s.version && not allow then out_of_order else pending)
      (some s) (is_late latest s.version)

abbrev pub ledger_entry : Applied → Entry
ledger_entry a = entry a.version a.name missing none false

abbrev pub both_entry : Migration → Applied → Entry
both_entry s a =
    entry s.version s.name (if same_bytes s.checksum a.checksum then applied else modified) (some s)
      false

unfoldable pub merged : Bool → Option ℕ → List Migration → List Applied → List Entry
merged allow latest [] [] = []
merged allow latest (s ∷ ss) [] = disk_entry allow latest s ∷ merged allow latest ss []
merged allow latest [] (a ∷ rest) = ledger_entry a ∷ merged allow latest [] rest
merged allow latest (s ∷ ss) (a ∷ rest) = elim (ltb s.version a.version) [
  | true ↦ disk_entry allow latest s ∷ merged allow latest ss (a ∷ rest)
  | false ↦ elim (ltb a.version s.version) [
    | true ↦ ledger_entry a ∷ merged allow latest (s ∷ ss) rest
    | false ↦ both_entry s a ∷ merged allow latest ss rest
  ]
]

abbrev pub pends : Entry → Bool
pends e = is_pending e.state

abbrev pub blocks : Entry → Bool
blocks e = is_problem e.state

-- A plan that has the entries of another with `es` behind them, and counts them.
pub record Extends (p : Plan) (es : List Entry) (q : Plan) : Type 0 where
  pub entries : q.entries ≡ p.entries ++ es
  pub pending_counted : q.pending_count ≡ p.pending_count + count pends es
  pub problems_counted : q.problem_count ≡ p.problem_count + count blocks es

add_entry-Extends :
    (p q : Plan) (version : ℕ) (name : List ℕ) (state : State) (migration : Option Migration)
    (late : Bool) (es : List Entry)
    → Extends (add_entry p version name state migration late) es q
    → Extends p (entry version name state migration late ∷ es) q
unfolding add_entry
add_entry-Extends p q version name applied migration late es x = record {
  entries = x.entries ∙ append_assoc p.entries _ es;
  pending_counted = omega (arith, x.pending_counted);
  problems_counted = omega (arith, x.problems_counted);
}
add_entry-Extends p q version name _ migration late es x = record {
  entries = x.entries ∙ append_assoc p.entries _ es;
  pending_counted = omega (arith, x.pending_counted);
  problems_counted = omega (arith, x.problems_counted);
}

module _ (allow : Bool) (latest : Option ℕ) where
  pub join-Extends :
      (p : Plan) (ss : List Migration) (ledger : List Applied)
      → Extends p (merged allow latest ss ledger) (join allow latest p ss ledger)
  unfolding join merged on_disk_only in_ledger_only in_both
  join-Extends p [] [] = record {
    entries = sym (append-nil p.entries);
    pending_counted = omega arith;
    problems_counted = omega arith;
  }
  join-Extends p (s ∷ ss) [] =
      add_entry-Extends p _ _ _ _ _ _ _ (join-Extends (on_disk_only allow latest p s) ss [])
  join-Extends p [] (a ∷ rest) =
      add_entry-Extends p _ _ _ _ _ _ _ (join-Extends (in_ledger_only p a) [] rest)
  join-Extends p (s ∷ ss) (a ∷ rest) = elim (Bool-cases (ltb s.version a.version)) [
    | inl before ↦
        rw (before, join, merged)
          (add_entry-Extends p _ _ _ _ _ _ _
            (join-Extends (on_disk_only allow latest p s) ss (a ∷ rest)))
    | inr notbefore ↦ elim (Bool-cases (ltb a.version s.version)) [
      | inl after ↦
          rw (notbefore, after, join, merged)
            (add_entry-Extends p _ _ _ _ _ _ _ (join-Extends (in_ledger_only p a) (s ∷ ss) rest))
      | inr same ↦
          rw (notbefore, same, join, merged)
            (add_entry-Extends p _ _ _ _ _ _ _ (join-Extends (in_both p s a) ss rest))
    ]
  ]

  -- Which branch the loop takes, by the order of the two versions.
  pub merged-before :
      (s : Migration) (ss : List Migration) (a : Applied) (rest : List Applied)
      → s.version < a.version
      → merged allow latest (s ∷ ss) (a ∷ rest)
        ≡ disk_entry allow latest s ∷ merged allow latest ss (a ∷ rest)
  unfolding merged
  merged-before s ss a rest lt = rw (lt→ltb s.version a.version lt, merged)

  pub merged-after :
      (s : Migration) (ss : List Migration) (a : Applied) (rest : List Applied)
      → a.version < s.version
      → merged allow latest (s ∷ ss) (a ∷ rest) ≡ ledger_entry a ∷ merged allow latest (s ∷ ss) rest
  unfolding merged
  merged-after s ss a rest lt =
      let not_before : ltb s.version a.version ≡ false = ground arith in
      rw (not_before, lt→ltb a.version s.version lt, merged)

  pub merged_both :
      (s : Migration) (ss : List Migration) (a : Applied) (rest : List Applied)
      → s.version ≡ a.version
      → merged allow latest (s ∷ ss) (a ∷ rest) ≡ both_entry s a ∷ merged allow latest ss rest
  unfolding merged
  merged_both s ss a rest e =
      let not_before : ltb s.version a.version ≡ false = ground arith in
      let not_after : ltb a.version s.version ≡ false = ground arith in
      rw (not_before, not_after, merged)
