-- ===== src/Migrate/Plan.antt =====
-- tools/migrate/src/plan.c: what to do with each migration version.
--
-- Versions are the numbers parsed from file names and read back from the ledger, so they are not
-- negative; with no applied migration `latest_applied` is -1 in the source, which no version is
-- below, and `none` here. Names and checksums are byte strings. The arguments are not NULL, except
-- `opts`.
pub mod Entries
pub mod States
pub mod Build
mod Tests
use blue_bird.Prelude.{
  ℕ, ◌+◌, ◌-◌, ◌<◌, ◌≡◌, Bool, true, false, not, ◌&&◌, ◌||◌, List, [], ◌∷◌, ◌++◌, Option, none,
  some, ltb, leb, if◌then◌else◌, length, take, Bytes, same_bytes,
}

pub data State : Type 0 where
  applied pending modified missing out_of_order : State

-- bb_migration_t
pub record Migration : Type 0 where
  pub version : ℕ
  pub name : Bytes
  pub checksum : Bytes

-- bb_migrate_applied_t
pub record Applied : Type 0 where
  pub version : ℕ
  pub name : Bytes
  pub checksum : Bytes

-- bb_migrate_entry_t
pub record Entry : Type 0 where
  pub version : ℕ
  pub name : Bytes
  pub state : State
  pub late : Bool
  pub migration : Option Migration

-- bb_migrate_plan_t; `count` is the length of `entries`.
pub record Plan : Type 0 where
  pub entries : List Entry
  pub pending_count : ℕ
  pub problem_count : ℕ

pub data Error : Type 0 where
  source_unsorted applied_unsorted out_of_memory : Error

pub data Result : Type 0 where
  ok : Plan → Result
  err : Error → Result

abbrev pub name_max : ℕ
name_max = 128

abbrev pub empty_plan : Plan
empty_plan = record { entries = []; pending_count = 0; problem_count = 0 }

unfoldable pub is_problem : State → Bool
is_problem modified = true
is_problem missing = true
is_problem out_of_order = true
is_problem applied = false
is_problem pending = false

abbrev is_pending : State → Bool
is_pending pending = true
is_pending _ = false

unfoldable pub add_entry : Plan → ℕ → Bytes → State → Option Migration → Bool → Plan
unfolding is_problem
add_entry plan version name state migration late =
    let e : Entry = record {
      version = version;
      name = take (name_max - 1) name;
      state = state;
      late = late;
      migration = migration;
    } in
    let grown : Plan = record plan { entries = plan.entries ++ e ∷ [] } in
    if is_pending state
    then record grown { pending_count = plan.pending_count + 1 }
    else if is_problem state
    then record grown { problem_count = plan.problem_count + 1 }
    else grown

-- The checks of the two inputs: each version is above the one before it.
unfoldable pub migrations_sorted : List Migration → Bool
migrations_sorted [] = true
migrations_sorted (m ∷ []) = true
migrations_sorted (m ∷ n ∷ ms) = not (leb n.version m.version) && migrations_sorted (n ∷ ms)

unfoldable pub applied_sorted : List Applied → Bool
applied_sorted [] = true
applied_sorted (a ∷ []) = true
applied_sorted (a ∷ b ∷ rest) = not (leb b.version a.version) && applied_sorted (b ∷ rest)

-- The version of the last applied migration; `none` is -1.
unfoldable pub latest_applied : List Applied → Option ℕ
latest_applied [] = none
latest_applied (a ∷ []) = some a.version
latest_applied (a ∷ b ∷ rest) = latest_applied (b ∷ rest)

unfoldable pub is_late : Option ℕ → ℕ → Bool
is_late none version = false
is_late (some latest) version = ltb version latest

-- The three branches of the loop.
unfoldable pub on_disk_only : Bool → Option ℕ → Plan → Migration → Plan
unfolding add_entry is_late
on_disk_only allow_late latest plan s =
    let late = is_late latest s.version in
    let state = if late && not allow_late then out_of_order else pending in
    add_entry plan s.version s.name state (some s) late

unfoldable pub in_ledger_only : Plan → Applied → Plan
unfolding add_entry
in_ledger_only plan a = add_entry plan a.version a.name missing none false

unfoldable pub in_both : Plan → Migration → Applied → Plan
unfolding add_entry
in_both plan s a =
    let state = if same_bytes s.checksum a.checksum then applied else modified in
    add_entry plan s.version s.name state (some s) false

-- The merge-join.
unfoldable pub join : Bool → Option ℕ → Plan → List Migration → List Applied → Plan
join allow_late latest plan [] [] = plan
join allow_late latest plan (s ∷ ss) [] =
    join allow_late latest (on_disk_only allow_late latest plan s) ss []
join allow_late latest plan [] (a ∷ rest) = join allow_late latest (in_ledger_only plan a) [] rest
join allow_late latest plan (s ∷ ss) (a ∷ rest) = elim (ltb s.version a.version) [
  | true ↦ join allow_late latest (on_disk_only allow_late latest plan s) ss (a ∷ rest)
  | false ↦ elim (ltb a.version s.version) [
    | true ↦ join allow_late latest (in_ledger_only plan a) (s ∷ ss) rest
    | false ↦ join allow_late latest (in_both plan s a) ss rest
  ]
]

abbrev pub allows_late : Option Bool → Bool
allows_late none = false
allows_late (some allow_out_of_order) = allow_out_of_order

abbrev is_nil : {A : Type 0} → List A → Bool
is_nil [] = true
is_nil (_ ∷ _) = false

-- `alloc` is whether `calloc` succeeds; `opts` is the options' `allow_out_of_order`, if given.
unfoldable pub build : Bool → List Migration → List Applied → Option Bool → Result
build alloc source ledger opts =
    if not (migrations_sorted source)
    then err source_unsorted
    else if not (applied_sorted ledger)
    then err applied_unsorted
    else if is_nil source && is_nil ledger
    then ok empty_plan
    else if not alloc
    then err out_of_memory
    else ok (join (allows_late opts) (latest_applied ledger) empty_plan source ledger)

unfoldable pub first_problem_of : List Entry → Option Entry
unfolding is_problem
first_problem_of [] = none
first_problem_of (e ∷ es) = if is_problem e.state then some e else first_problem_of es

unfoldable pub first_problem : Plan → Option Entry
unfolding first_problem_of
first_problem plan = first_problem_of plan.entries
