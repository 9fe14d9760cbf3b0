-- ===== src/Runtime/Loop/Safe/Callbacks.antt =====
-- What a client, or a callback, does to the event loop between two of its rounds.
use mathlib.Core.Path.{subst}
use blue_bird.Prelude.{ℕ, ◌≡◌, refl, sym, ap, ◌∙◌, Bool, true, Option, none, some, arith}
use blue_bird.Runtime.Loop.{
  WatchMode, Runtime, System, schedule_ex, set_interval_ex, set_timeout_ex, cancel_task,
}
use blue_bird.Runtime.Loop.Watch.{watch_fd_ex, unwatch_fd}
use blue_bird.Runtime.Loop.Tick.{set_running, stop}
use blue_bird.Runtime.Loop.Safe.{IsSafe}
use blue_bird.Runtime.Loop.Safe.Operations.{IsNew}
use blue_bird.Runtime.Loop.Safe.Timers.{
  Makes, schedule_ex-Makes, set_interval_ex-Makes, set_timeout_ex-Makes,
}
use blue_bird.Runtime.Loop.Safe.Cancelling.{cancel_task-Safe}
use blue_bird.Runtime.Loop.Safe.Watching.{watch_fd_ex-Makes, unwatch_fd-Safe}

-- A call of the interface, with what the system reports for it.
pub data Call : Type 0 where
  schedules : System → Option ℕ → Bool → Bool → Call
  sets_interval sets_timeout : System → ℕ → ℕ → Option ℕ → Bool → Bool → Call
  watches_fd : System → ℕ → ℕ → WatchMode → Option ℕ → Bool → Bool → Call
  unwatches_fd : System → ℕ → Call
  cancels_task : System → ℕ → Call
  starts stops : Call

abbrev pub runtime_of : Option (Runtime × Option ℕ) → Option Runtime
runtime_of none = none
runtime_of (some (r, task)) = some r

-- The runtime after the call; `none` is a fault in it.
abbrev pub perform : Call → Runtime → Option Runtime
perform (schedules system new has_run has_cleanup) r =
    runtime_of (schedule_ex system new has_run has_cleanup r)
perform (sets_interval system now ms new has_run has_cleanup) r =
    runtime_of (set_interval_ex system now ms new has_run has_cleanup r)
perform (sets_timeout system now ms new has_run has_cleanup) r =
    runtime_of (set_timeout_ex system now ms new has_run has_cleanup r)
perform (watches_fd system fd events mode new has_run has_cleanup) r =
    runtime_of (watch_fd_ex system fd events mode new has_run has_cleanup r)
perform (unwatches_fd system fd) r = some (unwatch_fd system r fd).0
perform (cancels_task system id) r = cancel_task system r id
perform starts r = some (set_running r)
perform stops r = some (stop r)

-- `calloc` returns no pointer that is a task already, and a client cancels only allocated tasks.
abbrev pub IsAllowed : Call → Runtime → Type 0
IsAllowed (schedules system new has_run has_cleanup) r = IsNew r new
IsAllowed (sets_interval system now ms new has_run has_cleanup) r = IsNew r new
IsAllowed (sets_timeout system now ms new has_run has_cleanup) r = IsNew r new
IsAllowed (watches_fd system fd events mode new has_run has_cleanup) r = IsNew r new
IsAllowed (unwatches_fd system fd) r = Unit
IsAllowed (cancels_task system id) r = r.allocated id ≡ true
IsAllowed starts r = Unit
IsAllowed stops r = Unit

-- Any allowed calls, one after the other. A fault in one ends them, with `none`.
pub data Uses : Runtime → Option Runtime → Type 0 where
  nothing : {r : Runtime} → Uses r (some r)
  faults : {r : Runtime} (c : Call) → IsAllowed c r → perform c r ≡ none → Uses r none
  goes_on :
      {r u : Runtime} {result : Option Runtime} (c : Call)
      → IsAllowed c r
      → perform c r ≡ some u
      → Uses u result
      → Uses r result

-- There is a runtime, and it satisfies the invariant.
abbrev pub Succeeds : (ℕ → Bool) → Option Runtime → Type 0
Succeeds held result = (after : Runtime) × (result ≡ some after) × IsSafe held after

Makes-Succeeds :
    (held : ℕ → Bool) (result : Option (Runtime × Option ℕ))
    → Makes held result
    → Succeeds held (runtime_of result)
Makes-Succeeds held result (after, task, run, safe) = (after, ap runtime_of run, safe)

-- One allowed call does not fault.
perform-Succeeds :
    (held : ℕ → Bool) (c : Call) (r : Runtime)
    → IsSafe held r
    → IsAllowed c r
    → Succeeds held (perform c r)
perform-Succeeds held (schedules system new a b) r h n =
    Makes-Succeeds held (schedule_ex system new a b r) (schedule_ex-Makes held system new a b r h n)
perform-Succeeds held (sets_interval system now ms new a b) r h n =
    Makes-Succeeds held (set_interval_ex system now ms new a b r)
      (set_interval_ex-Makes held system now ms new a b r h n)
perform-Succeeds held (sets_timeout system now ms new a b) r h n =
    Makes-Succeeds held (set_timeout_ex system now ms new a b r)
      (set_timeout_ex-Makes held system now ms new a b r h n)
perform-Succeeds held (watches_fd system fd events mode new a b) r h n =
    Makes-Succeeds held (watch_fd_ex system fd events mode new a b r)
      (watch_fd_ex-Makes held system fd events mode new a b r h n)
perform-Succeeds held (unwatches_fd system fd) r h n =
    ((unwatch_fd system r fd).0, refl, unwatch_fd-Safe held system r fd h)
perform-Succeeds held (cancels_task system id) r h n = cancel_task-Safe held system r id h n
perform-Succeeds held starts r h n = (set_running r, refl, unfold set_running in h)
perform-Succeeds held stops r h n = (stop r, refl, unfold stop in h)

pub Uses-Safe :
    (held : ℕ → Bool) {r : Runtime} {result : Option Runtime}
    → Uses r result
    → IsSafe held r
    → (after : Runtime) × (result ≡ some after) × IsSafe held after
Uses-Safe held (nothing {r}) h = (r, refl, h)
Uses-Safe held (faults {r} c allowed e) h =
    let (after, run, safe) = perform-Succeeds held c r h allowed in
    let impossible : none ≡ some after = sym e ∙ run in absurd (cc)
Uses-Safe held (goes_on {r} {u} c allowed e rest) h =
    let (after, run, safe) = perform-Succeeds held c r h allowed in
    let same : some after ≡ some u = sym run ∙ e in
    let equal : after ≡ u = ground (arith, same) in
    Uses-Safe held rest (subst (IsSafe held) equal safe)
