-- ===== src/Runtime/Loop/Safe/End.antt =====
-- The end of the event loop (bb_runtime_destroy of modules/runtime/src/runtime.c).
use mathlib.Core.Path.{subst}
use blue_bird.Runtime.Poller.{poller_unregister}
use blue_bird.Prelude.{
  sym, ℕ, ◌+◌, ◌≤◌, ◌≡◌, refl, ◌∙◌, inl, inr, Bool, true, false, List, [], ◌∷◌, map, Option, some,
  arith, ◌==◌, if◌then◌else◌, if_true, if_false, ◌>>=◌, count, bit, Bool-cases,
}
use blue_bird.Runtime.TimerHeap.{Timer}
use blue_bird.Runtime.Task.{Task, completed, finalize}
use blue_bird.Runtime.Loop.{Watcher, Runtime, update, task_of, put_task, record_made, destroy_task}
use blue_bird.Runtime.Loop.Tick.{destroy_queue, destroy_watchers, destroy_timers, runtime_destroy}
use blue_bird.Runtime.Loop.Safe.{watches, timed, IsSafe}

-- How often a pointer is in a list.
abbrev times : ℕ → List ℕ → ℕ
times g ids = count (λ id. id == g) ids

times-watchers :
    (g : ℕ) (watchers : List Watcher) → times g (map (λ w. w.task) watchers) ≡ watches watchers g
times-watchers g [] = refl
times-watchers g (w ∷ watchers) = ground (arith, times-watchers g watchers)

times-timers : (g : ℕ) (timers : List Timer) → times g (map (λ t. t.task) timers) ≡ timed timers g
times-timers g [] = refl
times-timers g (t ∷ timers) = ground (arith, times-timers g timers)

finalize_persistent : (t : Task) → (finalize t completed).0.persistent ≡ t.persistent
unfolding finalize
finalize_persistent t = ground arith

-- What destroying a task does to the parts that are destroyed next.
record Freed (id : ℕ) (r after : Runtime) : Type 0 where
  same_watchers : after.watchers ≡ r.watchers
  same_timers : after.timers ≡ r.timers
  memory : (g : ℕ) → after.allocated g ≡ update r.allocated id false g
  persistent : (g : ℕ) → (task_of after g).persistent ≡ (task_of r g).persistent

destroy_task-Freed :
    (r : Runtime) (id : ℕ)
    → r.allocated id ≡ true
    → (after : Runtime) × (destroy_task r id ≡ some after) × Freed id r after
unfolding destroy_task
destroy_task-Freed r id al =
    let f = finalize (task_of r id) completed in
    (
      record (record_made id f.1 (put_task id f.0 r)) { allocated = update r.allocated id false },
      rw al refl,
      record {
        same_watchers = refl;
        same_timers = refl;
        memory = λ g. refl;
        persistent = λ g. ground (arith, finalize_persistent (task_of r id));
      },
    )

-- What is left of the memory after these tasks are freed.
abbrev Frees : List ℕ → Runtime → Runtime → Type 0
Frees ids r after = (g : ℕ) → bit (after.allocated g) + times g ids ≡ bit (r.allocated g)

destroy_timers-Frees :
    (timers : List Timer) (r : Runtime)
    → ((g : ℕ) → times g (map (λ t. t.task) timers) ≤ bit (r.allocated g))
    → (after : Runtime) × (destroy_timers timers r ≡ some after)
      × Frees (map (λ t. t.task) timers) r after
unfolding destroy_timers
destroy_timers-Frees [] r h = (r, refl, λ g. omega arith)
destroy_timers-Frees (t ∷ timers) r h =
    let (next, ran, f) = destroy_task-Freed r t.task (ground (arith, h t.task)) in
    let (after, runs, sums) =
      destroy_timers-Frees timers next (λ g. ground (arith, h g, f.memory g)) in
    (after, rw (ran, destroy_timers) runs, λ g. ground (arith, h g, sums g, f.memory g))

destroy_watchers-Frees :
    (watchers : List Watcher) (r : Runtime)
    → ((g : ℕ) → times g (map (λ w. w.task) watchers) ≤ bit (r.allocated g))
    → (after : Runtime) × (destroy_watchers watchers r ≡ some after)
      × Frees (map (λ w. w.task) watchers) r after
      × (after.timers ≡ r.timers)
unfolding destroy_watchers
destroy_watchers-Frees [] r h = (record r { watchers = [] }, refl, λ g. omega arith, refl)
destroy_watchers-Frees (w ∷ watchers) r h =
    let unregistered = record r { poller = (poller_unregister r.poller w.fd w.events).0 } in
    let (next, ran, f) = destroy_task-Freed unregistered w.task (ground (arith, h w.task)) in
    let (after, runs, sums, timers) =
      destroy_watchers-Frees watchers next (λ g. ground (arith, h g, f.memory g)) in
    (
      after,
      rw (ran, destroy_watchers) runs,
      λ g. ground (arith, h g, sums g, f.memory g),
      timers ∙ f.same_timers,
    )

-- How often a pointer is freed by the loop over the queue.
abbrev queued : Runtime → ℕ → List ℕ → ℕ
queued r g queue = if (task_of r g).persistent then 0 else times g queue

record Emptied (queue : List ℕ) (r after : Runtime) : Type 0 where
  same_watchers : after.watchers ≡ r.watchers
  same_timers : after.timers ≡ r.timers
  memory : (g : ℕ) → bit (after.allocated g) + queued r g queue ≡ bit (r.allocated g)

abbrev destroys : List ℕ → Runtime → ℕ → Option Runtime
destroys queue r id = destroy_task r id >>= λ gone. destroy_queue queue gone

destroy_queue-Emptied :
    (queue : List ℕ) (r : Runtime)
    → ((g : ℕ) → queued r g queue ≤ bit (r.allocated g))
    → (after : Runtime) × (destroy_queue queue r ≡ some after) × Emptied queue r after
unfolding destroy_queue
destroy_queue-Emptied [] r h =
    (r, refl, record { same_watchers = refl; same_timers = refl; memory = λ g. ground arith })
destroy_queue-Emptied (id ∷ queue) r h =
    let taken = record (put_task id (record (task_of r id) { scheduled = false }) r) {
      scheduler = record r.scheduler { queue = queue };
    } in
    elim (Bool-cases (task_of r id).persistent) [
      | inl lasts ↦
          let (after, runs, e) =
            destroy_queue-Emptied queue taken (λ g. ground (arith, h g, lasts)) in
          (
            after,
            if_true (task_of r id).persistent (destroy_queue queue taken) (destroys queue taken id)
                  lasts
                ∙ runs,
            record {
              same_watchers = e.same_watchers;
              same_timers = e.same_timers;
              memory = λ g. ground (arith, e.memory g, lasts);
            },
          )
      | inr once ↦
          let (next, ran, f) = destroy_task-Freed taken id (ground (arith, h id, once)) in
          let (after, runs, e) =
            destroy_queue-Emptied queue next
              (λ g. ground (arith, h g, once, f.memory g, f.persistent g)) in
          (
            after,
            if_false (task_of r id).persistent (destroy_queue queue taken) (destroys queue taken id)
                  once
                ∙ rw ran runs,
            record {
              same_watchers = e.same_watchers ∙ f.same_watchers;
              same_timers = e.same_timers ∙ f.same_timers;
              memory = λ g. ground (arith, h g, e.memory g, once, f.memory g, f.persistent g);
            },
          )
    ]

-- Under the invariant, destroying a runtime ends without a fault: each task is freed at most once,
-- and the tasks that are freed are those in the queue that are not persistent, those of the watchers
-- and those of the timers.
pub runtime_destroy-frees :
    (held : ℕ → Bool) (r : Runtime)
    → IsSafe held r
    → (after : Runtime) × (runtime_destroy r ≡ some after)
      × ((g : ℕ)
          → bit (after.allocated g)
              + (if (task_of r g).persistent then 0 else bit (task_of r g).scheduled)
              + watches r.watchers g
              + timed r.timers.items g
            ≡ bit (r.allocated g))
unfolding runtime_destroy
runtime_destroy-frees held r h =
    let (emptied, ran, e) =
      destroy_queue-Emptied r.scheduler.queue r (λ g. ground (arith, h.owned g, h.marked g)) in
    let (unwatched, runs, gone, kept) =
      subst
        (λ ws.
          (after : Runtime) × (destroy_watchers ws emptied ≡ some after)
          × Frees (map (λ w. w.task) r.watchers) emptied after
          × (after.timers ≡ emptied.timers))
        (sym e.same_watchers)
        (destroy_watchers-Frees r.watchers emptied
          (λ g. ground (arith, e.memory g, h.owned g, h.marked g, times-watchers g r.watchers))) in
    let (after, rans, freed) =
      subst
        (λ heap.
          (after : Runtime) × (destroy_timers heap.items unwatched ≡ some after)
          × Frees (map (λ t. t.task) r.timers.items) unwatched after)
        (sym (kept ∙ e.same_timers))
        (destroy_timers-Frees r.timers.items unwatched (λ g. ground (
          arith,
          gone g,
          e.memory g,
          h.owned g,
          h.marked g,
          times-watchers g r.watchers,
          times-timers g r.timers.items,
        ))) in
    (
      after,
      rw (ran, runtime_destroy) (rw runs rans),
      λ g. ground (
        arith,
        freed g,
        gone g,
        e.memory g,
        h.marked g,
        times-watchers g r.watchers,
        times-timers g r.timers.items,
      ),
    )
