-- ===== src/Runtime/Scheduler/Order.antt =====
-- The scheduler as a queue of distinct tasks (modules/runtime/src/scheduler.c).
use blue_bird.Prelude.{
  ℕ, ◌≡◌, sym, ◌∙◌, ap, Bool, List, [], ◌∷◌, ◌++◌, none, some, arith, ◌==◌, append_assoc,
  append_nil, if◌then◌else◌, count-append,
}
use blue_bird.Runtime.Scheduler.{Scheduler, IsMarked, schedule, take_next}

-- What a client does to a scheduler.
pub data Use : Type 0 where
  submit : Bool → ℕ → Use
  take_one : Use

abbrev pub after : Scheduler → Use → Scheduler
after s (submit alloc id) = (schedule alloc s (some id)).0
after s take_one = (take_next s).0

-- The tasks that a use puts at the end of the queue: none if it waits already, or without memory.
abbrev pub enters : Scheduler → Use → List ℕ
enters s (submit alloc id) = if (s.tasks id).scheduled then [] else if alloc then id ∷ [] else []
enters s take_one = []

abbrev pub leaves : Scheduler → Use → List ℕ
leaves s (submit alloc id) = []
leaves s take_one = elim (take_next s).1 [ none ↦ [] | some id ↦ id ∷ [] ]

abbrev pub after_all : Scheduler → List Use → Scheduler
after_all s [] = s
after_all s (u ∷ us) = after_all (after s u) us

abbrev pub entered : Scheduler → List Use → List ℕ
entered s [] = []
entered s (u ∷ us) = enters s u ++ entered (after s u) us

abbrev pub left : Scheduler → List Use → List ℕ
left s [] = []
left s (u ∷ us) = leaves s u ++ left (after s u) us

after-IsMarked : (s : Scheduler) (u : Use) → IsMarked s → IsMarked (after s u)
unfolding schedule take_next
after-IsMarked s (submit alloc id) m other =
    ground (arith, m other, m id, count-append (λ x. x == other) s.queue (id ∷ []))
after-IsMarked s take_one m id = ground (arith, m id)

after-queue : (s : Scheduler) (u : Use) → s.queue ++ enters s u ≡ leaves s u ++ (after s u).queue
unfolding schedule take_next
after-queue s (submit alloc id) = ground (arith, append_nil s.queue)
after-queue s take_one = ground (arith, append_nil s.queue)

-- Whatever is done to a scheduler whose tasks wait in the queue exactly if they are marked as
-- scheduled, and once: this stays so, and the tasks leave in the order in which they entered.
pub after_all-queue :
    (s : Scheduler) (us : List Use)
    → IsMarked s
    → IsMarked (after_all s us) × (s.queue ++ entered s us ≡ left s us ++ (after_all s us).queue)
after_all-queue s [] m = (m, append_nil s.queue)
after_all-queue s (u ∷ us) m =
    let rest = after_all-queue (after s u) us (after-IsMarked s u m) in
    (
      rest.0,
      (sym (append_assoc s.queue (enters s u) (entered (after s u) us))
          ∙ ap (λ q. q ++ entered (after s u) us) (after-queue s u)
          ∙ append_assoc (leaves s u) (after s u).queue (entered (after s u) us)
          ∙ ap (λ q. leaves s u ++ q) rest.1
          ∙ sym (append_assoc (leaves s u) (left (after s u) us) (after_all (after s u) us).queue)),
    )
