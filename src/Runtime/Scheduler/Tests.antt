-- ===== src/Runtime/Scheduler/Tests.antt =====
-- The scheduler at concrete inputs.
use blue_bird.Prelude.{◌≡◌, refl, ℕ, true, false, List, [], ◌∷◌, ◌++◌}
use blue_bird.Runtime.Task.{Task}
use blue_bird.Runtime.Scheduler.{Scheduler, IsMarked, schedule, take_next}
use blue_bird.Runtime.Scheduler.Order.{
  Use, submit, take_one, after_all, entered, left, after_all-queue,
}

abbrev idle : ℕ → Task
idle id = record {
  scheduled = false;
  running = false;
  cancelled = false;
  persistent = false;
  finalized = false;
  has_run = true;
  has_cleanup = false;
}

abbrev empty : Scheduler
empty = record { queue = []; tasks = idle }

-- Task 7 is submitted twice, and waits once.
abbrev uses : List Use
uses = submit true 7 ∷ submit true 8 ∷ submit true 7 ∷ take_one ∷ submit true 9 ∷ []

after_all-queue_example :
    IsMarked (after_all empty uses)
    × (empty.queue ++ entered empty uses ≡ left empty uses ++ (after_all empty uses).queue)
after_all-queue_example = after_all-queue empty uses (λ id. refl)

left_first : left empty uses ≡ 7 ∷ []
unfolding schedule take_next
left_first = refl

waiting : (after_all empty uses).queue ≡ 8 ∷ 9 ∷ []
unfolding schedule take_next
waiting = refl
