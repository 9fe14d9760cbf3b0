-- ===== src/Runtime/TimerHeap.antt =====
-- modules/runtime/src/timer_heap.c: the binary heap of timers behind the event loop.
--
-- `items` is the live part of the array, `items[0 .. count)`, so that `count` is its length; the
-- slots behind it are never read. A task pointer is its identity, a number, or `none` for NULL.
-- Heap pointers are not NULL here: on NULL each operation returns at once.
-- In the loops `none` is an index outside the live part or an exhausted fuel; Order, Up and Down
-- show that neither happens.
pub mod Order
pub mod Up
pub mod Down
pub mod Push
pub mod Remove
pub mod RemoveTask
mod Tests
use blue_bird.Prelude.{
  ℕ, zero, suc, ◌+◌, ◌-◌, ◌*◌, ◌/◌, ◌≡◌, Bool, true, false, List, [], ◌∷◌, ◌++◌, Option, none, some,
  ltb, leb, ◌==◌, if◌then◌else◌, ◌>>=◌, length, get_elem?, set, take,
}

-- bb_timer_t
pub record Timer : Type 0 where
  pub interval_ms : ℕ
  pub next_fire_ms : ℕ
  pub repeating : Bool
  pub task : ℕ

-- struct bb_timer_heap
pub record Heap : Type 0 where
  pub items : List Timer
  pub capacity : ℕ

abbrev pub initial_capacity : ℕ
initial_capacity = 16

unfoldable pub create : Heap
create = record { items = []; capacity = initial_capacity }

unfoldable pub swap : List Timer → ℕ → ℕ → Option (List Timer)
swap items a b = do
  tmp ← get_elem? items a
  other ← get_elem? items b
  some (set (set items a other) b tmp)

-- `items[a].next_fire_ms`
unfoldable pub fire_at : List Timer → ℕ → Option ℕ
fire_at items a = do t ← get_elem? items a; some t.next_fire_ms

unfoldable pub sift_up : ℕ → List Timer → ℕ → Option (List Timer)
sift_up zero items idx = none
sift_up (suc fuel) items idx =
    let parent = (idx - 1) / 2 in
    let rise : Option (List Timer) = do
      up ← fire_at items parent
      here ← fire_at items idx
      let next = swap items idx parent >>= λ swapped. sift_up fuel swapped parent
      if leb up here then some items else next
    in if ltb 0 idx then rise else some items

-- One test of the loop: a child inside the heap that fires before the smallest so far.
unfoldable pub smaller : List Timer → ℕ → ℕ → Option ℕ
smaller items child smallest =
    if ltb child (length items)
    then (do
      c ← fire_at items child
      s ← fire_at items smallest
      some (if ltb c s then child else smallest))
    else some smallest

unfoldable pub sift_down : ℕ → List Timer → ℕ → Option (List Timer)
sift_down zero items idx = none
sift_down (suc fuel) items idx = do
  left ← smaller items (2 * idx + 1) idx
  smallest ← smaller items (2 * idx + 2) left
  let next = swap items idx smallest >>= λ swapped. sift_down fuel swapped smallest
  if smallest == idx then some items else next

-- The flag is whether `realloc` succeeds.
unfoldable pub grow : Bool → Heap → Option Heap
grow true heap = some (record heap { capacity = heap.capacity * 2 })
grow false heap = none

-- `none` is the result -1, which leaves the heap as it was.
unfoldable pub push : Bool → Heap → ℕ → ℕ → Bool → Option ℕ → Option Heap
unfolding grow sift_up swap fire_at
push alloc heap next_fire_ms interval_ms repeating none = none
push alloc heap next_fire_ms interval_ms repeating (some task) = do
  room ← if leb heap.capacity (length heap.items) then grow alloc heap else some heap
  let idx = length room.items
  let timer : Timer = record {
    interval_ms = interval_ms;
    next_fire_ms = next_fire_ms;
    repeating = repeating;
    task = task;
  }
  items ← sift_up (idx + 1) (room.items ++ timer ∷ []) idx
  some (record room { items = items })

-- `none` is NULL
unfoldable pub peek : Heap → Option Timer
peek heap = get_elem? heap.items 0

unfoldable pub remove_at : List Timer → ℕ → Option (List Timer)
remove_at items idx =
    let count = length items - 1 in
    let rest = take count items in
    let refill : Option (List Timer) = do
      last ← get_elem? items count
      lowered ← sift_down (count + 1) (set rest idx last) idx
      sift_up (count + 1) lowered idx
    in if idx == count then some rest else refill

unfoldable pub pop : Heap → Option Heap
unfolding remove_at sift_up sift_down smaller swap fire_at
pop heap =
    if length heap.items == 0
    then some heap
    else do items ← remove_at heap.items 0; some (record heap { items = items })

unfoldable pub reschedule_top : Heap → ℕ → Option Heap
unfolding sift_down smaller swap fire_at
reschedule_top heap new_next_fire_ms = if length heap.items == 0 then some heap else do
  top ← get_elem? heap.items 0
  let items = set heap.items 0 (record top { next_fire_ms = new_next_fire_ms })
  settled ← sift_down (length items) items 0
  some (record heap { items = settled })

-- The loop of remove_task at index `i`, with `removed` timers taken out so far.
unfoldable pub remove_task_from : ℕ → List Timer → ℕ → ℕ → ℕ → Option (List Timer × ℕ)
remove_task_from zero items task i removed = none
remove_task_from (suc fuel) items task i removed =
    let taken = remove_at items i >>= λ rest. remove_task_from fuel rest task i (removed + 1) in
    let kept = remove_task_from fuel items task (i + 1) removed in
    let visit : Option (List Timer × ℕ) = do
      t ← get_elem? items i
      if t.task == task then taken else kept
    in if ltb i (length items) then visit else some (items, removed)

unfoldable pub remove_task : Heap → Option ℕ → Option (Heap × ℕ)
unfolding remove_task_from remove_at sift_up sift_down smaller swap fire_at
remove_task heap none = some (heap, 0)
remove_task heap (some task) = do
  (items, removed) ← remove_task_from (length heap.items + 1) heap.items task 0 0
  some (record heap { items = items }, removed)

unfoldable pub is_empty : Heap → Bool
is_empty heap = length heap.items == 0

unfoldable pub count : Heap → ℕ
count heap = length heap.items

-- `bb_timer_heap_at`, for an index that is not negative
unfoldable pub at : Heap → ℕ → Option Timer
at heap idx = if leb (length heap.items) idx then none else get_elem? heap.items idx
