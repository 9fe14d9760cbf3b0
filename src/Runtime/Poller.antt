-- ===== src/Runtime/Poller.antt =====
-- modules/runtime/src/poller.c: the table of the descriptors that are polled, and their event masks.
--
-- `fds` is the live part of the array. A descriptor and a mask are numbers, the bits of a mask
-- those of bb_event_t. The backend of the operating system is the success that it reports.
pub mod Masks
pub mod Refinement
mod Tests
use blue_bird.Prelude.{
  ℕ, zero, suc, ◌+◌, ◌*◌, Bool, true, false, not, List, [], ◌∷◌, ◌++◌, Option, none, some, ◌==◌,
  leb, if◌then◌else◌, length, get_elem?, set, swap_remove,
}
use Prim.Native.Nat.{bit_and, bit_or, bit_xor}

-- _bb_poll_fd_t
pub record PollFd : Type 0 where
  pub fd : ℕ
  pub events : ℕ

pub record Poller : Type 0 where
  pub fds : List PollFd
  pub capacity : ℕ

-- The loop of `_bb_find_fd` from index `i` on; `none` is -1.
unfoldable pub find_from : List PollFd → ℕ → ℕ → Option ℕ
find_from [] fd i = none
find_from (e ∷ fds) fd i =
    let rest = find_from fds fd (suc i) in if e.fd == fd then some i else rest

unfoldable pub find_fd : List PollFd → ℕ → Option ℕ
find_fd fds fd = find_from fds fd 0

-- `events & ~mask`
unfoldable pub without : ℕ → ℕ → ℕ
without events mask = bit_xor events (bit_and events mask)

unfoldable pub grow_fds : Bool → Poller → Option Poller
grow_fds alloc poller =
    if alloc then some (record poller { capacity = poller.capacity * 2 }) else none

-- The room for one more entry, unless the descriptor has one already.
unfoldable pub room_for : Bool → Poller → Option ℕ → Option Poller
room_for alloc poller (some idx) = some poller
room_for alloc poller none =
    if leb poller.capacity (length poller.fds) then grow_fds alloc poller else some poller

-- Entering a mask, in the entry at the index or in a new one.
unfoldable pub enter : Poller → Option ℕ → ℕ → ℕ → Poller × Bool
enter room none fd events =
    (record room { fds = room.fds ++ record { fd = fd; events = events } ∷ [] }, true)
enter room (some i) fd events = elim (get_elem? room.fds i) [
  | none ↦ (room, false)
  | some e ↦
      (record room { fds = set room.fds i (record e { events = bit_or e.events events }) }, true)
]

-- The flags are `bb_poller_fd_supported`, the success of `realloc` and that of the backend; the
-- result is whether 0 is returned, and not -1.
unfoldable pub poller_register : Bool → Bool → Bool → Poller → ℕ → ℕ → Poller × Bool
poller_register supported alloc backend poller fd events =
    let idx = find_fd poller.fds fd in
    if not supported then (poller, false) else elim (room_for alloc poller idx) [
      | none ↦ (poller, false)
      | some room ↦ if not backend then (room, false) else enter room idx fd events
    ]

unfoldable pub poller_unregister : Poller → ℕ → ℕ → Poller × Bool
poller_unregister poller fd events = elim (find_fd poller.fds fd) [
  | none ↦ (poller, false)
  | some i ↦ elim (get_elem? poller.fds i) [
    | none ↦ (poller, false)
    | some e ↦
        let left = without e.events events in
        if left == 0
        then (record poller { fds = swap_remove poller.fds i }, true)
        else (record poller { fds = set poller.fds i (record e { events = left }) }, true)
  ]
]
