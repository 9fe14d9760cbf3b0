-- ===== src/Runtime/Poller/Refinement.antt =====
-- The table refines a map from descriptors to masks (bb_poller_register and bb_poller_unregister of
-- modules/runtime/src/poller.c).
use mathlib.Core.Path.{fun_ext}
use blue_bird.Prelude.{
  ℕ, ◌≡◌, ◌⊎◌, inl, inr, refl, sym, ap, ◌∙◌, Bool, true, false, List, [], ◌∷◌, ◌++◌, Option, none,
  some, arith, ◌==◌, get_elem?, set, swap_remove, Bool-cases, ==_iff, Option-cases,
}
use Prim.Native.Nat.{bit_or}
use blue_bird.Runtime.Poller.{
  PollFd, Poller, find_fd, enter, without, grow_fds, room_for, poller_register, poller_unregister,
}
use blue_bird.Runtime.Poller.Masks.{
  entries, mask_of, IsTable, find_from-Found, changed, Changed, set-Changed, append-Changed,
  remove-Changed,
}

-- A call, with what the system reports for it.
pub data Request : Type 0 where
  register_fd : Bool → Bool → Bool → ℕ → ℕ → Request
  unregister_fd : ℕ → ℕ → Request

abbrev pub serve : Poller → Request → Poller × Bool
serve poller (register_fd supported alloc backend fd events) =
    poller_register supported alloc backend poller fd events
serve poller (unregister_fd fd events) = poller_unregister poller fd events

-- What the result of a call promises about the map.
abbrev pub promised : Request → Bool → (ℕ → ℕ) → ℕ → ℕ
promised request false masks = masks
promised (register_fd supported alloc backend fd events) true masks =
    changed masks fd (bit_or (masks fd) events)
promised (unregister_fd fd events) true masks = changed masks fd (without (masks fd) events)

-- A call keeps the table and its promise.
abbrev Kept : Poller → Request → Poller × Bool → Type 0
Kept poller request (after, ok) =
    IsTable after.fds × (mask_of after.fds ≡ promised request ok (mask_of poller.fds))

of_Changed :
    (poller : Poller) (request : Request) (after : List PollFd) (capacity fd mask : ℕ)
    → Changed poller.fds after fd mask
    → promised request true (mask_of poller.fds) ≡ changed (mask_of poller.fds) fd mask
    → Kept poller request (record { fds = after; capacity = capacity }, true)
of_Changed poller request after capacity fd mask c e = (c.table, fun_ext c.masks ∙ sym e)

room_for-same :
    (alloc : Bool) (poller room : Poller) (idx : Option ℕ)
    → room_for alloc poller idx ≡ some room
    → room.fds ≡ poller.fds
unfolding room_for grow_fds
room_for-same alloc poller room none h = ground (arith, h)
room_for-same alloc poller room (some i) h = ground (arith, h)

found :
    (poller : Poller) (fd : ℕ)
    → IsTable poller.fds
    → ((find_fd poller.fds fd ≡ none) × (entries poller.fds fd ≡ 0))
      ⊎ ((i : ℕ) × (e : PollFd) × (find_fd poller.fds fd ≡ some i)
          × (get_elem? poller.fds i ≡ some e)
          × ((e.fd == fd) ≡ true)
          × (mask_of poller.fds fd ≡ e.events))
unfolding find_fd
found poller fd h = elim (find_from-Found poller.fds fd 0) [
  | inl n ↦ inl n
  | inr (k, e, f, at, same, mask) ↦ inr (k, e, f ∙ ap some (omega arith), at, same, mask (h fd))
]

unregister-Kept :
    (poller : Poller) (fd events : ℕ)
    → IsTable poller.fds
    → Kept poller (unregister_fd fd events) (poller_unregister poller fd events)
unfolding poller_unregister
unregister-Kept poller fd events h = elim (found poller fd h) [
  | inl (n, absent) ↦ rw (n, poller_unregister) (h, refl)
  | inr (i, e, f, at, same, mask) ↦
      let left = without e.events events in
      let request = unregister_fd fd events in
      let spec : promised request true (mask_of poller.fds) ≡ changed (mask_of poller.fds) fd left =
        ap (λ m. changed (mask_of poller.fds) fd (without m events)) mask in
      elim (Bool-cases (left == 0)) [
        | inl z ↦
            rw (f, at, z, poller_unregister)
              (of_Changed poller request (swap_remove poller.fds i) poller.capacity fd 0
                (remove-Changed poller.fds i e fd h at same mask)
                (spec ∙ ap (changed (mask_of poller.fds) fd) ((==_iff left 0).0 z)))
        | inr z ↦
            rw (f, at, z, poller_unregister)
              (of_Changed poller request (set poller.fds i (record e { events = left }))
                poller.capacity fd left (set-Changed poller.fds i e fd left h at same mask) spec)
      ]
]

enter-Kept :
    (poller room : Poller) (fd events : ℕ) (request : Request)
    → IsTable poller.fds
    → room.fds ≡ poller.fds
    → promised request true (mask_of poller.fds)
      ≡ changed (mask_of poller.fds) fd (bit_or (mask_of poller.fds fd) events)
    → Kept poller request (enter room (find_fd poller.fds fd) fd events)
unfolding enter
enter-Kept poller room fd events request h same_fds spec = elim (found poller fd h) [
  | inl (n, absent) ↦
      rw (n, same_fds)
        (of_Changed poller request (poller.fds ++ record { fd = fd; events = events } ∷ [])
          room.capacity fd (bit_or (mask_of poller.fds fd) events)
          (append-Changed poller.fds fd events h absent) spec)
  | inr (i, e, f, at, same, mask) ↦
      let merged = bit_or e.events events in
      rw (f, enter)
        (rw (same_fds, at)
          (rw same_fds (
            of_Changed poller request (set poller.fds i (record e { events = merged }))
              room.capacity fd merged (set-Changed poller.fds i e fd merged h at same mask)
              (spec ∙ ap (λ m. changed (mask_of poller.fds) fd (bit_or m events)) mask))))
]

register-Kept :
    (supported alloc backend : Bool) (poller : Poller) (fd events : ℕ)
    → IsTable poller.fds
    → Kept poller
        (register_fd supported alloc backend fd events)
        (poller_register supported alloc backend poller fd events)
unfolding poller_register
register-Kept false alloc backend poller fd events h = (h, refl)
register-Kept true alloc backend poller fd events h =
    elim (Option-cases (room_for alloc poller (find_fd poller.fds fd))) [
      | inl n ↦ rw (n, poller_register) (h, refl)
      | inr (room, r) ↦
          let same = room_for-same alloc poller room (find_fd poller.fds fd) r in
          entered backend room r same
    ]
  where
    entered :
        (backend : Bool) (room : Poller)
        → room_for alloc poller (find_fd poller.fds fd) ≡ some room
        → room.fds ≡ poller.fds
        → Kept poller
            (register_fd true alloc backend fd events)
            (poller_register true alloc backend poller fd events)
    entered false room r same =
        unfold poller_register in rw (r, poller_register) (rw same (h, refl))
    entered true room r same =
        unfold poller_register in
        rw (r, poller_register)
          (enter-Kept poller room fd events (register_fd true alloc true fd events) h same refl)

pub serve-Kept :
    (poller : Poller) (request : Request)
    → IsTable poller.fds
    → Kept poller request (serve poller request)
serve-Kept poller (register_fd supported alloc backend fd events) h =
    register-Kept supported alloc backend poller fd events h
serve-Kept poller (unregister_fd fd events) h = unregister-Kept poller fd events h

-- A run of calls: the poller, and the results.
abbrev pub serve_all : Poller → List Request → Poller
serve_all poller [] = poller
serve_all poller (r ∷ rs) = serve_all (serve poller r).0 rs

abbrev pub promised_all : Poller → List Request → (ℕ → ℕ) → ℕ → ℕ
promised_all poller [] masks = masks
promised_all poller (r ∷ rs) masks =
    promised_all (serve poller r).0 rs (promised r (serve poller r).1 masks)

-- Whatever is registered and unregistered: no descriptor has two entries, and the mask of each is
-- what the calls that succeeded make of it, a call that failed nothing.
pub serve_all-promised_all :
    (poller : Poller) (rs : List Request)
    → IsTable poller.fds
    → IsTable (serve_all poller rs).fds
      × (mask_of (serve_all poller rs).fds ≡ promised_all poller rs (mask_of poller.fds))
serve_all-promised_all poller [] h = (h, refl)
serve_all-promised_all poller (r ∷ rs) h =
    let (table, masks) = serve-Kept poller r h in
    let rest = serve_all-promised_all (serve poller r).0 rs table in
    (rest.0, rest.1 ∙ ap (promised_all (serve poller r).0 rs) masks)
