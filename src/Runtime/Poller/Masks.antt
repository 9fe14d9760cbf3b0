-- ===== src/Runtime/Poller/Masks.antt =====
-- The table as a map from descriptors to masks (modules/runtime/src/poller.c).
use blue_bird.Prelude.{
  ℕ, suc, ◌+◌, ◌≤◌, ◌≡◌, ◌⊎◌, inl, inr, refl, ap, true, List, [], ◌∷◌, ◌++◌, none, some, arith,
  ◌==◌, if◌then◌else◌, get_elem?, set, total, total-append, total-set, swap_remove,
  swap_remove-Removed, Bool-cases, zero-bit_or,
}
use Prim.Native.Nat.{bit_or}
use blue_bird.Runtime.Poller.{PollFd, find_from}

-- How often a descriptor is in the table, and its mask: 0 if it is not.
abbrev pub entries : List PollFd → ℕ → ℕ
entries fds fd = total (λ e. if e.fd == fd then 1 else 0) fds

abbrev pub mask_of : List PollFd → ℕ → ℕ
mask_of fds fd = total (λ e. if e.fd == fd then e.events else 0) fds

-- No descriptor has two entries.
abbrev pub IsTable : List PollFd → Type 0
IsTable fds = (fd : ℕ) → entries fds fd ≤ 1

no_entry : (fds : List PollFd) (fd : ℕ) → entries fds fd ≡ 0 → mask_of fds fd ≡ 0
no_entry [] fd h = refl
no_entry (e ∷ fds) fd h = ground (arith, no_entry fds fd)

-- What is found is the entry of the descriptor, and its mask is that of the table.
pub find_from-Found :
    (fds : List PollFd) (fd i : ℕ)
    → ((find_from fds fd i ≡ none) × (entries fds fd ≡ 0))
      ⊎ ((k : ℕ) × (e : PollFd) × (find_from fds fd i ≡ some (i + k))
          × (get_elem? fds k ≡ some e)
          × ((e.fd == fd) ≡ true)
          × (entries fds fd ≤ 1 → mask_of fds fd ≡ e.events))
unfolding find_from
find_from-Found [] fd i = inl (refl, refl)
find_from-Found (e ∷ fds) fd i = elim (Bool-cases (e.fd == fd)) [
  | inl t ↦ inr (0, e, ground (arith, t), refl, t, λ h. ground (arith, t, no_entry fds fd))
  | inr t ↦ elim (find_from-Found fds fd (suc i)) [
    | inl n ↦ inl (ground (arith, t, n.0), ground (arith, t, n.1))
    | inr (k, f, found, at, same, mask) ↦
        inr
          (suc k, f, rw (t, found) (ap some (omega arith)), at, same, λ h. ground (arith, t, mask))
  ]
]

-- The map after a change of the mask of one descriptor.
abbrev pub changed : (ℕ → ℕ) → ℕ → ℕ → ℕ → ℕ
changed masks fd mask g = if fd == g then mask else masks g

-- A table with this change, and still without double entries.
pub record Changed (before after : List PollFd) (fd mask : ℕ) : Type 0 where
  pub table : IsTable after
  pub masks : (g : ℕ) → mask_of after g ≡ changed (mask_of before) fd mask g

pub set-Changed :
    (fds : List PollFd) (i : ℕ) (e : PollFd) (fd mask : ℕ)
    → IsTable fds
    → get_elem? fds i ≡ some e
    → (e.fd == fd) ≡ true
    → mask_of fds fd ≡ e.events
    → Changed fds (set fds i (record e { events = mask })) fd mask
set-Changed fds i e fd mask h at same old =
    let new = record e { events = mask } in
    record {
      table = λ g. ground (arith, h g, total-set (λ x. if x.fd == g then 1 else 0) fds i new e at);
      masks = λ g.
          ground
            (arith, same, old, total-set (λ x. if x.fd == g then x.events else 0) fds i new e at);
    }

pub append-Changed :
    (fds : List PollFd) (fd events : ℕ)
    → IsTable fds
    → entries fds fd ≡ 0
    → Changed fds
        (fds ++ record { fd = fd; events = events } ∷ [])
        fd
        (bit_or (mask_of fds fd) events)
append-Changed fds fd events h absent =
    let new : PollFd = record { fd = fd; events = events } in
    record {
      table = λ g.
          ground
            (arith, h g, absent, total-append (λ x. if x.fd == g then 1 else 0) fds (new ∷ []));
      masks = λ g. ground (
        arith,
        no_entry fds fd absent,
        zero-bit_or events,
        total-append (λ x. if x.fd == g then x.events else 0) fds (new ∷ []),
      );
    }

pub remove-Changed :
    (fds : List PollFd) (i : ℕ) (e : PollFd) (fd : ℕ)
    → IsTable fds
    → get_elem? fds i ≡ some e
    → (e.fd == fd) ≡ true
    → mask_of fds fd ≡ e.events
    → Changed fds (swap_remove fds i) fd 0
remove-Changed fds i e fd h at same old =
    let r = swap_remove-Removed fds i e at in
    record {
      table = λ g. ground (arith, h g, r.sums (λ x. if x.fd == g then 1 else 0));
      masks = λ g. ground (arith, same, old, r.sums (λ x. if x.fd == g then x.events else 0));
    }
