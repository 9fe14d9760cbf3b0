-- ===== src/Security/SessionStore/Cleanup.antt =====
-- Removing the sessions that have expired (_bb_session_store_cleanup of
-- modules/security/src/session_store.c).
use blue_bird.Prelude.{
  ℕ, zero, suc, ◌+◌, ◌-◌, ◌≤◌, ◌<◌, ◌≡◌, inl, inr, refl, sym, ap, ◌∙◌, List, [], ◌∷◌, ◌++◌, some,
  arith, ltb, ltb→lt, if◌then◌else◌, Bool-cases, length, length-set, get_elem?, get_elem?_total,
  get_elem?-set_self, get_elem?-set_ne, set, take, drop, append_nil, append_assoc,
}
use blue_bird.Security.SessionStore.{
  Session, Store, zeroed, session_is_expired, keep_from, clear, cleanup,
}
use blue_bird.Security.SessionStore.Change.{live, IsWithin, take-set}
use blue_bird.Prelude.{◌⊎◌}

-- The sessions of a list that have not expired, in order.
abbrev pub unexpired : ℕ → List Session → List Session
unexpired now [] = []
unexpired now (s ∷ ss) = if session_is_expired s now then unexpired now ss else s ∷ unexpired now ss

drop-get_elem? :
    (xs : List Session) (i n : ℕ) (s : Session)
    → get_elem? xs i ≡ some s
    → take (suc n) (drop i xs) ≡ s ∷ take n (drop (suc i) xs)
drop-get_elem? [] i n s h = absurd (cc)
drop-get_elem? (x ∷ xs) zero n s h = ground (arith, h)
drop-get_elem? (x ∷ xs) (suc i) n s h = drop-get_elem? xs i n s h

drop-set : (xs : List Session) (j i : ℕ) (v : Session) → j < i → drop i (set xs j v) ≡ drop i xs
drop-set [] j i v h = refl
drop-set (x ∷ xs) zero (suc i) v h = refl
drop-set (x ∷ xs) (suc j) (suc i) v h = drop-set xs j i v (omega arith)
drop-set (x ∷ xs) zero zero v h = absurd (omega arith)
drop-set (x ∷ xs) (suc j) zero v h = absurd (omega arith)

-- What the loop returns: an array of the same length, whose first entries are those in front of
-- `j` and the unexpired ones from index `i` on.
record Kept (now n i j : ℕ) (slots after : List Session) (last : ℕ) : Type 0 where
  same_length : length after ≡ length slots
  below : last ≤ j + n
  sessions : take last after ≡ take j slots ++ unexpired now (take n (drop i slots))

keep_from-Kept :
    (now n i j : ℕ) (slots : List Session)
    → j ≤ i
    → i + n ≤ length slots
    → (after : List Session) × ((last : ℕ) × ((keep_from now n i j slots ≡ some (after, last))
          × Kept now n i j slots after last))
unfolding keep_from
keep_from-Kept now zero i j slots b h = (
  slots,
  (
    j,
    (
      refl,
      record {
        same_length = refl;
        below = omega arith;
        sessions = sym (append_nil (take j slots));
      },
    ),
  ),
)
keep_from-Kept now (suc n) i j slots b h =
    let (s, e) = get_elem?_total slots i (omega arith) in
    elim (Bool-cases (session_is_expired s now)) [
      | inl t ↦
          let (after, (last, (r, k))) =
            keep_from-Kept now n (suc i) j slots (omega arith) (omega arith) in
          (
            after,
            (
              last,
              (
                rw (e, keep_from) (rw (t) r),
                record {
                  same_length = k.same_length;
                  below = omega (arith, k.below);
                  sessions = k.sessions ∙ rw (drop-get_elem? slots i n s e, t) refl;
                },
              ),
            ),
          )
      | inr t ↦
          let (after, (last, (r, k))) =
            keep_from-Kept now n (suc i) (suc j) (set slots j s) (omega arith)
              (omega (arith, length-set slots j s)) in
          (
            after,
            (
              last,
              (
                rw (e, keep_from) (rw (t) r),
                record {
                  same_length = k.same_length ∙ length-set slots j s;
                  below = omega (arith, k.below);
                  sessions =
                      k.sessions
                      ∙ rw
                          (
                            take-set slots j s (omega arith),
                            drop-set slots j (suc i) s (omega arith),
                            drop-get_elem? slots i n s e,
                            t,
                          )
                          (append_assoc (take j slots) (s ∷ [])
                            (unexpired now (take n (drop (suc i) slots))));
                },
              ),
            ),
          )
    ]

length-clear : (n j : ℕ) (slots : List Session) → length (clear n j slots) ≡ length slots
unfolding clear
length-clear zero j slots = refl
length-clear (suc n) j slots =
    length-clear n (suc j) (set slots j zeroed) ∙ length-set slots j zeroed

get_elem?-clear_outside :
    (n j i : ℕ) (slots : List Session)
    → (i < j) ⊎ (j + n ≤ i)
    → get_elem? (clear n j slots) i ≡ get_elem? slots i
unfolding clear
get_elem?-clear_outside zero j i slots h = refl
get_elem?-clear_outside (suc n) j i slots h =
    get_elem?-clear_outside n (suc j) i (set slots j zeroed) (ground (arith, h))
    ∙ get_elem?-set_ne slots zeroed (ground (arith, h))

get_elem?-clear :
    (n j i : ℕ) (slots : List Session)
    → j ≤ i
    → i < j + n
    → j + n ≤ length slots
    → get_elem? (clear n j slots) i ≡ some zeroed
unfolding clear
get_elem?-clear zero j i slots a b c = absurd (omega arith)
get_elem?-clear (suc n) j i slots a b c = elim (Bool-cases (ltb j i)) [
  | inl t ↦
      get_elem?-clear n (suc j) i (set slots j zeroed) (ltb→lt j i t) (omega arith)
        (omega (arith, length-set slots j zeroed))
  | inr t ↦
      let e : i ≡ j = ground (arith, t) in
      rw (e) (
        get_elem?-clear_outside n (suc j) j (set slots j zeroed) (inl (omega arith))
        ∙ get_elem?-set_self slots j zeroed (omega arith))
]

take-set_before :
    (m : ℕ) (xs : List Session) (j : ℕ) (v : Session) → m ≤ j → take m (set xs j v) ≡ take m xs
take-set_before zero xs j v h = refl
take-set_before (suc m) [] j v h = refl
take-set_before (suc m) (x ∷ xs) (suc j) v h = ap (◌∷◌ x) (take-set_before m xs j v (omega arith))
take-set_before (suc m) (x ∷ xs) zero v h = absurd (omega arith)

take-clear : (n m j : ℕ) (slots : List Session) → m ≤ j → take m (clear n j slots) ≡ take m slots
unfolding clear
take-clear zero m j slots h = refl
take-clear (suc n) m j slots h =
    take-clear n m (suc j) (set slots j zeroed) (omega arith) ∙ take-set_before m slots j zeroed h

-- What cleaning up does.
pub record Cleaned (now : ℕ) (store after : Store) : Type 0 where
  result : cleanup now store ≡ some after
  no_more : after.count ≤ store.count
  same_capacity : length after.slots ≡ length store.slots
  sessions : live after ≡ unexpired now (live store)
  scrubbed : (i : ℕ) → after.count ≤ i → i < store.count → get_elem? after.slots i ≡ some zeroed

-- Cleaning up keeps exactly the sessions that have not expired, in order, and clears every place
-- that they leave.
pub cleanup-Cleaned :
    (now : ℕ) (store : Store) → IsWithin store → (after : Store) × Cleaned now store after
unfolding cleanup
cleanup-Cleaned now store w =
    let (slots, (j, (r, k))) =
      keep_from-Kept now store.count 0 0 store.slots (omega arith) (omega (arith, w)) in
    let n = store.count - j in
    elim (Bool-cases (ltb j store.count)) [
      | inl t ↦ (
        record { slots = clear n j slots; count = j },
        record {
          result = rw (r, cleanup) (rw (t) refl);
          no_more = omega (arith, k.below);
          same_capacity = length-clear n j slots ∙ k.same_length;
          sessions = take-clear n j j slots (omega arith) ∙ k.sessions;
          scrubbed = λ i a b.
              get_elem?-clear n j i slots a (omega arith)
                (omega (arith, w, k.same_length, k.below));
        },
      )
      | inr t ↦ (
        record { slots = slots; count = j },
        record {
          result = rw (r, cleanup) (rw (t) refl);
          no_more = omega (arith, k.below);
          same_capacity = k.same_length;
          sessions = k.sessions;
          scrubbed = λ i a b. absurd (ground (arith, t, a, b));
        },
      )
    ]
