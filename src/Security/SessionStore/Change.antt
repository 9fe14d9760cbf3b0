-- ===== src/Security/SessionStore/Change.antt =====
-- Creating, finding and destroying sessions (modules/security/src/session_store.c).
use blue_bird.Prelude.{
  ℕ, zero, suc, ◌+◌, ◌-◌, ◌*◌, ◌≤◌, ◌<◌, ◌≡◌, ◌⊎◌, inl, inr, refl, sym, ap, Bool, true, List, [],
  ◌∷◌, ◌++◌, none, some, arith, ◌==◌, ltb, if◌then◌else◌, Bool-cases, length, length-append,
  get_elem?, set, ltb→lt, take, count, bit, count-set, length-set, ◌∙◌, count-take_last, Bytes,
  get_elem?_total, get_elem?_bound, get_elem?-set_ne, get_elem?-set_self, ==_iff, ◌≢◌,
  get_elem?-take, length-take,
}
use blue_bird.Security.SessionStore.{
  Session, Store, zeroed, fresh, ensure_capacity, constant_time_id_equal, create, index_from, get,
  destroy,
}

-- The sessions that the store holds.
abbrev pub live : Store → List Session
live store = take store.count store.slots

abbrev pub IsWithin : Store → Type 0
IsWithin store = store.count ≤ length store.slots

pub take-set :
    (xs : List Session) (i : ℕ) (v : Session)
    → i < length xs
    → take (suc i) (set xs i v) ≡ take i xs ++ v ∷ []
take-set [] i v h = absurd (omega arith)
take-set (x ∷ xs) zero v h = refl
take-set (x ∷ xs) (suc i) v h = ap (◌∷◌ x) (take-set xs i v (omega arith))

take-longer : (xs ys : List Session) (n : ℕ) → n ≤ length xs → take n (xs ++ ys) ≡ take n xs
take-longer xs ys zero h = refl
take-longer (x ∷ xs) ys (suc n) h = ap (◌∷◌ x) (take-longer xs ys n (omega arith))
take-longer [] ys (suc n) h = absurd (omega arith)

length-fresh : (contents : ℕ → Session) (i n : ℕ) → length (fresh contents i n) ≡ n
length-fresh contents i zero = refl
length-fresh contents i (suc n) = ap suc (length-fresh contents (suc i) n)

-- With memory there is room for one more, and the sessions are the same.
ensure_capacity-room :
    (contents : ℕ → Session) (store : Store)
    → IsWithin store
    → (room : Store) × ((ensure_capacity true contents store ≡ some room)
        × ((room.count ≡ store.count)
            × ((store.count < length room.slots) × (live room ≡ live store))))
unfolding ensure_capacity
ensure_capacity-room contents store w = elim (Bool-cases (ltb store.count (length store.slots))) [
  | inl t ↦ (store, (rw (t) refl, (refl, (ltb→lt store.count (length store.slots) t, refl))))
  | inr t ↦
      let capacity = length store.slots in
      let more = (if capacity == 0 then 32 else capacity * 2) - capacity in
      let added = fresh contents capacity more in
      let positive : 0 < more = ground arith in
      (
        record store { slots = store.slots ++ added },
        (
          rw (t) refl,
          (
            refl,
            (
              omega (
                arith,
                w,
                positive,
                length-append store.slots added,
                length-fresh contents capacity more,
              ),
              take-longer store.slots added store.count w,
            ),
          ),
        ),
      )
]

-- With memory, a created session stands behind those that the store had, which stay as they are.
pub create-live :
    (contents : ℕ → Session) (store : Store) (session : Session)
    → IsWithin store
    → (after : Store) × ((create true contents store session ≡ some after)
        × (IsWithin after × (live after ≡ live store ++ session ∷ [])))
unfolding create
create-live contents store session w =
    let (room, (e, (same, (fits, kept)))) = ensure_capacity-room contents store w in
    (
      record { slots = set room.slots room.count session; count = suc room.count },
      (
        rw (e) refl,
        (
          omega (arith, same, fits, length-set room.slots room.count session),
          take-set room.slots room.count session (omega (arith, same, fits)) ∙ rw (kept) refl,
        ),
      ),
    )

take-set_behind : (xs : List Session) (n : ℕ) (v : Session) → take n (set xs n v) ≡ take n xs
take-set_behind xs zero v = refl
take-set_behind [] (suc n) v = refl
take-set_behind (x ∷ xs) (suc n) v = ap (◌∷◌ x) (take-set_behind xs n v)

take_twice : (n : ℕ) (xs : List Session) → take n xs ≡ take n (take (suc n) xs)
take_twice zero xs = refl
take_twice (suc n) [] = refl
take_twice (suc n) (x ∷ xs) = ap (◌∷◌ x) (take_twice n xs)

take-set_part :
    (n : ℕ) (xs : List Session) (k : ℕ) (v : Session)
    → take n (set xs k v) ≡ take n (set (take (suc n) xs) k v)
take-set_part zero xs k v = refl
take-set_part (suc n) [] k v = refl
take-set_part (suc n) (x ∷ xs) zero v = ap (◌∷◌ v) (take_twice n xs)
take-set_part (suc n) (x ∷ xs) (suc k) v = ap (◌∷◌ x) (take-set_part n xs k v)

index_from-find :
    (id : Bytes) (xs : List Session) (i : ℕ)
    → (index_from id xs i ≡ none)
      ⊎ ((k : ℕ) × ((s : Session) × ((index_from id xs i ≡ some (i + k))
              × ((get_elem? xs k ≡ some s) × (constant_time_id_equal id s.id ≡ true)))))
unfolding index_from
index_from-find id [] i = inl refl
index_from-find id (x ∷ xs) i = elim (Bool-cases (constant_time_id_equal id x.id)) [
  | inl t ↦ inr (0, (x, (ground (arith, t), (refl, t))))
  | inr t ↦ elim (index_from-find id xs (i + 1)) [
    | inl n ↦ inl (ground (arith, t, n))
    | inr f ↦ inr (suc f.0, (f.1.0, (rw (t, f.1.1.0) (ap some (omega arith)), f.1.1.1)))
  ]
]

-- Taking the last entry into the place of another one, and leaving out the last place.
moved_length :
    (xs : List Session) (k n : ℕ) (tail : Session)
    → length (if k == n then xs else set xs k tail) ≡ length xs
moved_length xs k n tail = ground (arith, length-set xs k tail)

count-swap_remove :
    (p : Session → Bool) (xs : List Session) (n k : ℕ) (found tail : Session) (c : ℕ)
    → c ≡ suc n
    → c ≤ length xs
    → get_elem? (take c xs) k ≡ some found
    → get_elem? xs n ≡ some tail
    → count p (take n (if k == n then xs else set xs k tail)) + bit (p found) ≡ count p (take c xs)
count-swap_remove p xs n k found tail c c_eq h' f' t =
    let h : suc n ≤ length xs = omega arith in
    let f : get_elem? (take (suc n) xs) k ≡ some found = rw (sym c_eq) f' in
    let ys = take (suc n) xs in
    let long : length ys ≡ suc n = omega (arith, h, length-take (suc n) xs) in
    let last : get_elem? ys n ≡ some tail = get_elem?-take (suc n) xs n (omega arith) ∙ t in
    elim (Bool-cases (k == n)) [
      | inl e ↦ rw (c_eq) (
          let same : some found ≡ some tail = sym f ∙ rw ((==_iff k n).0 e) last in
          rw (e, take_twice n xs) (ground (arith, same, count-take_last p n ys tail long last)))
      | inr e ↦ rw (c_eq) (
          let apart : k ≢ n = λ q. absurd (cc (e, (==_iff k n).1 q)) in
          rw (e, take-set_part n xs k tail)
            (omega (
              arith,
              count-set p ys k tail found f,
              count-take_last p n (set ys k tail) tail (length-set ys k tail ∙ long)
                  (get_elem?-set_ne ys tail apart ∙ last),
            )))
    ]

-- What destroying a session does.
pub record Destroyed (store : Store) (id : Bytes) (found : Session) (after : Store) : Type 0 where
  was_found : get store id ≡ some found
  has_id : constant_time_id_equal id found.id ≡ true
  result : destroy store id ≡ some after
  within : IsWithin after
  scrubbed : get_elem? after.slots after.count ≡ some zeroed
  others : (p : Session → Bool) → count p (live after) + bit (p found) ≡ count p (live store)

destroy_found :
    (store : Store) (id : Bytes) (k : ℕ) (found : Session)
    → IsWithin store
    → index_from id (live store) 0 ≡ some k
    → get_elem? (live store) k ≡ some found
    → constant_time_id_equal id found.id ≡ true
    → (after : Store) × Destroyed store id found after
unfolding get destroy
destroy_found store id k found w e f same =
    let n = store.count - 1 in
    let small = get_elem?_bound (live store) k found f in
    let counted : store.count ≡ suc n = omega (arith, small, length-take store.count store.slots) in
    let (tail, t) = get_elem?_total store.slots n (omega (arith, w, counted)) in
    let moved = if k == n then store.slots else set store.slots k tail in
    let long : length moved ≡ length store.slots = moved_length store.slots k n tail in
    (
      record { slots = set moved n zeroed; count = n },
      record {
        was_found =
            rw (e, get)
              (sym (
                  get_elem?-take store.count store.slots k
                    (omega (arith, small, length-take store.count store.slots)))
                ∙ f);
        has_id = same;
        result = rw (e, t, destroy) refl;
        within = omega (arith, w, counted, long, length-set moved n zeroed);
        scrubbed = get_elem?-set_self moved n zeroed (omega (arith, w, counted, long));
        others = λ p.
            rw (take-set_behind moved n zeroed)
              (count-swap_remove p store.slots n k found tail store.count counted w f t);
      },
    )

-- Destroying succeeds exactly if the id is found; then exactly the session that get returns is
-- gone, and the place behind the sessions is cleared.
pub destroy-get :
    (store : Store) (id : Bytes)
    → IsWithin store
    → ((get store id ≡ none) × (destroy store id ≡ none))
      ⊎ ((found : Session) × ((after : Store) × Destroyed store id found after))
unfolding get destroy
destroy-get store id w = elim (index_from-find id (live store) 0) [
  | inl n ↦ inl (rw (n, get) refl, rw (n, destroy) refl)
  | inr (k, (found, (e, (f, same)))) ↦
      inr (found, destroy_found store id k found w (e ∙ ap some (omega arith)) f same)
]
