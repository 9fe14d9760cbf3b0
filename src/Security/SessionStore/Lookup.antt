-- ===== src/Security/SessionStore/Lookup.antt =====
-- The comparison of session ids (constant_time_id_equal of modules/security/src/session_store.c).
use blue_bird.Prelude.{
  ℕ, zero, suc, ◌≡◌, ◌↔◌, refl, true, [], ◌∷◌, ◌++◌, arith, ==_iff, replicate, Bytes, bit_or_zero,
  bit_xor_zero,
}
use Prim.Native.Nat.{bit_or, bit_xor}
use blue_bird.Security.SessionStore.{diff_from, constant_time_id_equal}

-- No byte is the NUL that ends a C string.
abbrev pub NoNul : Bytes → Type 0
NoNul [] = Unit
NoNul (b ∷ bs) = (¬ b ≡ 0) × NoNul bs

-- A difference is not forgotten.
diff_before : (lookup stored : Bytes) (d : ℕ) → diff_from lookup stored d ≡ 0 → d ≡ 0
unfolding diff_from
diff_before lookup [] d h = h
diff_before [] (b ∷ stored) d h =
    ((bit_or_zero d (bit_xor 0 b)).0 (diff_before [] stored (bit_or d (bit_xor 0 b)) h)).0
diff_before (a ∷ lookup) (b ∷ stored) d h =
    ((bit_or_zero d (bit_xor a b)).0 (diff_before lookup stored (bit_or d (bit_xor a b)) h)).0

first_same : (a b d : ℕ) → bit_or d (bit_xor a b) ≡ 0 → a ≡ b
first_same a b d h = (bit_xor_zero a b).0 ((bit_or_zero d (bit_xor a b)).0 h).1

none_more : (a : ℕ) → bit_or 0 (bit_xor a a) ≡ 0
none_more a = (bit_or_zero 0 (bit_xor a a)).1 (refl, (bit_xor_zero a a).1 refl)

diff_from-same :
    (lookup id : Bytes) (k d : ℕ)
    → NoNul lookup
    → NoNul id
    → diff_from lookup (id ++ replicate (suc k) 0) d ≡ 0
    → lookup ≡ id
unfolding diff_from
diff_from-same [] [] k d n m h = refl
diff_from-same (a ∷ lookup) [] k d n m h =
    absurd (n.0 (first_same a 0 d (diff_before lookup (replicate k 0) (bit_or d (bit_xor a 0)) h)))
diff_from-same [] (b ∷ id) k d n m h =
    let e =
      first_same 0 b d (diff_before [] (id ++ replicate (suc k) 0) (bit_or d (bit_xor 0 b)) h) in
    absurd (m.0 (omega (arith, e)))
diff_from-same (a ∷ lookup) (b ∷ id) k d n m h =
    let stored = id ++ replicate (suc k) 0 in
    let e = first_same a b d (diff_before lookup stored (bit_or d (bit_xor a b)) h) in
    rw (e, diff_from-same lookup id k (bit_or d (bit_xor a b)) n.1 m.1 h) refl

diff_from-zeros : (k : ℕ) → diff_from [] (replicate k 0) 0 ≡ 0
unfolding diff_from
diff_from-zeros zero = refl
diff_from-zeros (suc k) = rw (none_more 0, diff_from) (diff_from-zeros k)

diff_from_self : (id : Bytes) (k : ℕ) → diff_from id (id ++ replicate k 0) 0 ≡ 0
unfolding diff_from
diff_from_self [] k = diff_from-zeros k
diff_from_self (b ∷ id) k = rw (none_more b, diff_from) (diff_from_self id k)

-- A C string is found equal to an id that fills the rest of its array with NUL, one at least,
-- exactly if it is that id: no prefix of it, and nothing longer.
pub constant_time_id_equal_iff :
    (lookup id : Bytes) (k : ℕ)
    → NoNul lookup
    → NoNul id
    → (constant_time_id_equal lookup (id ++ replicate (suc k) 0) ≡ true) ↔ (lookup ≡ id)
unfolding constant_time_id_equal
constant_time_id_equal_iff lookup id k n m =
    let diff = diff_from lookup (id ++ replicate (suc k) 0) 0 in
    (
      λ h. diff_from-same lookup id k 0 n m ((==_iff diff 0).0 h),
      λ e. (==_iff diff 0).1 (rw (e) (diff_from_self id (suc k))),
    )
