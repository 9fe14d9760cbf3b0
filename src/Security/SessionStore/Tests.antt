-- ===== src/Security/SessionStore/Tests.antt =====
-- The session store at concrete inputs.
use blue_bird.Prelude.{
  ℕ, ◌≡◌, ◌↔◌, ◌⊎◌, refl, true, [], ◌∷◌, ◌++◌, none, some, arith, replicate, suc, Bytes,
}
use blue_bird.Security.SessionStore.{
  Session, Store, zeroed, keep_from, session_is_expired, clear, constant_time_id_equal, create, get,
  destroy, cleanup,
}
use blue_bird.Security.SessionStore.Lookup.{constant_time_id_equal_iff}
use blue_bird.Security.SessionStore.Change.{live, IsWithin, create-live, Destroyed, destroy-get}
use blue_bird.Security.SessionStore.Cleanup.{Cleaned, cleanup-Cleaned}

abbrev session : ℕ → ℕ → Session
session name expires_at = record {
  id = name ∷ replicate 63 0;
  user_id = replicate 64 0;
  expires_at = expires_at;
}

abbrev store : Store
store = record { slots = session 97 10 ∷ session 98 20 ∷ zeroed ∷ []; count = 2 }

abbrev longer : Bytes
longer = 97 ∷ 98 ∷ []

abbrev stored : Bytes
stored = 97 ∷ []

constant_time_id_equal_iff_example :
    (constant_time_id_equal longer (stored ++ replicate (suc 62) 0) ≡ true) ↔ (longer ≡ stored)
constant_time_id_equal_iff_example =
    constant_time_id_equal_iff longer stored 62
      (λ e. absurd (omega (arith, e)), (λ e. absurd (omega (arith, e)), tt))
      (λ e. absurd (omega (arith, e)), tt)

create-live_example :
    (after : Store) × ((create true (λ i. zeroed) store (session 99 30) ≡ some after)
      × (IsWithin after × (live after ≡ live store ++ session 99 30 ∷ [])))
create-live_example = create-live (λ i. zeroed) store (session 99 30) (omega arith)

destroy-get_example :
    ((get store (97 ∷ []) ≡ none) × (destroy store (97 ∷ []) ≡ none))
    ⊎ ((found : Session) × ((after : Store) × Destroyed store (97 ∷ []) found after))
destroy-get_example = destroy-get store (97 ∷ []) (omega arith)

cleanup-Cleaned_example : (after : Store) × Cleaned 10 store after
cleanup-Cleaned_example = cleanup-Cleaned 10 store (omega arith)

-- A session that expires now has expired.
cleaned :
    cleanup 10 store ≡ some (record { slots = session 98 20 ∷ zeroed ∷ zeroed ∷ []; count = 1 })
unfolding cleanup keep_from session_is_expired clear
cleaned = refl
