-- ===== src/Security/SessionStore.antt =====
-- modules/security/src/session_store.c: the table of sessions in memory.
--
-- `slots` is the allocated array, so that its length is the capacity; the sessions are its first
-- `count` entries. Times are seconds, not before the epoch. A lookup is a C string. In the loops
-- `none` is an access outside the array.
pub mod Lookup
pub mod Change
pub mod Cleanup
mod Tests
use blue_bird.Prelude.{
  ℕ, zero, suc, ◌+◌, ◌-◌, ◌*◌, Bool, true, false, not, List, [], ◌∷◌, ◌++◌, Option, none, some,
  ◌>>=◌, ◌==◌, ltb, leb, if◌then◌else◌, length, get_elem?, set, take, replicate, Bytes,
}
use Prim.Native.Nat.{bit_or, bit_xor}

abbrev pub session_id_size : ℕ
session_id_size = 64

abbrev pub user_id_size : ℕ
user_id_size = 64

abbrev pub initial_capacity : ℕ
initial_capacity = 32

-- `id` and `user_id` are the whole arrays.
pub record Session : Type 0 where
  pub id : Bytes
  pub user_id : Bytes
  pub expires_at : ℕ

pub record Store : Type 0 where
  pub slots : List Session
  pub count : ℕ

-- The bytes of a session after `memset`.
abbrev pub zeroed : Session
zeroed = record {
  id = replicate session_id_size 0;
  user_id = replicate user_id_size 0;
  expires_at = 0;
}

-- What `realloc` adds to the array has any contents.
abbrev pub fresh : (ℕ → Session) → ℕ → ℕ → List Session
fresh contents i zero = []
fresh contents i (suc n) = contents i ∷ fresh contents (suc i) n

-- The flag is the success of `realloc`; `none` is BB_ERR_ALLOC.
unfoldable pub ensure_capacity : Bool → (ℕ → Session) → Store → Option Store
ensure_capacity alloc contents store =
    let capacity = length store.slots in
    let new_cap = if capacity == 0 then initial_capacity else capacity * 2 in
    if ltb store.count capacity
    then some store
    else if alloc
    then some (record store { slots = store.slots ++ fresh contents capacity (new_cap - capacity) })
    else none

-- The loop that collects the differences. The rest of `lookup` is empty from its NUL on.
unfoldable pub diff_from : Bytes → Bytes → ℕ → ℕ
diff_from lookup [] diff = diff
diff_from [] (b ∷ stored) diff = diff_from [] stored (bit_or diff (bit_xor 0 b))
diff_from (a ∷ lookup) (b ∷ stored) diff = diff_from lookup stored (bit_or diff (bit_xor a b))

unfoldable pub constant_time_id_equal : Bytes → Bytes → Bool
constant_time_id_equal lookup stored = diff_from lookup stored 0 == 0

unfoldable pub session_is_expired : Session → ℕ → Bool
session_is_expired session now = leb session.expires_at now

-- `_bb_session_store_create`; `none` is the error.
unfoldable pub create : Bool → (ℕ → Session) → Store → Session → Option Store
unfolding ensure_capacity
create alloc contents store session = do
  room ← ensure_capacity alloc contents store
  some (record { slots = set room.slots room.count session; count = suc room.count })

-- The index of the first session with the id, in the loops of get and destroy, from index `i` on.
unfoldable pub index_from : Bytes → List Session → ℕ → Option ℕ
index_from id [] i = none
index_from id (s ∷ sessions) i =
    let rest = index_from id sessions (i + 1) in
    if constant_time_id_equal id s.id then some i else rest

-- `_bb_session_store_get`; `none` is BB_ERR_SESSION_NOT_FOUND.
unfoldable pub get : Store → Bytes → Option Session
get store id = index_from id (take store.count store.slots) 0 >>= λ i. get_elem? store.slots i

-- `_bb_session_store_destroy`; `none` is BB_ERR_SESSION_NOT_FOUND.
unfoldable pub destroy : Store → Bytes → Option Store
destroy store id = do
  i ← index_from id (take store.count store.slots) 0
  let last = store.count - 1
  tail ← get_elem? store.slots last
  let moved = if i == last then store.slots else set store.slots i tail
  some (record { slots = set moved last zeroed; count = last })

-- The loop of cleanup: `n` sessions are left to visit, at index `i`.
unfoldable pub keep_from : ℕ → ℕ → ℕ → ℕ → List Session → Option (List Session × ℕ)
keep_from now zero i j slots = some (slots, j)
keep_from now (suc n) i j slots = do
  s ← get_elem? slots i
  if session_is_expired s now
      then keep_from now n (suc i) j slots
      else keep_from now n (suc i) (suc j) (set slots j s)

-- `memset` of `n` sessions from index `j` on
unfoldable pub clear : ℕ → ℕ → List Session → List Session
clear zero j slots = slots
clear (suc n) j slots = clear n (suc j) (set slots j zeroed)

-- `_bb_session_store_cleanup` at the time `now`.
unfoldable pub cleanup : ℕ → Store → Option Store
cleanup now store = do
  (slots, j) ← keep_from now store.count 0 0 store.slots
  let cleared = if ltb j store.count then clear (store.count - j) j slots else slots
  some (record { slots = cleared; count = j })

unfoldable pub store_count : Store → ℕ
store_count store = store.count
