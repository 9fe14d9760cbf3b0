-- ===== src/Utils/Base64.antt =====
-- modules/utils/src/encoding.c: Base64.
--
-- The data is the list of its `length` bytes; the buffer is what the loop has written so far.
pub mod Groups
mod Tests
use blue_bird.Prelude.{
  ℕ, zero, suc, ◌+◌, ◌-◌, ◌*◌, ◌/◌, ◌%◌, ◌^◌, Bool, List, [], ◌∷◌, ◌++◌, Option, none, some, ◌==◌,
  if◌then◌else◌, length, set, get_or, Bytes, codes,
}

abbrev pub base64_table : Bytes
base64_table = codes "ABCDEFGHIJKLMNOPQRSTUVWXYZabcdefghijklmnopqrstuvwxyz0123456789+/"

-- `BB_BASE64_TABLE[n & 0x3F]`
unfoldable pub table_at : ℕ → ℕ
table_at n = get_or base64_table (n % 64) 0

-- The four characters of a round; `>> k` is `/ 2 ^ k`.
unfoldable pub round : ℕ → ℕ → ℕ → Bytes
round octet_a octet_b octet_c =
    let triple = octet_a * 65536 + octet_b * 256 + octet_c in
    table_at (triple / 2 ^ 18)
    ∷ table_at (triple / 2 ^ 12)
    ∷ table_at (triple / 2 ^ 6)
    ∷ table_at triple
    ∷ []

-- The loop; an octet behind the end is 0.
unfoldable pub rounds : Bytes → Bytes
rounds [] = []
rounds (a ∷ []) = round a 0 0
rounds (a ∷ b ∷ []) = round a b 0
rounds (a ∷ b ∷ c ∷ src) = round a b c ++ rounds src

-- `mod_table[n]`
abbrev pub mod_table : ℕ → ℕ
mod_table n = if n == 0 then 0 else if n == 1 then 2 else 1

-- The loop that writes `n` times '=' (61), at the last index first.
unfoldable pub pad : ℕ → ℕ → Bytes → Bytes
pad zero last out = out
pad (suc n) last out = pad n (last - 1) (set out last 61)

-- The flag is the success of `malloc`; `none` is NULL.
unfoldable pub base64_encode : Bool → Bytes → Option Bytes
base64_encode alloc bytes =
    let output_length = 4 * ((length bytes + 2) / 3) in
    if alloc
    then some (pad (mod_table (length bytes % 3)) (output_length - 1) (rounds bytes))
    else none
