-- ===== src/Web/WebSocket/RoundTrip.antt =====
-- Frames that modules/web/src/websocket/websocket.c writes are read back by it.
use mathlib.Core.List.{append_assoc}
use native.Mathlib.Decide.{dec_lt}
use blue_bird.Prelude.{
  ℕ, suc, ◌+◌, ◌*◌, ◌/◌, ◌%◌, ◌^◌, ◌≤◌, ◌<◌, ◌≡◌, refl, ◌∙◌, ap, Bool, true, false, [], ◌∷◌, ◌++◌,
  Option, none, some, arith, ltb, ◌==◌, if◌then◌else◌, length, get_or, take, drop, Bytes,
  bit_xor_twice, length-append, drop-append, take-append,
}
use blue_bird.Web.WebSocket.Frame.{
  word, Frame, big_endian, mask_from, read_length, read_key, got, read_payload, parse,
}
use blue_bird.Web.WebSocket.Queue.{big_endian_bytes, length_bytes, encode}

mask_from_twice : (key : Bytes) (i : ℕ) (bs : Bytes) → mask_from key i (mask_from key i bs) ≡ bs
unfolding mask_from
mask_from_twice key i [] = refl
mask_from_twice key i (b ∷ bs) =
    rw (bit_xor_twice b (get_or key (i % 4) 0), mask_from_twice key (i + 1) bs)

pub length-mask_from : (key : Bytes) (i : ℕ) (bs : Bytes) → length (mask_from key i bs) ≡ length bs
unfolding mask_from
length-mask_from key i [] = refl
length-mask_from key i (b ∷ bs) = ap suc (length-mask_from key (i + 1) bs)

big_endian-bytes : (n : ℕ) → n < word → big_endian 0 (big_endian_bytes n) ≡ n
unfolding big_endian big_endian_bytes
big_endian-bytes n h = omega arith

big_endian_two : (n : ℕ) → n ≤ 0xFFFF → big_endian 0 (n / 2 ^ 8 % 256 ∷ n % 256 ∷ []) ≡ n
unfolding big_endian
big_endian_two n h = omega arith

-- The first byte, and the second with the mask bit and the length behind it.
abbrev header : ℕ → ℕ → ℕ → Bytes
header b0 bit n = b0 ∷ length_bytes (128 * bit) n

length-header : (b0 bit n : ℕ) → (2 ≤ length (header b0 bit n)) × (length (header b0 bit n) ≤ 10)
unfolding length_bytes
length-header b0 bit n = ground arith

-- A header is read back: the length, where it ends, and the mask bit, whatever follows it.
module _ (b0 bit n : ℕ) (is_bit : bit ≤ 1) (fits : n < word) (tail : Bytes) where
  read_length-header :
      (read_length (header b0 bit n ++ tail) ≡ some (n, length (header b0 bit n)))
      × (get_or (header b0 bit n ++ tail) 1 0 / 128 % 2 ≡ bit)
  unfolding read_length length_bytes
  read_length-header = elim (dec_lt n 126) [
    | yes short ↦ (ground arith, ground arith)
    | no long ↦ elim (dec_lt n 0x10000) [
      | yes middle ↦ (ground (arith, big_endian_two n), ground arith)
      | no huge ↦ (ground (arith, big_endian-bytes n fits), ground arith)
    ]
  ]

module _ (alloc : ℕ → Bool) (buf : Bytes) (masked n : ℕ) (key : Bytes) where
  parse-read_payload :
      (after offset : ℕ)
      → get_or buf 1 0 / 128 % 2 ≡ masked
      → read_length buf ≡ some (n, after)
      → read_key buf masked after ≡ some (key, offset)
      → parse alloc buf ≡ read_payload alloc buf masked n key offset
  unfolding parse
  parse-read_payload after offset m l k = ground arith

  read_payload-got :
      (offset : ℕ)
      → offset + n ≤ length buf
      → offset + n < word
      → n + 1 < word
      → alloc (n + 1) ≡ true
      → read_payload alloc buf masked n key offset
        ≡ got
            (record {
              fin = get_or buf 0 0 / 128 % 2;
              opcode = get_or buf 0 0 % 16;
              masked = masked;
              payload_length = n;
              masking_key = key;
              payload =
                  if masked == 0
                  then take n (drop offset buf)
                  else mask_from key 0 (take n (drop offset buf));
            })
            (offset + n)
  unfolding read_payload
  read_payload-got offset inside small small' allocated =
      let sum : (offset + n) % word ≡ offset + n = omega arith in
      let size : (n + 1) % word ≡ n + 1 = omega arith in
      let there : ltb (length buf) (offset + n) ≡ false = ground arith in
      rw (sum, size, there, allocated)

-- The frame that the reader makes of what the writer wrote.
abbrev pub written : Option Bytes → ℕ → Bytes → Frame
written none opcode payload = record {
  fin = 1;
  opcode = opcode % 16;
  masked = 0;
  payload_length = length payload;
  masking_key = 0 ∷ 0 ∷ 0 ∷ 0 ∷ [];
  payload = payload;
}
written (some mask) opcode payload = record {
  fin = 1;
  opcode = opcode % 16;
  masked = 1;
  payload_length = length payload;
  masking_key = mask;
  payload = payload;
}

abbrev pub IsKey : Option Bytes → Type 0
IsKey none = Unit
IsKey (some mask) = length mask ≡ 4

encode-header_plain :
    (opcode : ℕ) (payload rest : Bytes)
    → encode none opcode payload ++ rest
      ≡ header (128 + opcode % 16) 0 (length payload) ++ (payload ++ rest)
unfolding encode
encode-header_plain opcode payload rest =
    ap (◌∷◌ (128 + opcode % 16)) (append_assoc (length_bytes 0 (length payload)) payload rest)

encode-header_masked :
    (mask : Bytes) (opcode : ℕ) (payload rest : Bytes)
    → encode (some mask) opcode payload ++ rest
      ≡ header (128 + opcode % 16) 1 (length payload)
        ++ (mask ++ (mask_from mask 0 payload ++ rest))
unfolding encode
encode-header_masked mask opcode payload rest = simp append_assoc

length-encode_plain :
    (opcode : ℕ) (payload : Bytes)
    → length (encode none opcode payload)
      ≡ suc (length (length_bytes 0 (length payload))) + length payload
unfolding encode
length-encode_plain opcode payload =
    omega (arith, length-append (length_bytes 0 (length payload)) payload)

length-encode_masked :
    (mask : Bytes) (opcode : ℕ) (payload : Bytes)
    → length mask ≡ 4
    → length (encode (some mask) opcode payload)
      ≡ suc (length (length_bytes 128 (length payload))) + 4 + length payload
unfolding encode
length-encode_masked mask opcode payload h = omega (
  arith,
  length-append (length_bytes 128 (length payload)) (mask ++ mask_from mask 0 payload),
  length-append mask (mask_from mask 0 payload),
  length-mask_from mask 0 payload,
)

pub length-encode :
    (m : Option Bytes) (opcode : ℕ) (payload : Bytes)
    → IsKey m
    → (2 ≤ length (encode m opcode payload))
      × (length (encode m opcode payload) ≤ length payload + 14)
length-encode none opcode payload h = omega (
  arith,
  length-encode_plain opcode payload,
  length-header (128 + opcode % 16) 0 (length payload),
)
length-encode (some mask) opcode payload h = omega (
  arith,
  length-encode_masked mask opcode payload h,
  length-header (128 + opcode % 16) 1 (length payload),
)

-- What is written is read back, whatever bytes follow.
pub parse-encode :
    (alloc : ℕ → Bool) (m : Option Bytes) (opcode : ℕ) (payload rest : Bytes)
    → IsKey m
    → length payload + 14 < word
    → alloc (length payload + 1) ≡ true
    → parse alloc (encode m opcode payload ++ rest)
      ≡ got (written m opcode payload) (length (encode m opcode payload))
parse-encode alloc none opcode payload rest key small allocated =
    let n = length payload in
    let h = header (128 + opcode % 16) 0 n in
    let tail = payload ++ rest in
    let (len, bit) = read_length-header (128 + opcode % 16) 0 n (omega arith) (omega arith) tail in
    let lb = length_bytes 0 n in
    let body : take n (drop (length lb) (lb ++ tail)) ≡ payload =
      rw (drop-append lb tail (length lb) refl, take-append payload rest n refl) in
    let whole = length-encode_plain opcode payload in
    let sizes = length-header (128 + opcode % 16) 0 n in
    rw (encode-header_plain opcode payload rest) (
      parse-read_payload alloc (h ++ tail) 0 n (0 ∷ 0 ∷ 0 ∷ 0 ∷ []) (length h) (length h) bit len
        (unfold read_key in refl)
      ∙ read_payload-got alloc (h ++ tail) 0 n (0 ∷ 0 ∷ 0 ∷ 0 ∷ []) (length h)
          (omega (arith, length-append h tail, length-append payload rest)) (omega (arith, sizes))
          (omega arith) allocated
      ∙ ground (arith, body, whole))
parse-encode alloc (some mask) opcode payload rest key small allocated =
    let n = length payload in
    let b0 = 128 + opcode % 16 in
    let h = header b0 1 n in
    let lb = length_bytes 128 n in
    let masked = mask_from mask 0 payload in
    let tail = mask ++ (masked ++ rest) in
    let (len, bit) = read_length-header b0 1 n (omega arith) (omega arith) tail in
    let sizes = length-header b0 1 n in
    let kept = length-mask_from mask 0 payload in
    let long = length-append mask (masked ++ rest) in
    let all = length-append h tail in
    let front : drop (length h) (h ++ tail) ≡ tail = drop-append h tail (length h) refl in
    let behind : drop (length h + 4) (h ++ tail) ≡ masked ++ rest =
      (rw (← append_assoc h mask (masked ++ rest)) (
        drop-append (h ++ mask) (masked ++ rest) (length h + 4)
          (omega (arith, length-append h mask)))) in
    let first : take 4 (drop (length h) (h ++ tail)) ≡ mask =
      rw (front, take-append mask (masked ++ rest) 4 (omega arith)) in
    let there : ltb (length (h ++ tail)) (length h + 4) ≡ false = ground (arith, all, long) in
    let body : mask_from mask 0 (take n (drop (length h + 4) (h ++ tail))) ≡ payload =
      rw
        (behind, take-append masked rest n (omega (arith, kept)), mask_from_twice mask 0 payload) in
    let whole = length-encode_masked mask opcode payload key in
    rw (encode-header_masked mask opcode payload rest) (
      parse-read_payload alloc (h ++ tail) 1 n mask (length h) (length h + 4) bit len
        (unfold read_key in rw (there, first))
      ∙ read_payload-got alloc (h ++ tail) 1 n mask (length h + 4)
          (omega (arith, all, long, length-append masked rest, kept)) (omega (arith, sizes))
          (omega arith) allocated
      ∙ ground (arith, body, whole))
