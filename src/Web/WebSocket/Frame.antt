-- ===== src/Web/WebSocket/Frame.antt =====
-- `bb_websocket_read_frames` of modules/web/src/websocket/websocket.c, over the connection's
-- receive buffer.
--
-- A buffer is the list of its bytes, so `buffer_length` is its length. `size_t` and `uint64_t` have
-- 64 bits: where the source adds them, the sum wraps here. Shifted bytes do not overlap, so `|` is
-- written `+`. The allocator is a parameter: whether a call for that many bytes succeeds, and
-- whether a list node is allocated. Reading or writing outside a buffer is the result
-- `out_of_bounds`.
use Prim.Native.Nat.{bit_xor}
use blue_bird.Prelude.{
  ℕ, zero, suc, ◌+◌, ◌*◌, ◌/◌, ◌%◌, ◌^◌, Bool, true, false, not, ◌&&◌, List, [], ◌∷◌, Option, none,
  some, ltb, ◌==◌, if◌then◌else◌, length, get_or, take, drop, Bytes,
}

abbrev pub word : ℕ
word = 2 ^ 64

-- bb_ws_frame_t without its `next`: a chain is a list. `payload` is without its final NUL.
pub record Frame : Type 0 where
  pub fin : ℕ
  pub opcode : ℕ
  pub masked : ℕ
  pub payload_length : ℕ
  pub masking_key : Bytes
  pub payload : Bytes

-- bb_ws_opcode_t
abbrev pub op_continuation : ℕ
op_continuation = 0x0

abbrev pub op_text : ℕ
op_text = 0x1

abbrev pub op_binary : ℕ
op_binary = 0x2

abbrev pub op_close : ℕ
op_close = 0x8

abbrev pub op_ping : ℕ
op_ping = 0x9

abbrev pub op_pong : ℕ
op_pong = 0xA

-- `((uint64_t)b0 << 8k) | … | bk`
unfoldable pub big_endian : ℕ → Bytes → ℕ
big_endian acc [] = acc
big_endian acc (b ∷ bs) = big_endian (acc * 256 + b) bs

-- The loop that xors the payload with the key, from index `i`; `i & 3` is `i % 4`.
unfoldable pub mask_from : Bytes → ℕ → Bytes → Bytes
mask_from key i [] = []
mask_from key i (b ∷ bs) = bit_xor b (get_or key (i % 4) 0) ∷ mask_from key (i + 1) bs

-- The payload length and the offset behind it; `none` if the bytes are not there yet.
unfoldable pub read_length : Bytes → Option (ℕ × ℕ)
read_length buf =
    let payload_len = get_or buf 1 0 % 128 in
    if payload_len == 126
    then (if ltb (length buf) 4 then none else some (big_endian 0 (take 2 (drop 2 buf)), 4))
    else if payload_len == 127
    then (if ltb (length buf) 10 then none else some (big_endian 0 (take 8 (drop 2 buf)), 10))
    else some (payload_len, 2)

-- The masking key, zero in a cleared frame, and the offset behind it.
unfoldable pub read_key : Bytes → ℕ → ℕ → Option (Bytes × ℕ)
read_key buf masked offset =
    if masked == 0
    then some (0 ∷ 0 ∷ 0 ∷ 0 ∷ [], offset)
    else if ltb (length buf) (offset + 4)
    then none
    else some (take 4 (drop offset buf), offset + 4)

-- One round of the loop, on the bytes that are not consumed yet: at least two.
pub data Parsed : Type 0 where
  more no_memory out_of_bounds : Parsed
  got : Frame → ℕ → Parsed

module _ (alloc : ℕ → Bool) where
  -- The rest of a round, behind the header: `offset` is its length. The C has no test of its own for
  -- `out_of_bounds`: it stands for a `memcpy` that reads behind the received bytes, which is undefined.
  unfoldable pub read_payload : Bytes → ℕ → ℕ → Bytes → ℕ → Parsed
  read_payload buf masked payload_len key offset =
      let raw = take payload_len (drop offset buf) in
      if ltb (length buf) ((offset + payload_len) % word)
      then more
      else if not (alloc ((payload_len + 1) % word))
      then no_memory
      else if ltb (length buf) (offset + payload_len)
      then out_of_bounds
      else got
          (record {
            fin = get_or buf 0 0 / 128 % 2;
            opcode = get_or buf 0 0 % 16;
            masked = masked;
            payload_length = payload_len;
            masking_key = key;
            payload = if masked == 0 then raw else mask_from key 0 raw;
          })
          (offset + payload_len)

  unfoldable pub parse : Bytes → Parsed
  parse buf =
      let masked = get_or buf 1 0 / 128 % 2 in
      elim (read_length buf) [
        | none ↦ more
        | some (payload_len, after_length) ↦ elim (read_key buf masked after_length) [
          | none ↦ more
          | some (key, offset) ↦ read_payload buf masked payload_len key offset
        ]
      ]

-- How the loop ends: the frames and the bytes that are left, or an error.
pub data Scan : Type 0 where
  stopped : List Frame → Bytes → Scan
  no_memory out_of_bounds out_of_fuel : Scan

abbrev pub prepend : Frame → Scan → Scan
prepend f (stopped fs rest) = stopped (f ∷ fs) rest
prepend f no_memory = no_memory
prepend f out_of_bounds = out_of_bounds
prepend f out_of_fuel = out_of_fuel

-- The result of the call, with the buffer that it leaves. On an error the buffer stays as it was.
pub data Read : Type 0 where
  frames : List Frame → Bytes → Read
  no_connection incomplete no_memory out_of_bounds out_of_fuel : Read

module _ (alloc : ℕ → Bool) (node : Bool) where
  -- The flag is `first`.
  unfoldable pub scan : ℕ → Bool → Bytes → Scan
  scan zero first buf = out_of_fuel
  scan (suc fuel) first buf =
      let round : Scan = elim (parse alloc buf) [
        | more ↦ stopped [] buf
        | no_memory ↦ no_memory
        | out_of_bounds ↦ out_of_bounds
        | got f consumed ↦ prepend f (scan fuel false (drop consumed buf))
      ] in
      if ltb (length buf) 2
      then stopped [] buf
      else if not first && not node
      then no_memory
      else round

  unfoldable pub read_frames : Option Bytes → Read
  read_frames none = no_connection
  read_frames (some buf) = elim (scan (length buf + 1) true buf) [
    | stopped [] rest ↦ incomplete
    | stopped (f ∷ fs) rest ↦ frames (f ∷ fs) rest
    | no_memory ↦ no_memory
    | out_of_bounds ↦ out_of_bounds
    | out_of_fuel ↦ out_of_fuel
  ]
