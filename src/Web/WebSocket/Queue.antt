-- ===== src/Web/WebSocket/Queue.antt =====
-- `bb_websocket_queue_frame` of modules/web/src/websocket/websocket.c and the calls built on it.
--
-- The connection's list of write buffers is a list of byte strings. Random bytes, the allocator and
-- the success of `bb_connection_buffer_add` are parameters of the call. A payload is in memory, so
-- the size of the frame does not overflow. Bytes are below 256.
use blue_bird.Prelude.{
  ℕ, ◌+◌, ◌/◌, ◌%◌, ◌^◌, Bool, List, [], ◌∷◌, ◌++◌, Option, none, some, ltb, leb, if◌then◌else◌,
  length, take, Bytes,
}
use blue_bird.Web.WebSocket.Frame.{mask_from, op_text, op_binary, op_close, op_ping, op_pong}

pub data Mode : Type 0 where
  server client : Mode

-- The loop `for (shift = 56; shift >= 0; shift -= 8)`, over the shifts.
unfoldable pub big_endian_bytes : ℕ → Bytes
big_endian_bytes n =
    n / 2 ^ 56 % 256
    ∷ n / 2 ^ 48 % 256
    ∷ n / 2 ^ 40 % 256
    ∷ n / 2 ^ 32 % 256
    ∷ n / 2 ^ 24 % 256
    ∷ n / 2 ^ 16 % 256
    ∷ n / 2 ^ 8 % 256
    ∷ n % 256
    ∷ []

-- The second byte and the extended length, with the mask bit 128 or 0.
unfoldable pub length_bytes : ℕ → ℕ → Bytes
unfolding big_endian_bytes
length_bytes mask_bit payload_length =
    if ltb payload_length 126
    then (mask_bit + payload_length) ∷ []
    else if leb payload_length 0xFFFF
    then (mask_bit + 126) ∷ payload_length / 2 ^ 8 % 256 ∷ payload_length % 256 ∷ []
    else (mask_bit + 127) ∷ big_endian_bytes payload_length

-- What is written for a frame without and with a mask.
unfoldable pub encode : Option Bytes → ℕ → Bytes → Bytes
encode none opcode payload = (128 + opcode % 16) ∷ (length_bytes 0 (length payload) ++ payload)
encode (some mask) opcode payload =
    (128 + opcode % 16) ∷ (length_bytes 128 (length payload) ++ (mask ++ mask_from mask 0 payload))

pub data Error : Type 0 where
  no_connection no_memory no_random invalid_payload : Error

pub data Queued : Type 0 where
  queued : List Bytes → Queued
  failed : Error → Queued

-- What one call finds: the write list, if there is a connection; whether the buffer is allocated;
-- the four random bytes, if they are produced; whether `bb_connection_buffer_add` succeeds.
pub record Call : Type 0 where
  pub connection : Option (List Bytes)
  pub alloc : Bool
  pub random : Option Bytes
  pub added : Bool

abbrev append : Call → List Bytes → Bytes → Queued
append c write_data out = if c.added then queued (write_data ++ out ∷ []) else failed no_memory

abbrev masked_with : Call → List Bytes → ℕ → Bytes → Option Bytes → Queued
masked_with c write_data opcode payload none = failed no_random
masked_with c write_data opcode payload (some mask) =
    append c write_data (encode (some mask) opcode payload)

abbrev on_connection : Mode → Call → ℕ → Bytes → Option (List Bytes) → Queued
on_connection mode c opcode payload none = failed no_connection
on_connection server c opcode payload (some write_data) =
    if c.alloc then append c write_data (encode none opcode payload) else failed no_memory
on_connection client c opcode payload (some write_data) =
    if c.alloc then masked_with c write_data opcode payload c.random else failed no_memory

unfoldable pub queue_frame : Mode → Call → ℕ → Bytes → Queued
queue_frame mode c opcode payload = on_connection mode c opcode payload c.connection

unfoldable pub queue_text : Mode → Call → Bytes → Queued
unfolding queue_frame
queue_text mode c text = queue_frame mode c op_text text

-- `none` is a NULL pointer, with the length beside it.
unfoldable pub queue_binary : Mode → Call → Option Bytes → ℕ → Queued
unfolding queue_frame
queue_binary mode c none len =
    if ltb 0 len then failed invalid_payload else queue_frame mode c op_binary []
queue_binary mode c (some bytes) len = queue_frame mode c op_binary (take len bytes)

unfoldable pub queue_ping : Mode → Call → Bytes → Queued
unfolding queue_frame
queue_ping mode c payload = queue_frame mode c op_ping payload

unfoldable pub queue_pong : Mode → Call → Bytes → Queued
unfolding queue_frame
queue_pong mode c payload = queue_frame mode c op_pong payload

-- The status code in network order, and at most 123 bytes of the reason.
unfoldable pub close_payload : ℕ → Option Bytes → Bytes
close_payload code none = code / 256 % 256 ∷ code % 256 ∷ []
close_payload code (some reason) = code / 256 % 256 ∷ code % 256 ∷ take 123 reason

unfoldable pub queue_close : Mode → Call → ℕ → Option Bytes → Queued
unfolding queue_frame close_payload
queue_close mode c code reason = queue_frame mode c op_close (close_payload code reason)
