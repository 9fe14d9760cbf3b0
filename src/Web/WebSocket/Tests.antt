-- ===== src/Web/WebSocket/Tests.antt =====
-- Runs of modules/web/src/websocket, and the theorems at concrete frames.
use blue_bird.Prelude.{
  ℕ, ◌-◌, ◌≤◌, ◌≡◌, ◌↔◌, refl, ◌^◌, inl, inr, Bool, true, false, List, [], ◌∷◌, ◌++◌, none, some,
  arith, Bytes, codes, length, ltb, replicate, take, Bool-cases,
}
use blue_bird.Web.WebSocket.Frame.{
  word, Frame, big_endian, mask_from, read_length, read_key, read_payload, out_of_bounds, got,
  parse, scan, Read, frames, read_frames, op_text, op_ping, op_close,
}
use blue_bird.Web.WebSocket.Queue.{encode, length_bytes, client, queued, queue_text}
use blue_bird.Web.WebSocket.RoundTrip.{written, parse-encode}
use blue_bird.Web.WebSocket.Stream.{Outgoing, encode_all, received, read_frames-encode_all}
use blue_bird.Web.WebSocket.Bounds.{
  HasHeader, parse-append, IsOutcome, parse-IsOutcome, IsMalloc, parse-out_of_bounds,
}
use blue_bird.Web.WebSocket.Message.{
  Message, text, binary, c_string, frame_to_message, message_create, frame_to_message-text,
  HasNoNul,
}
use blue_bird.Web.WebSocket.Session.{Session, answered, on_frames, read_done}
use blue_bird.Web.WebSocket.Session.Laws.{
  ticks, ticks-answered, answers, pings, MakesMessages, on_frames-answers,
}

abbrev malloc : ℕ → Bool
malloc n = ltb n (2 ^ 63)

malloc-IsMalloc : IsMalloc malloc
malloc-IsMalloc = record { refuses_huge = λ n e. ground arith; gives_for_zero = refl }

abbrev key : Bytes
key = 0x37 ∷ 0xfa ∷ 0x21 ∷ 0x3d ∷ []

-- The masked text frame "Hello" of RFC 6455, section 5.7.
abbrev hello : Bytes
hello = 0x81 ∷ 0x85 ∷ 0x37 ∷ 0xfa ∷ 0x21 ∷ 0x3d ∷ 0x7f ∷ 0x9f ∷ 0x4d ∷ 0x51 ∷ 0x58 ∷ []

queue_hello :
    queue_text client
      (record { connection = some []; alloc = true; random = some key; added = true })
      (codes "Hello")
    ≡ queued (hello ∷ [])
unfolding queue_text encode length_bytes mask_from
queue_hello = refl

parse-hello : parse malloc hello ≡ got (written (some key) op_text (codes "Hello")) 11
unfolding parse read_length read_key read_payload mask_from
parse-hello = refl

-- The largest length makes the reader copy past the received bytes.
abbrev attack : Bytes
attack = 0x82 ∷ 0x7f ∷ replicate 8 0xff

read_attack : read_frames malloc true (some attack) ≡ Read.out_of_bounds
unfolding read_frames scan parse read_length read_key read_payload big_endian
read_attack = refl

parse-encode_example :
    parse malloc (encode (some key) op_text (codes "Hello") ++ 1 ∷ [])
    ≡ got
        (written (some key) op_text (codes "Hello"))
        (length (encode (some key) op_text (codes "Hello")))
parse-encode_example =
    parse-encode malloc (some key) op_text (codes "Hello") (1 ∷ []) refl (omega arith) refl

abbrev first : Outgoing
first = record { mask = some key; opcode = op_text; payload = codes "Hello" }

abbrev second : Outgoing
second = record { mask = none; opcode = op_ping; payload = [] }

read_frames-encode_all_example :
    read_frames malloc true (some (encode_all (first ∷ second ∷ []) ++ 0x81 ∷ []))
    ≡ frames (received (first ∷ second ∷ [])) (0x81 ∷ [])
read_frames-encode_all_example =
    read_frames-encode_all malloc first (second ∷ []) (0x81 ∷ [])
      (refl, omega arith, refl, (tt, omega arith, refl, tt)) (inl (omega arith))

parse-append_example :
    parse malloc (hello ++ hello) ≡ got (written (some key) op_text (codes "Hello")) 11
parse-append_example = parse-append malloc hello hello _ 11 (omega arith) parse-hello

hello-HasHeader : HasHeader hello 5 key 2 6
unfolding read_length read_key
hello-HasHeader = record { length_read = refl; key_read = refl }

parse-IsOutcome_example : (2 ≤ 6) × (6 ≤ 14) × IsOutcome malloc hello 5 6 (parse malloc hello)
parse-IsOutcome_example =
    parse-IsOutcome malloc hello 5 key 2 6 (omega arith) (omega arith) hello-HasHeader

parse-out_of_bounds_example :
    (parse malloc attack ≡ out_of_bounds)
    ↔ ((key : Bytes) × (after : ℕ) × (offset : ℕ) × HasHeader attack (word - 1) key after offset)
parse-out_of_bounds_example =
    parse-out_of_bounds malloc attack malloc-IsMalloc (omega arith) (omega arith) (omega arith)

frame_to_message-text_example :
    (m : Message) × (stored : Bytes) × (frame_to_message true true
        (written none op_text (0x61 ∷ 0 ∷ []))
      ≡ some m)
    × (m.type ≡ text)
    × (m.length ≡ 2)
    × (m.content ≡ some stored)
    × ((length stored ≡ m.length) ↔ HasNoNul (0x61 ∷ 0 ∷ []))
frame_to_message-text_example =
    frame_to_message-text (written none op_text (0x61 ∷ 0 ∷ [])) refl refl

abbrev session : Session
session = record {
  heartbeat = true;
  interval_ms = 1000;
  max_missed_pongs = 2;
  missed_pongs = 1;
  waiting_for_pong = true;
  has_handler = true;
  has_pong_cb = false;
}

ticks-answered_example : ((ticks 3 (answered session)).1 ≡ true) ↔ (2 ≤ 2)
ticks-answered_example = ticks-answered 2 session (omega arith)

to_message-MakesMessages : MakesMessages (frame_to_message true true)
unfolding frame_to_message message_create
to_message-MakesMessages f (inl e) = (
  record { type = text; content = some (c_string f.payload); length = f.payload_length },
  ground arith,
)
to_message-MakesMessages f (inr e) = elim (Bool-cases (ltb 0 f.payload_length)) [
  | inl full ↦ (
    record {
      type = binary;
      content = some (take f.payload_length f.payload);
      length = f.payload_length;
    },
    ground arith,
  )
  | inr nothing ↦
      (record { type = binary; content = none; length = f.payload_length }, ground arith)
]

abbrev mixed : List Frame
mixed =
    written none op_ping (codes "a")
    ∷ written none op_text (codes "b")
    ∷ written none op_ping (codes "c")
    ∷ written none op_close []
    ∷ written none op_ping (codes "d")
    ∷ []

on_frames-answers_example :
    (answers (on_frames (frame_to_message true true) true session mixed).2 ≡ pings mixed)
    × ((on_frames (frame_to_message true true) true session mixed).1 ≡ read_done)
on_frames-answers_example =
    on_frames-answers (frame_to_message true true) true session mixed to_message-MakesMessages
