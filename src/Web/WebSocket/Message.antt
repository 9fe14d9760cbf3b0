-- ===== src/Web/WebSocket/Message.antt =====
-- modules/web/src/websocket/message.c, and `bb_ws_frame_to_message` of
-- modules/web/src/websocket/frame.c.
use blue_bird.Prelude.{
  ℕ, zero, suc, ◌<◌, ◌≡◌, ◌≢◌, refl, ap, ◌↔◌, Bool, true, false, [], ◌∷◌, Option, none, some, arith,
  ltb, ◌==◌, if◌then◌else◌, length, take, Bytes,
}
use blue_bird.Web.WebSocket.Frame.{Frame, op_text, op_binary, op_close, op_ping, op_pong}

-- bb_ws_message_type_t
pub data MessageType : Type 0 where
  text binary close ping pong : MessageType

-- struct bb_ws_message; `none` is a NULL `data`. For a text `data` is without its final NUL.
pub record Message : Type 0 where
  pub type : MessageType
  pub content : Option Bytes
  pub length : ℕ

-- What `bb_strdup` copies: the bytes before the first NUL, which a payload always has behind it.
unfoldable pub c_string : Bytes → Bytes
c_string [] = []
c_string (b ∷ bs) = if b == 0 then [] else b ∷ c_string bs

-- The flags are whether the message, and then the copy of the data, are allocated. A failed
-- `bb_strdup` is not looked at.
unfoldable pub message_create : Bool → Bool → MessageType → Bytes → ℕ → Option Message
unfolding c_string
message_create false copied type bytes len = none
message_create true copied text bytes len =
    some (record {
      type = text;
      content = if copied then some (c_string bytes) else none;
      length = len;
    })
message_create true copied type bytes len =
    if ltb 0 len
    then (if copied
        then some (record { type = type; content = some (take len bytes); length = len })
        else none)
    else some (record { type = type; content = none; length = len })

-- The switch on the opcode.
unfoldable pub message_type : ℕ → Option MessageType
message_type opcode =
    if opcode == op_text
    then some text
    else if opcode == op_binary
    then some binary
    else if opcode == op_close
    then some close
    else if opcode == op_ping
    then some ping
    else if opcode == op_pong
    then some pong
    else none

unfoldable pub frame_to_message : Bool → Bool → Frame → Option Message
unfolding message_type
frame_to_message allocated copied frame = elim (message_type frame.opcode) [
  | none ↦ none
  | some type ↦ message_create allocated copied type frame.payload frame.payload_length
]

take_all : (bs : Bytes) (n : ℕ) → length bs ≡ n → take n bs ≡ bs
take_all [] zero h = refl
take_all (b ∷ bs) (suc n) h = ap (◌∷◌ b) (take_all bs n (omega arith))
take_all [] (suc n) h = absurd (omega arith)
take_all (b ∷ bs) zero h = absurd (omega arith)

abbrev pub HasNoNul : Bytes → Type 0
HasNoNul [] = Unit
HasNoNul (b ∷ bs) = (b ≢ 0) × HasNoNul bs

pub length-c_string : (bs : Bytes) → (length (c_string bs) ≡ length bs) ↔ HasNoNul bs
unfolding c_string
length-c_string [] = (λ _. tt, λ _. refl)
length-c_string (b ∷ bs) = ground (arith, length-c_string bs)

-- A text frame becomes a message of the length of its payload; the stored text is that long exactly
-- if the payload has no zero byte.
pub frame_to_message-text :
    (f : Frame)
    → f.opcode ≡ op_text
    → length f.payload ≡ f.payload_length
    → (m : Message) × (stored : Bytes) × (frame_to_message true true f ≡ some m)
      × (m.type ≡ text)
      × (m.length ≡ f.payload_length)
      × (m.content ≡ some stored)
      × ((length stored ≡ m.length) ↔ HasNoNul f.payload)
unfolding frame_to_message message_create
frame_to_message-text f e sized = (
  record { type = text; content = some (c_string f.payload); length = f.payload_length },
  c_string f.payload,
  ground arith,
  refl,
  refl,
  refl,
  rw (← sized) (length-c_string f.payload),
)

-- A binary frame is copied whole; continuation frames and reserved opcodes give no message.
pub frame_to_message-binary :
    (f : Frame)
    → f.opcode ≡ op_binary
    → length f.payload ≡ f.payload_length
    → 0 < f.payload_length
    → frame_to_message true true f
      ≡ some (record { type = binary; content = some f.payload; length = f.payload_length })
unfolding frame_to_message message_create
frame_to_message-binary f e sized pos = ground (arith, take_all f.payload f.payload_length)
