-- ===== src/Web/WebSocket/Stream.antt =====
-- The loop of `bb_websocket_read_frames` over a whole buffer
-- (modules/web/src/websocket/websocket.c).
use mathlib.Core.List.{append_assoc}
use blue_bird.Prelude.{
  ℕ, zero, suc, ◌+◌, ◌≤◌, ◌<◌, ◌≡◌, refl, ◌∙◌, ap, ◌⊎◌, inl, inr, Bool, true, false, List, [], ◌∷◌,
  ◌++◌, Option, some, arith, length, drop, map, Bytes, length-append, drop-append,
}
use blue_bird.Web.WebSocket.Frame.{
  word, Frame, more, got, parse, stopped, prepend, scan, frames, read_frames,
}
use blue_bird.Web.WebSocket.Queue.{encode}
use blue_bird.Web.WebSocket.RoundTrip.{IsKey, written, length-encode, parse-encode}

-- A frame to send: its mask, if any, its opcode and its payload.
pub record Outgoing : Type 0 where
  pub mask : Option Bytes
  pub opcode : ℕ
  pub payload : Bytes

abbrev pub encode_all : List Outgoing → Bytes
encode_all [] = []
encode_all (f ∷ fs) = encode f.mask f.opcode f.payload ++ encode_all fs

abbrev pub received : List Outgoing → List Frame
received = map (λ f. written f.mask f.opcode f.payload)

module _ (alloc : ℕ → Bool) where
  -- The mask has four bytes, the frame fits in memory, and its payload is allocated.
  abbrev pub AreSendable : List Outgoing → Type 0
  AreSendable [] = Unit
  AreSendable (f ∷ fs) =
      IsKey f.mask
      × (length f.payload + 14 < word)
      × (alloc (length f.payload + 1) ≡ true)
      × AreSendable fs

  -- These bytes are no complete frame yet.
  abbrev pub IsPartial : Bytes → Type 0
  IsPartial buf = (length buf < 2) ⊎ (parse alloc buf ≡ more)

  -- One round of the loop.
  scan_partial :
      (fuel : ℕ) (first : Bool) (buf : Bytes)
      → IsPartial buf
      → scan alloc true (suc fuel) first buf ≡ stopped [] buf
  unfolding scan
  scan_partial fuel first buf (inl short) = ground arith
  scan_partial fuel first buf (inr e) = ground arith

  scan-got :
      (fuel : ℕ) (first : Bool) (buf : Bytes) (f : Frame) (n : ℕ)
      → 2 ≤ length buf
      → parse alloc buf ≡ got f n
      → scan alloc true (suc fuel) first buf ≡ prepend f (scan alloc true fuel false (drop n buf))
  unfolding scan
  scan-got fuel first buf f n h e = ground arith

  scan-encode_all :
      (fs : List Outgoing) (fuel : ℕ) (first : Bool) (rest : Bytes)
      → length (encode_all fs ++ rest) < fuel
      → AreSendable fs
      → IsPartial rest
      → scan alloc true fuel first (encode_all fs ++ rest) ≡ stopped (received fs) rest
  scan-encode_all fs zero first rest f s p = absurd (omega arith)
  scan-encode_all [] (suc fuel) first rest f s p = scan_partial fuel first rest p
  scan-encode_all (g ∷ fs) (suc fuel) first rest f (key, small, allocated, s) p =
      let e = encode g.mask g.opcode g.payload in
      let tail = encode_all fs ++ rest in
      let sizes = length-encode g.mask g.opcode g.payload key in
      let all = length-append e tail in
      let split = append_assoc e (encode_all fs) rest in
      rw split (
        scan-got fuel first (e ++ tail) (written g.mask g.opcode g.payload) (length e)
          (omega (arith, all, sizes))
          (parse-encode alloc g.mask g.opcode g.payload tail key small allocated)
        ∙ rw (drop-append e tail (length e) refl) (
            ap (prepend (written g.mask g.opcode g.payload)) (
              scan-encode_all fs fuel false rest (omega (arith, all, sizes, ap length split)) s p)))

  -- Frames written one behind the other are read back, all and in order, and the bytes of an
  -- incomplete frame behind them stay in the buffer.
  pub read_frames-encode_all :
      (f : Outgoing) (fs : List Outgoing) (rest : Bytes)
      → AreSendable (f ∷ fs)
      → IsPartial rest
      → read_frames alloc true (some (encode_all (f ∷ fs) ++ rest))
        ≡ frames (received (f ∷ fs)) rest
  unfolding read_frames
  read_frames-encode_all f fs rest s p =
      let run =
        scan-encode_all (f ∷ fs) (length (encode_all (f ∷ fs) ++ rest) + 1) true rest (omega arith)
          s p in
      rw (run, read_frames)
