-- ===== src/Web/WebSocket/Session/Laws.antt =====
-- What the heartbeat and the frame loop of modules/web/src/websocket/websocket.c guarantee.
use native.Mathlib.Decide.{dec_lt, ℕ_discrete}
use blue_bird.Prelude.{
  ℕ, zero, suc, ◌+◌, ◌≤◌, ◌<◌, ◌≡◌, refl, ◌∙◌, ap, ◌↔◌, ◌⊎◌, inl, inr, Bool, true, false, List, [],
  ◌∷◌, ◌++◌, Option, none, some, leb, ◌==◌, if◌then◌else◌, arith, Bytes,
}
use blue_bird.Web.WebSocket.Frame.{Frame, op_text, op_binary, op_close, op_ping}
use blue_bird.Web.WebSocket.Message.{Message}
use blue_bird.Web.WebSocket.Session.{
  Session, Action, send_pong, close_connection, handle, tick, read_more, read_error, read_done,
  answered, on_frame, on_frames,
}

-- Ticks with no frame in between, until the connection is closed: the session, and whether it is
-- closed.
pub ticks : ℕ → Session → Session × Bool
ticks zero s = (s, false)
ticks (suc n) s =
    let (s', actions) = tick s in
    elim actions [ close_connection ∷ _ ↦ (s', true) | _ ↦ ticks n s' ]

tick-close :
    (s : Session)
    → s.waiting_for_pong ≡ true
    → s.max_missed_pongs ≤ s.missed_pongs + 1
    → (n : ℕ) → (ticks (suc n) s).1 ≡ true
unfolding ticks tick
tick-close s w h n = ground arith

tick_idle :
    (s : Session)
    → s.waiting_for_pong ≡ false
    → (n : ℕ) → ticks (suc n) s ≡ ticks n (record s { waiting_for_pong = true })
unfolding ticks tick
tick_idle s w n = ground arith

tick_wait :
    (s : Session)
    → s.waiting_for_pong ≡ true
    → s.missed_pongs + 1 < s.max_missed_pongs
    → (n : ℕ)
    → ticks (suc n) s
      ≡ ticks n (record s { missed_pongs = s.missed_pongs + 1; waiting_for_pong = true })
unfolding ticks tick
tick_wait s w early n = ground arith

ticks_waiting :
    (n : ℕ) (s : Session)
    → s.waiting_for_pong ≡ true
    → s.missed_pongs < s.max_missed_pongs
    → (ticks n s).1 ≡ leb s.max_missed_pongs (s.missed_pongs + n)
ticks_waiting zero s w h = unfold ticks in ground arith
ticks_waiting (suc n) s w h = elim (dec_lt (s.missed_pongs + 1) s.max_missed_pongs) [
  | no last ↦ tick-close s w (omega arith) n ∙ ground arith
  | yes early ↦
      let next = record s { missed_pongs = s.missed_pongs + 1; waiting_for_pong = true } in
      ap (λ (r : Session × Bool). r.1) (tick_wait s w early n)
      ∙ ticks_waiting n next refl early
      ∙ ground arith
]

-- After a frame the connection survives as many ticks as pongs may be missed, and the next tick
-- closes it, if no other frame comes.
pub ticks-answered :
    (n : ℕ) (s : Session)
    → 0 < s.max_missed_pongs
    → ((ticks (suc n) (answered s)).1 ≡ true) ↔ (s.max_missed_pongs ≤ n)
ticks-answered n s h =
    let waiting = record (answered s) { waiting_for_pong = true } in
    let first = ap (λ (r : Session × Bool). r.1) (tick_idle (answered s) refl n) in
    let then_on = ticks_waiting n waiting refl h in ground (arith, first, then_on)

abbrev pub answers : List Action → List Bytes
answers [] = []
answers (send_pong p ∷ as') = p ∷ answers as'
answers (_ ∷ as') = answers as'

-- The payloads of the pings in front of the first close frame.
abbrev pub pings : List Frame → List Bytes
pings [] = []
pings (f ∷ fs) =
    if f.opcode == op_close
    then []
    else if f.opcode == op_ping
    then f.payload ∷ pings fs
    else pings fs

abbrev pub closes : List Frame → Bool
closes [] = false
closes (f ∷ fs) = if f.opcode == op_close then true else closes fs

answers-append : (as' bs : List Action) → answers (as' ++ bs) ≡ answers as' ++ answers bs
answers-append [] bs = refl
answers-append (handle m ∷ as') bs = answers-append as' bs
answers-append (send_pong p ∷ as') bs = ap (◌∷◌ p) (answers-append as' bs)
answers-append (_ ∷ as') bs = answers-append as' bs

module _ (to_message : Frame → Option Message) where
  -- Text and binary frames become messages.
  abbrev pub MakesMessages : Type 0
  MakesMessages =
      (f : Frame)
      → (f.opcode ≡ op_text) ⊎ (f.opcode ≡ op_binary)
      → (m : Message) × (to_message f ≡ some m)

  on_frame_lem :
      (s : Session) (f : Frame)
      → MakesMessages
      → ((on_frame to_message s f).0 ≡ (if f.opcode == op_close then some read_done else none))
        × (answers (on_frame to_message s f).1
            ≡ (if f.opcode == op_ping then f.payload ∷ [] else []))
  unfolding on_frame
  on_frame_lem s f created = elim (ℕ_discrete f.opcode op_text) [
    | yes t ↦ let (m, e) = created f (inl t) in rw t (ground (arith, e))
    | no t ↦ elim (ℕ_discrete f.opcode op_binary) [
      | yes b ↦ let (m, e) = created f (inr b) in rw b (ground (arith, e))
      | no b ↦ ground arith
    ]
  ]

module _ (to_message : Frame → Option Message) (scheduled : Bool) where
  -- Each ping in front of the first close frame is answered by a pong with its payload, in order;
  -- the call is done exactly if there is a close frame, provided that each text and binary frame
  -- becomes a message.
  pub on_frames-answers :
      (s : Session) (fs : List Frame)
      → MakesMessages to_message
      → (answers (on_frames to_message scheduled s fs).2 ≡ pings fs)
        × ((on_frames to_message scheduled s fs).1
            ≡ (if closes fs then read_done else if scheduled then read_more else read_error))
  unfolding on_frames
  on_frames-answers s [] created = (refl, refl)
  on_frames-answers s (f ∷ fs) created =
      let one = on_frame_lem to_message (answered s) f created in
      let acts = (on_frame to_message (answered s) f).1 in
      let later = (on_frames to_message scheduled (answered s) fs).2 in
      ground (arith, one, answers-append acts later, on_frames-answers (answered s) fs created)
