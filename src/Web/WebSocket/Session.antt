-- ===== src/Web/WebSocket/Session.antt =====
-- The life of a WebSocket connection: the heartbeat and the handling of received frames
-- (`_bb_websocket_heartbeat_tick`, `bb_websocket_set_heartbeat` and `_websocket_read_step` of
-- modules/web/src/websocket/websocket.c).
--
-- What a call does to the outside is a list of actions, in order: callbacks, and calls that send or
-- close. Their results do not change what follows, except where a flag below says so.
pub mod Laws
use blue_bird.Prelude.{
  ℕ, zero, suc, ◌+◌, Bool, true, false, ◌&&◌, List, [], ◌∷◌, ◌++◌, Option, none, some, ltb, leb,
  ◌==◌, if◌then◌else◌, Bytes,
}
use blue_bird.Web.WebSocket.Frame.{
  Frame, op_text, op_binary, op_close, op_ping, op_pong, Read, frames, no_connection, incomplete,
  no_memory, out_of_bounds, out_of_fuel,
}
use blue_bird.Web.WebSocket.Message.{Message, frame_to_message}

-- The fields of bb_websocket_t that the heartbeat uses, and which callbacks are set.
pub record Session : Type 0 where
  pub heartbeat : Bool
  pub interval_ms : ℕ
  pub max_missed_pongs : ℕ
  pub missed_pongs : ℕ
  pub waiting_for_pong : Bool
  pub has_handler : Bool
  pub has_pong_cb : Bool

pub data Action : Type 0 where
  handle : Message → Action
  send_pong : Bytes → Action
  on_pong : Bytes → Action
  send_close : ℕ → Action
  send_ping : Action
  close_connection : Action
  start_timer : ℕ → Action
  cancel_timer : Action

-- `bb_websocket_set_heartbeat`; the flag is whether the timer is created.
unfoldable pub set_heartbeat : Bool → Session → ℕ → ℕ → Session × List Action
set_heartbeat created s interval_ms max_missed_pongs =
    let wanted = ltb 0 max_missed_pongs && ltb 0 interval_ms in
    let cancelled = if s.heartbeat then cancel_timer ∷ [] else [] in
    (
      record s {
        heartbeat = wanted && created;
        interval_ms = interval_ms;
        max_missed_pongs = max_missed_pongs;
        missed_pongs = 0;
        waiting_for_pong = false;
      },
      cancelled ++ (if wanted then start_timer interval_ms ∷ [] else []),
    )

-- `_bb_websocket_heartbeat_tick` on a connection. A counter below a 32-bit limit does not wrap.
unfoldable pub tick : Session → Session × List Action
tick s =
    let missed = if s.waiting_for_pong then s.missed_pongs + 1 else s.missed_pongs in
    if s.waiting_for_pong && leb s.max_missed_pongs missed
    then (record s { missed_pongs = missed }, close_connection ∷ [])
    else (record s { missed_pongs = missed; waiting_for_pong = true }, send_ping ∷ [])

pub data Status : Type 0 where
  read_more read_error read_done : Status

-- Any frame answers the heartbeat.
abbrev pub answered : Session → Session
answered s = record s { waiting_for_pong = false; missed_pongs = 0 }

abbrev handled : Session → Message → List Action
handled s m = if s.has_handler then handle m ∷ [] else []

-- One frame of the loop. The parameter is what `bb_ws_frame_to_message` returns for it; `none` as
-- the status means that the loop goes on.
module _ (to_message : Frame → Option Message) where
  unfoldable pub on_frame : Session → Frame → Option Status × List Action
  on_frame s f =
      let delivered : Option Status × List Action = elim (to_message f) [
        | none ↦ (some read_error, [])
        | some m ↦ (none, handled s m)
      ] in
      if f.opcode == op_text
      then delivered
      else if f.opcode == op_binary
      then delivered
      else if f.opcode == op_ping
      then (none, send_pong f.payload ∷ [])
      else if f.opcode == op_pong
      then (none, if s.has_pong_cb then on_pong f.payload ∷ [] else [])
      else if f.opcode == op_close
      then (some read_done, send_close 1000 ∷ [])
      else (none, [])

  -- The loop; at its end the call asks for more, unless the task that writes what was queued in
  -- the meantime cannot be created.
  unfoldable pub on_frames : Bool → Session → List Frame → Session × Status × List Action
  on_frames scheduled s [] = (s, (if scheduled then read_more else read_error), [])
  on_frames scheduled s (f ∷ fs) =
      let later = on_frames scheduled (answered s) fs in
      let one = on_frame (answered s) f in
      elim one.0 [
        | some status ↦ (answered s, status, one.1)
        | none ↦ (later.0, later.1, one.1 ++ later.2)
      ]

  -- `none`: the read before it went out of bounds, so nothing is known of what follows.
  unfoldable pub read_step : Bool → Session → Read → Option (Session × Status × List Action)
  unfolding on_frames
  read_step scheduled s (frames fs rest) = some (on_frames scheduled s fs)
  read_step scheduled s incomplete = some (s, read_more, [])
  read_step scheduled s no_connection = some (s, read_error, [])
  read_step scheduled s no_memory = some (s, read_error, [])
  read_step scheduled s out_of_bounds = none
  read_step scheduled s out_of_fuel = none
