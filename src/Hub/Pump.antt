-- ===== src/Hub/Pump.antt =====
-- The two goroutines of a WebSocket client: `readPump` and `writePump` of
-- predsx/services/api/ws/client.go.
-- The channel `send` is the list of the messages that wait and whether it is closed. Deadlines are
-- left out. Parameter: the JSON reader of a message.
pub mod Written
pub mod Lost
mod Tests
use pred_sx.Base.{
  ℕ, Bool, true, false, Option, none, some, List, [], ◌∷◌, ◌++◌, String, append_text, if◌then◌else◌,
}
use pred_sx.Base.Split.{trim_space, replace}
use pred_sx.Hub.{ClientMsg}
use pred_sx.Hub.Run.{Event, command, disconnect}

-- `bytes.TrimSpace(bytes.Replace(message, newline, space, -1))`
pub cleaned : String → String
cleaned message = trim_space (replace 10 " " message)

-- `readPump` of client `c`: what it sends to the hub for what it reads, `none` for an error, which
-- ends the loop.
pub read_pump : (String → Option ClientMsg) → ℕ → List (Option String) → List Event
unfolding cleaned
read_pump decode c [] = []
read_pump decode c (none ∷ reads) = disconnect c ∷ []
read_pump decode c (some message ∷ reads) = elim (decode (cleaned message)) [
  | none ↦ read_pump decode c reads
  | some cm ↦ command c cm ∷ read_pump decode c reads
]

-- What is written to the connection; the lines of a text frame are joined by newlines.
pub data Frame : Type 0 where
  text_frame : List String → Frame
  close_frame ping_frame : Frame

-- `writePump`: its channel, what it has written, and whether its loop goes on.
pub record Pump : Type 0 where
  pub waiting : List String
  pub closed : Bool
  pub written : List Frame
  pub running : Bool

pub new_pump : Pump
new_pump = record { waiting = []; closed = false; written = []; running = true }

-- The message of a text frame as it goes over the wire.
pub frame_text : List String → String
frame_text [] = ""
frame_text (line ∷ []) = line
frame_text (line ∷ lines) = append_text line (append_text "\n" (frame_text lines))

-- The case of a message: it and those that wait behind it are one frame. `has_writer` is that
-- `NextWriter` returned no error, `is_sent` that `Close` of the writer did not.
pub write_lines : Bool → Bool → String → List String → Pump → Pump
write_lines false is_sent message rest p = record p { waiting = rest; running = false }
write_lines true is_sent message rest p = record p {
  waiting = [];
  written = if is_sent then p.written ++ text_frame (message ∷ rest) ∷ [] else p.written;
  running = is_sent;
}

-- The case of `c.send`: it is ready when a message waits or the channel is closed.
pub on_send : Bool → Bool → Pump → Pump
unfolding write_lines
on_send has_writer is_sent p = elim p.waiting [
  | message ∷ rest ↦ write_lines has_writer is_sent message rest p
  | [] ↦
      if p.closed then record p { written = p.written ++ close_frame ∷ []; running = false } else p
]

-- The case of the ticker.
pub on_tick : Bool → Pump → Pump
on_tick ok p = record p {
  written = if ok then p.written ++ ping_frame ∷ [] else p.written;
  running = ok;
}

-- What happens: the hub sends a message or closes the channel, or the loop of the pump goes round.
pub data PumpEvent : Type 0 where
  delivered : String → PumpEvent
  hub_closed : PumpEvent
  sent : Bool → Bool → PumpEvent
  ticked : Bool → PumpEvent

pub pump_step : PumpEvent → Pump → Pump
unfolding on_send on_tick
pump_step (delivered m) p = record p { waiting = p.waiting ++ m ∷ [] }
pump_step hub_closed p = record p { closed = true }
pump_step (sent has_writer is_sent) p = if p.running then on_send has_writer is_sent p else p
pump_step (ticked ok) p = if p.running then on_tick ok p else p

pub pump_run : List PumpEvent → Pump → Pump
unfolding pump_step
pump_run [] p = p
pump_run (e ∷ es) p = pump_run es (pump_step e p)
