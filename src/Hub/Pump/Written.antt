-- ===== src/Hub/Pump/Written.antt =====
-- What a client gets from its channel.
use mathlib.Core.List.{append-nil, append_assoc}
use pred_sx.Base.{
  ◌≡◌, refl, sym, ap, ◌∙◌, Bool, true, false, List, [], ◌∷◌, ◌++◌, String, arith, if◌then◌else◌,
  subst,
}
use pred_sx.Hub.Pump.{
  Frame, text_frame, close_frame, ping_frame, Pump, new_pump, write_lines, on_send, on_tick,
  PumpEvent, delivered, hub_closed, sent, ticked, pump_step, pump_run,
}

-- The lines of the text frames, in order.
abbrev pub lines : List Frame → List String
lines [] = []
lines (text_frame ls ∷ fs) = ls ++ lines fs
lines (close_frame ∷ fs) = lines fs
lines (ping_frame ∷ fs) = lines fs

pub lines-append : (fs gs : List Frame) → lines (fs ++ gs) ≡ lines fs ++ lines gs
lines-append [] gs = refl
lines-append (text_frame ls ∷ fs) gs =
    ap (λ ms. ls ++ ms) (lines-append fs gs) ∙ sym (append_assoc ls (lines fs) (lines gs))
lines-append (close_frame ∷ fs) gs = lines-append fs gs
lines-append (ping_frame ∷ fs) gs = lines-append fs gs

-- The messages that the hub delivered, in order.
abbrev pub delivered_in : List PumpEvent → List String
delivered_in [] = []
delivered_in (delivered m ∷ es) = m ∷ delivered_in es
delivered_in (hub_closed ∷ es) = delivered_in es
delivered_in (sent has_writer is_sent ∷ es) = delivered_in es
delivered_in (ticked ok ∷ es) = delivered_in es

-- The messages are those on the wire, some that a failed write lost, and those that wait.
pub record Kept (ms : List String) (p : Pump) : Type 0 where
  pub lost : List String
  pub all : ms ≡ (lines p.written ++ lost) ++ p.waiting
  pub none_lost : p.running ≡ true → lost ≡ []

-- While nothing is lost.
unfoldable pub Running : (ms : List String) (p : Pump) → Type 0
Running ms p = ms ≡ lines p.written ++ p.waiting

Kept-Running : (ms : List String) (p : Pump) → Kept ms p → p.running ≡ true → Running ms p
unfolding Running
Kept-Running ms p k on =
    k.all
    ∙ ap (λ ls. (lines p.written ++ ls) ++ p.waiting) (k.none_lost on)
    ∙ ap (λ ls. ls ++ p.waiting) (append-nil (lines p.written))

-- A frame with no line goes out.
Running-Kept_frame :
    (ms : List String) (p : Pump) (f : Frame) (waiting : List String) (closed running : Bool)
    → Running ms p
    → lines (f ∷ []) ++ waiting ≡ p.waiting
    → Kept ms (record {
      waiting = waiting;
      closed = closed;
      written = p.written ++ f ∷ [];
      running = running;
    })
unfolding Running
Running-Kept_frame ms p f waiting closed running r split = record {
  lost = [];
  all =
      r
      ∙ ap (λ ls. lines p.written ++ ls) (sym split)
      ∙ sym (append_assoc (lines p.written) (lines (f ∷ [])) waiting)
      ∙ ap (λ ls. ls ++ waiting) (sym (append-nil (lines p.written ++ lines (f ∷ []))))
      ∙ ap (λ ls. (ls ++ []) ++ waiting) (sym (lines-append p.written (f ∷ [])));
  none_lost = λ on. refl;
}

-- Some messages are lost, and the loop ends.
Running-Kept_lost :
    (ms : List String) (p : Pump) (lost waiting : List String)
    → Running ms p
    → lost ++ waiting ≡ p.waiting
    → Kept ms (record p { waiting = waiting; running = false })
unfolding Running
Running-Kept_lost ms p lost waiting r split = record {
  lost = lost;
  all =
      r
      ∙ ap (λ ls. lines p.written ++ ls) (sym split)
      ∙ sym (append_assoc (lines p.written) lost waiting);
  none_lost = λ on. ground (arith, on);
}

write_lines-Kept :
    (ms : List String) (p : Pump) (has_writer is_sent : Bool) (m : String) (rest : List String)
    → Running ms p
    → m ∷ rest ≡ p.waiting
    → Kept ms (write_lines has_writer is_sent m rest p)
unfolding write_lines
write_lines-Kept ms p false is_sent m rest r at = Running-Kept_lost ms p (m ∷ []) rest r at
write_lines-Kept ms p true true m rest r at =
    Running-Kept_frame ms p (text_frame (m ∷ rest)) [] p.closed true r
      (append-nil (m ∷ rest ++ []) ∙ append-nil (m ∷ rest) ∙ at)
write_lines-Kept ms p true false m rest r at =
    Running-Kept_lost ms p (m ∷ rest) [] r (append-nil (m ∷ rest) ∙ at)

on_send-Kept :
    (ms : List String) (waiting : List String) (closed : Bool) (written : List Frame)
    (has_writer is_sent : Bool)
    → Running ms (record { waiting = waiting; closed = closed; written = written; running = true })
    → Kept ms (
        on_send has_writer is_sent
          (record { waiting = waiting; closed = closed; written = written; running = true }))
unfolding on_send Running
on_send-Kept ms [] true written has_writer is_sent r =
    Running-Kept_frame ms
      (record { waiting = []; closed = true; written = written; running = true }) close_frame []
      true false r refl
on_send-Kept ms [] false written has_writer is_sent r = record {
  lost = [];
  all = r ∙ sym (append-nil (lines written ++ []));
  none_lost = λ on. refl;
}
on_send-Kept ms (m ∷ rest) closed written has_writer is_sent r =
    write_lines-Kept ms _ has_writer is_sent m rest r refl

on_tick-Kept : (ms : List String) (p : Pump) (ok : Bool) → Running ms p → Kept ms (on_tick ok p)
unfolding on_tick
on_tick-Kept ms p true r = Running-Kept_frame ms p ping_frame p.waiting p.closed true r refl
on_tick-Kept ms p false r = Running-Kept_lost ms p [] p.waiting r refl

delivered-Kept :
    (ms : List String) (p : Pump) (m : String)
    → Kept ms p
    → Kept (ms ++ m ∷ []) (record p { waiting = p.waiting ++ m ∷ [] })
delivered-Kept ms p m k = record {
  lost = k.lost;
  all = ap (λ ls. ls ++ m ∷ []) k.all ∙ append_assoc (lines p.written ++ k.lost) p.waiting (m ∷ []);
  none_lost = k.none_lost;
}

pub delivered-Running :
    (ms : List String) (p : Pump) (m : String)
    → Running ms p
    → Running (ms ++ m ∷ []) (record p { waiting = p.waiting ++ m ∷ [] })
unfolding Running
delivered-Running ms p m r =
    ap (λ ls. ls ++ m ∷ []) r ∙ append_assoc (lines p.written) p.waiting (m ∷ [])

-- A round of the loop, which only a loop that goes on has.
round-Kept :
    (ms : List String) (go : Pump → Pump) (waiting : List String) (closed : Bool)
    (written : List Frame) (running : Bool)
    → (Running ms (record { waiting = waiting; closed = closed; written = written; running = true })
        → Kept ms
            (go (record { waiting = waiting; closed = closed; written = written; running = true })))
    → Kept ms (record { waiting = waiting; closed = closed; written = written; running = running })
    → Kept ms (
        if running
        then go
            (record { waiting = waiting; closed = closed; written = written; running = running })
        else record { waiting = waiting; closed = closed; written = written; running = running })
round-Kept ms go waiting closed written true keeps k = keeps (Kept-Running ms _ k refl)
round-Kept ms go waiting closed written false keeps k = k

-- A step adds what it delivers to the messages.
pump_step-Kept :
    (ms : List String) (e : PumpEvent) (p : Pump)
    → Kept ms p
    → Kept (ms ++ delivered_in (e ∷ [])) (pump_step e p)
unfolding pump_step
pump_step-Kept ms (delivered m) p k = delivered-Kept ms p m k
pump_step-Kept ms hub_closed p k = record {
  lost = k.lost;
  all = append-nil ms ∙ k.all;
  none_lost = k.none_lost;
}
pump_step-Kept ms (sent has_writer is_sent) p k = rw (append-nil ms) (
    round-Kept ms (on_send has_writer is_sent) p.waiting p.closed p.written p.running
      (on_send-Kept ms p.waiting p.closed p.written has_writer is_sent) k)
pump_step-Kept ms (ticked ok) p k =
    rw (append-nil ms)
      (round-Kept ms (on_tick ok) p.waiting p.closed p.written p.running (on_tick-Kept ms _ ok) k)

pub delivered_in-cons :
    (ms : List String) (e : PumpEvent) (es : List PumpEvent)
    → (ms ++ delivered_in (e ∷ [])) ++ delivered_in es ≡ ms ++ delivered_in (e ∷ es)
delivered_in-cons ms (delivered m) es = append_assoc ms (m ∷ []) (delivered_in es)
delivered_in-cons ms hub_closed es = ap (λ ls. ls ++ delivered_in es) (append-nil ms)
delivered_in-cons ms (sent has_writer is_sent) es = ap (λ ls. ls ++ delivered_in es) (append-nil ms)
delivered_in-cons ms (ticked ok) es = ap (λ ls. ls ++ delivered_in es) (append-nil ms)

pump_run-Kept_from :
    (es : List PumpEvent) (ms : List String) (p : Pump)
    → Kept ms p
    → Kept (ms ++ delivered_in es) (pump_run es p)
unfolding pump_run
pump_run-Kept_from [] ms p k = rw (append-nil ms) k
pump_run-Kept_from (e ∷ es) ms p k =
    subst (λ ns. Kept ns (pump_run es (pump_step e p))) (delivered_in-cons ms e es)
      (pump_run-Kept_from es (ms ++ delivered_in (e ∷ [])) (pump_step e p)
        (pump_step-Kept ms e p k))

pub pump_run-Kept : (es : List PumpEvent) → Kept (delivered_in es) (pump_run es new_pump)
unfolding new_pump
pump_run-Kept es =
    pump_run-Kept_from es [] new_pump (record { lost = []; all = refl; none_lost = λ on. refl })

-- The client has got the messages and then the close frame, and the loop has ended.
abbrev pub Finished : List String → Pump → Type 0
Finished ms p =
    (p.running ≡ false) × (fs : List Frame) × (p.written ≡ fs ++ close_frame ∷ []) × (lines fs ≡ ms)

on_send-Finished :
    (ms : List String) (waiting : List String) (written : List Frame)
    → Running ms (record { waiting = waiting; closed = true; written = written; running = true })
    → Finished ms (
        pump_run
          (sent true true ∷ sent true true ∷ [])
          (record { waiting = waiting; closed = true; written = written; running = true }))
unfolding pump_run pump_step on_send write_lines Running
on_send-Finished ms [] written r = (refl, written, refl, sym (append-nil (lines written)) ∙ sym r)
on_send-Finished ms (m ∷ rest) written r = (
  refl,
  written ++ text_frame (m ∷ rest) ∷ [],
  refl,
  lines-append written (text_frame (m ∷ rest) ∷ [])
      ∙ ap (λ ls. lines written ++ ls) (append-nil (m ∷ rest))
      ∙ sym r,
)

closed-Finished :
    (ms : List String) (waiting : List String) (closed running : Bool) (written : List Frame)
    → Kept ms (record { waiting = waiting; closed = closed; written = written; running = running })
    → running ≡ true
    → closed ≡ true
    → Finished ms (
        pump_run
          (sent true true ∷ sent true true ∷ [])
          (record { waiting = waiting; closed = closed; written = written; running = running }))
closed-Finished ms waiting true true written k on shut =
    on_send-Finished ms waiting written (Kept-Running ms _ k refl)
closed-Finished ms waiting false running written k on shut = absurd (ground (arith, shut))
closed-Finished ms waiting true false written k on shut = absurd (ground (arith, on))

-- Once the hub has closed the channel, and the loop still goes on, two more rounds whose writes
-- succeed end it: the client has then got every message that the hub delivered, in order, and
-- after them the close frame.
pub pump_run-Finished :
    (es : List PumpEvent)
    → (pump_run es new_pump).running ≡ true
    → (pump_run es new_pump).closed ≡ true
    → Finished
        (delivered_in es)
        (pump_run (sent true true ∷ sent true true ∷ []) (pump_run es new_pump))
pump_run-Finished es on shut =
    let p = pump_run es new_pump in
    closed-Finished (delivered_in es) p.waiting p.closed p.running p.written (pump_run-Kept es) on
      shut
