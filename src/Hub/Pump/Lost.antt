-- ===== src/Hub/Pump/Lost.antt =====
-- What a client of the hub does not get.
use mathlib.Core.List.{append-nil}
use pred_sx.Base.{
  ◌≡◌, refl, sym, ap, ◌∙◌, Bool, true, false, not, ◌&&◌, ◌||◌, ◌⊎◌, inl, inr, List, [], ◌∷◌, ◌++◌,
  String, arith, if◌then◌else◌, subst, Bool-cases,
}
use pred_sx.Hub.Pump.{
  Frame, text_frame, close_frame, ping_frame, Pump, new_pump, write_lines, on_send, on_tick,
  PumpEvent, delivered, hub_closed, sent, ticked, pump_step, pump_run,
}
use pred_sx.Hub.Pump.Written.{
  lines, lines-append, delivered_in, delivered_in-cons, Running, delivered-Running, pump_run-Kept,
}

-- A write failed among some events: the writer was not had, or it was not closed.
abbrev pub any_failed : List PumpEvent → Bool
any_failed [] = false
any_failed (delivered m ∷ es) = any_failed es
any_failed (hub_closed ∷ es) = any_failed es
any_failed (sent has_writer is_sent ∷ es) =
    let rest = any_failed es in not (has_writer && is_sent) || rest
any_failed (ticked ok ∷ es) = any_failed es

-- Where the writes succeed, nothing is lost, whether or not the loop goes on.
on_send-Running : (ms : List String) (p : Pump) → Running ms p → Running ms (on_send true true p)
unfolding on_send write_lines Running
on_send-Running ms p r = go p.waiting p.closed p.written p.running r
  where
    go :
        (waiting : List String) (closed : Bool) (written : List Frame) (running : Bool)
        → ms ≡ lines written ++ waiting
        → Running ms (
            on_send true true
              (record { waiting = waiting; closed = closed; written = written; running = running }))
    go [] true written running r =
        r
        ∙ sym (append-nil (lines written ++ []))
        ∙ ap (λ ls. ls ++ []) (sym (lines-append written (close_frame ∷ [])))
    go [] false written running r = r
    go (m ∷ rest) closed written running r =
        r
        ∙ ap (λ ls. lines written ++ ls) (sym (append-nil (m ∷ rest)))
        ∙ sym (lines-append written (text_frame (m ∷ rest) ∷ []))
        ∙ sym (append-nil (lines (written ++ text_frame (m ∷ rest) ∷ [])))

on_tick-Running :
    (ms : List String) (p : Pump) (ok : Bool) → Running ms p → Running ms (on_tick ok p)
unfolding on_tick Running
on_tick-Running ms p true r =
    r
    ∙ ap (λ ls. ls ++ p.waiting)
        (sym (append-nil (lines p.written)) ∙ sym (lines-append p.written (ping_frame ∷ [])))
on_tick-Running ms p false r = r

if-Running :
    (ms : List String) (b : Bool) (p q : Pump)
    → Running ms p
    → Running ms q
    → Running ms (if b then p else q)
if-Running ms true p q rp rq = rp
if-Running ms false p q rp rq = rq

pump_run-Running :
    (es : List PumpEvent) (ms : List String) (p : Pump)
    → any_failed es ≡ false
    → Running ms p
    → Running (ms ++ delivered_in es) (pump_run es p)
unfolding pump_run pump_step Running
pump_run-Running [] ms p clean r = rw (append-nil ms) r
pump_run-Running (delivered m ∷ es) ms p clean r =
    subst (λ ns. Running ns (pump_run (delivered m ∷ es) p)) (delivered_in-cons ms (delivered m) es)
      (pump_run-Running es (ms ++ m ∷ []) (pump_step (delivered m) p) clean
        (delivered-Running ms p m r))
pump_run-Running (hub_closed ∷ es) ms p clean r =
    pump_run-Running es ms (pump_step hub_closed p) clean r
pump_run-Running (sent true true ∷ es) ms p clean r =
    pump_run-Running es ms (pump_step (sent true true) p) clean
      (if-Running ms p.running _ p (on_send-Running ms p r) r)
pump_run-Running (sent true false ∷ es) ms p clean r = absurd (ground (arith, clean))
pump_run-Running (sent false is_sent ∷ es) ms p clean r = absurd (ground (arith, clean))
pump_run-Running (ticked ok ∷ es) ms p clean r =
    pump_run-Running es ms (pump_step (ticked ok) p) clean
      (if-Running ms p.running _ p (on_tick-Running ms p ok r) r)

-- Whatever the hub delivers and whichever writes fail: the messages that the hub delivered are, in
-- order, the lines that `writePump` has written, then some that are lost, then those that still
-- wait. Messages are lost only where the loop has ended and the write of a message, getting its
-- writer or closing it, has failed.
pub pump_run-Lost :
    (es : List PumpEvent)
    → (lost : List String) × (delivered_in es
        ≡ (lines (pump_run es new_pump).written ++ lost) ++ (pump_run es new_pump).waiting)
      × ((lost ≡ []) ⊎ (((pump_run es new_pump).running ≡ false) × (any_failed es ≡ true)))
unfolding new_pump Running
pump_run-Lost es =
    let p = pump_run es new_pump in
    let k = pump_run-Kept es in
    elim (Bool-cases (any_failed es)) [
      | inl broken ↦ elim (Bool-cases p.running) [
        | inl on ↦ (k.lost, k.all, inl (k.none_lost on))
        | inr off ↦ (k.lost, k.all, inr (off, broken))
      ]
      | inr clean ↦
          let r = pump_run-Running es [] new_pump clean refl in
          ([], r ∙ ap (λ ls. ls ++ p.waiting) (sym (append-nil (lines p.written))), inl refl)
    ]
