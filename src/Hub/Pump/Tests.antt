-- ===== src/Hub/Pump/Tests.antt =====
-- Two goroutines at work, and the theorems about what is written and what is lost.
use pred_sx.Base.{
  ℕ, ◌≡◌, refl, Bool, true, false, Option, none, some, List, [], ◌∷◌, ◌++◌, String, ◌⊎◌,
}
use pred_sx.Hub.{ClientMsg}
use pred_sx.Hub.Run.{command, disconnect}
use pred_sx.Hub.Pump.{
  new_pump, frame_text, write_lines, on_send, on_tick, PumpEvent, delivered, hub_closed, sent,
  ticked, pump_step, pump_run, cleaned, read_pump,
}
use pred_sx.Hub.Pump.Lost.{any_failed, pump_run-Lost}
use pred_sx.Hub.Pump.Written.{Finished, lines, delivered_in, pump_run-Finished}

abbrev events : List PumpEvent
events =
    delivered "a" ∷ sent true true ∷ delivered "b" ∷ ticked true ∷ delivered "c" ∷ hub_closed ∷ []

-- The write of the second message fails.
abbrev broken : List PumpEvent
broken = delivered "a" ∷ sent true true ∷ delivered "b" ∷ sent true false ∷ delivered "c" ∷ []

pump_run-Lost_example :
    (lost : List String) × (delivered_in broken
      ≡ (lines (pump_run broken new_pump).written ++ lost) ++ (pump_run broken new_pump).waiting)
    × ((lost ≡ []) ⊎ (((pump_run broken new_pump).running ≡ false) × (any_failed broken ≡ true)))
pump_run-Lost_example = pump_run-Lost broken

pump_run-Finished_example :
    Finished
      (delivered_in events)
      (pump_run (sent true true ∷ sent true true ∷ []) (pump_run events new_pump))
unfolding pump_run pump_step on_send on_tick write_lines new_pump
pump_run-Finished_example = pump_run-Finished events refl refl

two_lines : frame_text ("b" ∷ "c" ∷ []) ≡ "b\nc"
unfolding frame_text
two_lines = refl

abbrev reader : String → Option ClientMsg
reader text = some (record { action = text; markets = [] })

one_command :
    read_pump reader 3 (some " subscribe\n" ∷ none ∷ some "late" ∷ [])
    ≡ command 3 (record { action = "subscribe"; markets = [] }) ∷ disconnect 3 ∷ []
unfolding read_pump cleaned pred_sx.Base.Split.trim_space pred_sx.Base.Split.replace
one_command = refl
