-- ===== src/Storage/Buffer.antt =====
-- The buffer of normalized events and its flush.
use mathlib.Core.List.{append-nil, append_assoc}
use pred_sx.Base.{◌≡◌, refl, sym, ap, ◌∙◌, true, List, [], ◌∷◌, ◌++◌}
use pred_sx.Event.{NormalizedEvent}
use pred_sx.Storage.{Store, empty_store, Event, appended, ticked, append, tick, flush_batch, run}

-- The events that were appended, in order.
abbrev pub appends : List Event → List NormalizedEvent
appends [] = []
appends (appended e ∷ events) = e ∷ appends events
appends (ticked ok ∷ events) = appends events

-- Every flush got its batch through.
abbrev pub AllSent : List Event → Type 0
AllSent [] = Unit
AllSent (appended e ∷ events) = AllSent events
AllSent (ticked ok ∷ events) = (ok ≡ true) × AllSent events

abbrev held : Store → List NormalizedEvent
held s = s.events_raw ++ s.buffer

held-tick :
    (buffer rows : List NormalizedEvent)
    → held (tick true (record { buffer = buffer; events_raw = rows })) ≡ rows ++ buffer
unfolding tick flush_batch
held-tick [] rows = refl
held-tick (e ∷ es) rows = append-nil (rows ++ e ∷ es)

held-run :
    (events : List Event) (s : Store)
    → AllSent events
    → held (run events s) ≡ held s ++ appends events
unfolding run append
held-run [] s sent = sym (append-nil (held s))
held-run (appended e ∷ events) s sent =
    held-run events (append e s) sent
    ∙ ap (λ es. es ++ appends events) (sym (append_assoc s.events_raw s.buffer (e ∷ [])))
    ∙ append_assoc (held s) (e ∷ []) (appends events)
held-run (ticked ok ∷ events) s sent =
    held-run events (tick ok s) sent.1
    ∙ ap (λ b. held (tick b s) ++ appends events) sent.0
    ∙ ap (λ es. es ++ appends events) (held-tick s.buffer s.events_raw)

flushed :
    (buffer rows : List NormalizedEvent)
    → (tick true (record { buffer = buffer; events_raw = rows })).events_raw ≡ rows ++ buffer
unfolding tick flush_batch
flushed [] rows = sym (append-nil rows)
flushed (e ∷ es) rows = refl

-- From an empty buffer, whatever order appends and ticks come in: when each flush gets its batch
-- through, the rows of `events_raw` and then the buffer hold the events that were appended, each
-- once and in their order, and after one more such tick the rows alone hold them.
pub run-held :
    (events : List Event)
    → AllSent events
    → ((run events empty_store).events_raw ++ (run events empty_store).buffer ≡ appends events)
      × ((tick true (run events empty_store)).events_raw ≡ appends events)
unfolding empty_store
run-held events sent =
    let s = run events empty_store in
    let all = held-run events empty_store sent in (all, flushed s.buffer s.events_raw ∙ all)
