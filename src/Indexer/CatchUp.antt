-- ===== src/Indexer/CatchUp.antt =====
-- The indexer gets to the newest block.
use Prim.Native.Nat.{min}
use pred_sx.Base.{
  ℕ, ◌+◌, ◌*◌, ◌^◌, ◌%◌, ◌≤◌, ◌<◌, ◌≡◌, refl, ap, ◌∙◌, true, inl, inr, Option, some, List, [], ◌∷◌,
  arith, leb, Bool-cases, All, length,
}
use pred_sx.Indexer.{
  Log, Poll, Tick, Cycle, five_back, start_block, range_end, on_logs, fetch, on_header, tick, run,
  after_tick,
}

-- A node that answers each request for logs.
abbrev pub Answers : (ℕ → ℕ → Option (List Log)) → Type 0
Answers filter_logs = (from to : ℕ) → (logs : List Log) × (filter_logs from to ≡ some logs)

-- A tick that goes on with a poll that is nearer to the newest block, or there already.
Nearer : ℕ → Poll → Poll → Tick → Type 0
Nearer newest p p' t =
    (p'.last_block ≤ newest)
    × (min newest (p.last_block + 41) ≤ p'.last_block)
    × ((rest : Poll → Cycle)
        → ((after_tick p rest t).poll ≡ (rest p').poll)
          × ((after_tick p rest t).is_healthy ≡ (rest p').is_healthy))

start_block-bounds :
    (last newest : ℕ)
    → 5 < newest
    → newest < 2 ^ 63
    → last ≤ newest
    → (start_block last (newest % 2 ^ 64) ≤ newest) × (last ≤ start_block last (newest % 2 ^ 64))
unfolding start_block five_back
start_block-bounds last newest old small below = ground arith

range_end-bounds :
    (start last newest : ℕ)
    → start < newest
    → newest < 2 ^ 63
    → last ≤ start
    → (range_end ((start + 1) % 2 ^ 64) (newest % 2 ^ 64) ≤ newest)
      × (min newest (last + 41) ≤ range_end ((start + 1) % 2 ^ 64) (newest % 2 ^ 64))
unfolding range_end
range_end-bounds start last newest short small below = ground arith

tick-Nearer :
    (filter_logs : ℕ → ℕ → Option (List Log)) (newest : ℕ) (p : Poll)
    → Answers filter_logs
    → 5 < newest
    → newest < 2 ^ 63
    → p.last_block ≤ newest
    → (p' : Poll) × Nearer newest p p' (tick (some newest) filter_logs p)
unfolding Nearer tick on_header fetch on_logs
tick-Nearer filter_logs newest p answers old small below =
    let start = start_block p.last_block (newest % 2 ^ 64) in
    let q = record p { header_errors = 0; last_block = start } in
    let from = (start + 1) % 2 ^ 64 in
    let to = range_end from (newest % 2 ^ 64) in
    let (logs, answer) = answers from to in
    let start_bounds = start_block-bounds p.last_block newest old small below in
    elim (Bool-cases (leb (newest % 2 ^ 64) start)) [
      | inl there ↦
          let at_end : newest ≤ start = ground arith in
          (q, (start_bounds.0, omega arith, rw (tick, on_header, there) (λ rest. (refl, refl))))
      | inr behind ↦
          let short : start < newest = ground arith in
          let ends = range_end-bounds start p.last_block newest short small start_bounds.1 in
          (
            record q { last_block = to; log_errors = 0 },
            (
              ends.0,
              ends.1,
              rw (tick, on_header, behind, fetch, answer, on_logs) (λ rest. (refl, refl)),
            ),
          )
    ]

-- If every tick has the header of the same block, whose number is above 5 and below 2 ^ 63, and the
-- node answers each request for logs, then a cycle that is not past this block is healthy, and it is at
-- this block after as many ticks as there are 41 blocks in what it is behind.
pub run-newest :
    (ticks : List (Option ℕ × (ℕ → ℕ → Option (List Log)))) (newest : ℕ) (p : Poll)
    → All (λ t. (t.0 ≡ some newest) × Answers t.1) ticks
    → 5 < newest
    → newest < 2 ^ 63
    → p.last_block ≤ newest
    → newest ≤ p.last_block + 41 * length ticks
    → ((run ticks p).poll.last_block ≡ newest) × ((run ticks p).is_healthy ≡ true)
unfolding run Nearer
run-newest [] newest p up old small below near = (omega arith, refl)
run-newest ((header, filter_logs) ∷ ticks) newest p up old small below near =
    let step = tick-Nearer filter_logs newest p up.0.1 old small below in
    let low : step.0.last_block ≤ newest = step.1.0 in
    let high : min newest (p.last_block + 41) ≤ step.0.last_block = step.1.1 in
    let rest = step.1.2 (run ticks) in
    let later = run-newest ticks newest step.0 up.1 old small low (omega arith) in
    rw up.0.0 (ap (λ (q : Poll). q.last_block) rest.0 ∙ later.0, rest.1 ∙ later.1)
