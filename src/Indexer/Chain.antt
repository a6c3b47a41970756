-- ===== src/Indexer/Chain.antt =====
-- The ranges of blocks that a cycle of the indexer fetches, and their logs.
use native.Mathlib.Nat.{mod-eq_of_lt}
use pred_sx.Base.{
  ℕ, ◌+◌, ◌-◌, ◌^◌, ◌%◌, ◌≤◌, ◌<◌, ◌≡◌, refl, sym, ap, ◌∙◌, Bool, true, false, ◌⊎◌, inl, inr,
  Option, none, some, List, [], ◌∷◌, ◌++◌, arith, subst, leb, Bool-cases, All,
}
use pred_sx.Indexer.Blocks.{between, between-join, IsChain, end_of, end_of-above}
use pred_sx.Indexer.{
  Log, Poll, Tick, Cycle, five_back, start_block, range_end, header_failed, on_logs, fetch,
  on_header, tick, run, max_consecutive_errors, after_tick,
}

-- A node that fails, or answers with the logs of each block of the range.
abbrev pub IsHonest : (ℕ → List Log) → (ℕ → ℕ → Option (List Log)) → Type 0
IsHonest blocks filter_logs =
    (from to : ℕ)
    → from ≤ to
    → (filter_logs from to ≡ none)
      ⊎ (filter_logs from to ≡ some (between blocks from (to + 1 - from)))

range_end-bounds :
    (from current : ℕ)
    → from ≤ current
    → current < 2 ^ 64
    → (from ≤ range_end from current)
      × (range_end from current ≤ from + 40)
      × (range_end from current ≤ current)
unfolding range_end
range_end-bounds from current h lt = ground arith

-- What a tick of a poll does.
data Step (blocks : ℕ → List Log) (p : Poll) : Tick → Type 0 where
  idle :
      (p' : Poll)
      → p'.last_block < 2 ^ 64
      → (p.last_block ≡ 0) ⊎ (p'.last_block ≡ p.last_block)
      → Step blocks p (Tick.idle p')
  fetched :
      (last from to : ℕ) (logs : List Log) (p' : Poll)
      → (p.last_block ≡ 0) ⊎ (last ≡ p.last_block)
      → from ≡ last + 1
      → from ≤ to
      → to ≤ from + 40
      → to < 2 ^ 64
      → p'.last_block ≡ to
      → logs ≡ between blocks from (to + 1 - from)
      → Step blocks p (Tick.fetched from to logs p')
  unhealthy : Step blocks p Tick.unhealthy

on_logs-Step :
    (blocks : ℕ → List Log) (p q : Poll) (from to : ℕ) (answer : Option (List Log))
    → q.last_block < 2 ^ 64
    → (p.last_block ≡ 0) ⊎ (q.last_block ≡ p.last_block)
    → from ≡ q.last_block + 1
    → from ≤ to
    → to ≤ from + 40
    → to < 2 ^ 64
    → (answer ≡ none) ⊎ (answer ≡ some (between blocks from (to + 1 - from)))
    → Step blocks p (on_logs from to answer q)
unfolding on_logs
on_logs-Step blocks p q from to answer lt same at le near small (inl eq) =
    rw (on_logs, eq)
      (elim (Bool-cases (leb max_consecutive_errors (q.log_errors + 1))) [
        | inl last_chance ↦ rw last_chance unhealthy
        | inr again ↦ rw again (idle (record q { log_errors = q.log_errors + 1 }) lt same)
      ])
on_logs-Step blocks p q from to answer lt same at le near small (inr eq) =
    rw (on_logs, eq)
      (fetched q.last_block from to (between blocks from (to + 1 - from))
        (record q { last_block = to; log_errors = 0 }) same at le near small refl refl)

fetch-Step :
    (blocks : ℕ → List Log) (filter_logs : ℕ → ℕ → Option (List Log)) (current : ℕ) (p q : Poll)
    → IsHonest blocks filter_logs
    → q.last_block < current
    → current < 2 ^ 64
    → (p.last_block ≡ 0) ⊎ (q.last_block ≡ p.last_block)
    → Step blocks p (fetch filter_logs current q)
unfolding fetch
fetch-Step blocks filter_logs current p q honest above small same =
    let from = (q.last_block + 1) % 2 ^ 64 in
    let at : from ≡ q.last_block + 1 = mod-eq_of_lt (omega arith) in
    let (le, near, under) = range_end-bounds from current (omega arith) small in
    on_logs-Step blocks p q from (range_end from current)
      (filter_logs from (range_end from current)) (omega arith) same at le near (omega arith)
      (honest from (range_end from current) le)

start_block-same :
    (last current : ℕ)
    → last < 2 ^ 64
    → (start_block last current < 2 ^ 64) × ((last ≡ 0) ⊎ (start_block last current ≡ last))
unfolding start_block five_back
start_block-same last current h = ground arith

on_header-Step :
    (blocks : ℕ → List Log) (filter_logs : ℕ → ℕ → Option (List Log)) (current : ℕ) (p : Poll)
    → IsHonest blocks filter_logs
    → p.last_block < 2 ^ 64
    → current < 2 ^ 64
    → Step blocks p (on_header filter_logs current p)
unfolding on_header
on_header-Step blocks filter_logs current p honest lt small =
    let last = start_block p.last_block current in
    let (under, same) = start_block-same p.last_block current lt in
    let q = record p { header_errors = 0; last_block = last } in
    elim (Bool-cases (leb current last)) [
      | inl none_new ↦ rw none_new (idle q under same)
      | inr new ↦ rw new (fetch-Step blocks filter_logs current p q honest (grind arith) small same)
    ]

tick-Step :
    (blocks : ℕ → List Log) (header : Option ℕ) (filter_logs : ℕ → ℕ → Option (List Log)) (p : Poll)
    → IsHonest blocks filter_logs
    → p.last_block < 2 ^ 64
    → Step blocks p (tick header filter_logs p)
unfolding tick header_failed
tick-Step blocks none filter_logs p honest lt =
    elim (Bool-cases (leb max_consecutive_errors (p.header_errors + 1))) [
      | inl last_chance ↦ rw last_chance unhealthy
      | inr again ↦ rw again (idle (record p { header_errors = p.header_errors + 1 }) lt (inr refl))
    ]
tick-Step blocks (some number) filter_logs p honest lt =
    on_header-Step blocks filter_logs (number % 2 ^ 64) p honest lt (omega arith)

-- What a cycle fetched after the block `start`.
pub record IsComplete (blocks : ℕ → List Log) (p : Poll) (c : Cycle) : Type 0 where
  pub start : ℕ
  pub first : (p.last_block ≡ 0) ⊎ (start ≡ p.last_block)
  pub chain : IsChain start c.ranges
  pub logs : c.logs ≡ between blocks (start + 1) (end_of start c.ranges - start)

nothing-IsComplete :
    (blocks : ℕ → List Log) (p : Poll) (is_healthy : Bool)
    → IsComplete blocks p (record { ranges = []; logs = []; poll = p; is_healthy = is_healthy })
unfolding end_of between
nothing-IsComplete blocks p is_healthy = record {
  start = p.last_block;
  first = inr refl;
  chain = tt;
  logs =
      let gone : p.last_block - p.last_block ≡ 0 = omega arith in
      sym (ap (between blocks (p.last_block + 1)) gone);
}

start_of :
    {n : ℕ} (p : Poll) (to : ℕ)
    → (p.last_block ≡ 0) ⊎ (n ≡ p.last_block)
    → p.last_block ≡ to
    → 0 < to
    → n ≡ to
start_of p to (inl z) now above = omega arith
start_of p to (inr e) now above = e ∙ now

same_start :
    (p q : Poll) (n : ℕ)
    → (p.last_block ≡ 0) ⊎ (q.last_block ≡ p.last_block)
    → (q.last_block ≡ 0) ⊎ (n ≡ q.last_block)
    → (p.last_block ≡ 0) ⊎ (n ≡ p.last_block)
same_start p q n (inl z) first = inl z
same_start p q n (inr same) (inl z) = inl (sym same ∙ z)
same_start p q n (inr same) (inr e) = inr (e ∙ same)

fetched-IsComplete :
    (blocks : ℕ → List Log) (p p' : Poll) (last from to : ℕ) (logs : List Log) (c : Cycle)
    → (p.last_block ≡ 0) ⊎ (last ≡ p.last_block)
    → from ≡ last + 1
    → from ≤ to
    → to ≤ from + 40
    → p'.last_block ≡ to
    → logs ≡ between blocks from (to + 1 - from)
    → IsComplete blocks p' c
    → IsComplete blocks p (after_tick p (λ q. c) (Tick.fetched from to logs p'))
unfolding end_of
fetched-IsComplete blocks p p' last from to logs c same at le near now eq done =
    let e : done.start ≡ to = start_of p' to done.first now (omega arith) in
    let chain : IsChain to c.ranges = subst (λ s. IsChain s c.ranges) e done.chain in
    let later = done.logs ∙ ap (λ s. between blocks (s + 1) (end_of s c.ranges - s)) e in
    record {
      start = last;
      first = same;
      chain = (at, le, near, chain);
      logs =
          ap (λ ls. ls ++ c.logs) eq
          ∙ ap (λ ls. between blocks from (to + 1 - from) ++ ls) later
          ∙ between-join blocks last from to (end_of to c.ranges) at le
              (end_of-above to c.ranges chain);
    }

after_tick-IsComplete :
    (blocks : ℕ → List Log) (p : Poll) (t : Tick) (rest : Poll → Cycle)
    → Step blocks p t
    → ((q : Poll) → q.last_block < 2 ^ 64 → IsComplete blocks q (rest q))
    → IsComplete blocks p (after_tick p rest t)
after_tick-IsComplete blocks p t rest (idle p' lt same) ih =
    let done = ih p' lt in
    record {
      start = done.start;
      first = same_start p p' done.start same done.first;
      chain = done.chain;
      logs = done.logs;
    }
after_tick-IsComplete blocks p t rest (fetched last from to logs p' same at le near small now eq)
      ih =
    fetched-IsComplete blocks p p' last from to logs (rest p') same at le near now eq
      (ih p' (omega arith))
after_tick-IsComplete blocks p t rest unhealthy ih = nothing-IsComplete blocks p false

-- A cycle of polling a node that, for each range, fails or answers with all logs of its blocks.
-- From some block on, which is `lastBlock` unless that is 0, the ranges of the cycle follow one
-- another with no gap and no overlap, each of 1 to 41 blocks, and the logs it processes are those
-- of all the blocks up to the end of the last range, each once and in order, whichever headers
-- and requests failed in between and whether or not the cycle gave up in the end.
pub run-IsComplete :
    (blocks : ℕ → List Log) (ticks : List (Option ℕ × (ℕ → ℕ → Option (List Log)))) (p : Poll)
    → All (λ t. IsHonest blocks t.1) ticks
    → p.last_block < 2 ^ 64
    → IsComplete blocks p (run ticks p)
unfolding run
run-IsComplete blocks [] p honest lt = nothing-IsComplete blocks p true
run-IsComplete blocks ((header, filter_logs) ∷ ticks) p honest lt =
    after_tick-IsComplete blocks p (tick header filter_logs p) (run ticks)
      (tick-Step blocks header filter_logs p honest.0 lt)
      (λ q small. run-IsComplete blocks ticks q honest.1 small)
