-- ===== src/Indexer/Blocks.antt =====
-- Ranges of blocks and the logs of their blocks.
use mathlib.Core.List.{append_assoc}
use pred_sx.Base.{ℕ, zero, suc, ◌+◌, ◌-◌, ◌≤◌, ◌≡◌, sym, ap, ◌∙◌, List, [], ◌∷◌, ◌++◌, arith}
use pred_sx.Indexer.{Log}

-- The logs of `n` blocks from the block `start`.
unfoldable pub between : (ℕ → List Log) → ℕ → ℕ → List Log
between blocks start zero = []
between blocks start (suc n) = blocks start ++ between blocks (start + 1) n

-- Each range begins after the end of the one before, the first after `last`, and has from 1 to 41
-- blocks.
abbrev pub IsChain : ℕ → List (ℕ × ℕ) → Type 0
IsChain last [] = Unit
IsChain last ((from, to) ∷ ranges) =
    (from ≡ last + 1) × (from ≤ to) × (to ≤ from + 40) × IsChain to ranges

between-add :
    (blocks : ℕ → List Log) (start m n : ℕ)
    → between blocks start (m + n) ≡ between blocks start m ++ between blocks (start + m) n
unfolding between
between-add blocks start zero n =
    let count : 0 + n ≡ n = omega arith in
    let first : start ≡ start + 0 = omega arith in
    ap (between blocks start) count ∙ ap (λ k. between blocks k n) first
between-add blocks start (suc m) n =
    let count : suc m + n ≡ suc (m + n) = omega arith in
    let first : (start + 1) + m ≡ start + suc m = omega arith in
    ap (between blocks start) count
    ∙ ap (λ ls. blocks start ++ ls) (between-add blocks (start + 1) m n)
    ∙ sym (
        append_assoc (blocks start) (between blocks (start + 1) m)
          (between blocks ((start + 1) + m) n))
    ∙ ap (λ k. between blocks start (suc m) ++ between blocks k n) first

pub between-join :
    (blocks : ℕ → List Log) (last from to end : ℕ)
    → from ≡ last + 1
    → from ≤ to
    → to ≤ end
    → between blocks from (to + 1 - from) ++ between blocks (to + 1) (end - to)
      ≡ between blocks (last + 1) (end - last)
between-join blocks last from to end at le above =
    let next : to + 1 ≡ from + (to + 1 - from) = omega arith in
    let count : (to + 1 - from) + (end - to) ≡ end - last = omega arith in
    ap (λ k. between blocks from (to + 1 - from) ++ between blocks k (end - to)) next
    ∙ sym (between-add blocks from (to + 1 - from) (end - to))
    ∙ ap (between blocks from) count
    ∙ ap (λ k. between blocks k (end - last)) at

-- The last block of a chain of ranges.
unfoldable pub end_of : ℕ → List (ℕ × ℕ) → ℕ
end_of last [] = last
end_of last ((from, to) ∷ ranges) = end_of to ranges

pub end_of-above :
    (last : ℕ) (ranges : List (ℕ × ℕ)) → IsChain last ranges → last ≤ end_of last ranges
unfolding end_of
end_of-above last [] c = omega arith
end_of-above last ((from, to) ∷ ranges) c = omega (arith, end_of-above to ranges c.3)
