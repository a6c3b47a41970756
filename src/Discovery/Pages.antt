-- ===== src/Discovery/Pages.antt =====
-- What the loop over pages fetches.
use pred_sx.Base.{
  ℕ, zero, suc, ◌+◌, ◌*◌, ◌≤◌, ◌<◌, ◌≡◌, refl, sym, ap, ◌∙◌, Option, none, some, List, [], ◌∷◌,
  arith, length, take, drop, take-drop, take-add, drop-drop, length-drop,
}
use pred_sx.Discovery.{fetch_pages, page_limit, finished, failed}

step_size : (j : ℕ) → page_limit + page_limit * j ≡ page_limit * suc j
step_size j = omega arith

step : (offset j : ℕ) → offset + page_limit + page_limit * j ≡ offset + page_limit * suc j
step offset j = omega arith

module _ {A : Type 0} where
  -- The page of a server that has a fixed list: at most 100 items from the offset on.
  abbrev pub page_of : List A → ℕ → Option (List A)
  page_of all offset = some (take page_limit (drop offset all))

  -- From the offset on, the first `k` requests get the pages of a list.
  abbrev pub Answers : (ℕ → Option (List A)) → ℕ → ℕ → List A → Type 0
  Answers page k offset left =
      (j : ℕ) → j < k → page (offset + page_limit * j) ≡ page_of left (page_limit * j)

  Answers-first :
      (page : ℕ → Option (List A)) (k offset : ℕ) (left : List A)
      → Answers page (suc k) offset left
      → page offset ≡ page_of left 0
  Answers-first page k offset left h =
      let here : offset + page_limit * 0 ≡ offset = omega arith in
      sym (ap page here) ∙ h 0 (omega arith)

  Answers-next :
      (page : ℕ → Option (List A)) (k offset : ℕ) (left : List A)
      → Answers page (suc k) offset left
      → Answers page k (offset + page_limit) (drop page_limit left)
  Answers-next page k offset left h j less =
      ap page (step offset j)
      ∙ h (suc j) (omega arith)
      ∙ ap (page_of left) (sym (step_size j))
      ∙ ap (λ ys. some (take page_limit ys)) (drop-drop page_limit (page_limit * j) left)

  -- When the pages of a list and the empty page after them are answered, the loop has fetched the
  -- list, and ends.
  pub fetch_pages-answered :
      (page : ℕ → Option (List A)) (k fuel offset : ℕ) (left : List A)
      → Answers page (suc k) offset left
      → length left ≤ page_limit * k
      → k < fuel
      → fetch_pages page fuel offset ≡ (left, finished)
  unfolding fetch_pages
  fetch_pages-answered page k zero offset left h le lt = elim lt [ ]
  fetch_pages-answered page k (suc fuel) offset [] h le lt =
      rw (fetch_pages, Answers-first page k offset [] h) refl
  fetch_pages-answered page zero (suc fuel) offset (x ∷ xs) h le lt = absurd (omega arith)
  fetch_pages-answered page (suc k) (suc fuel) offset (x ∷ xs) h le lt =
      let later =
        fetch_pages-answered page k fuel (offset + page_limit) (drop page_limit (x ∷ xs))
          (Answers-next page (suc k) offset (x ∷ xs) h) (omega (arith, length-drop 99 xs))
          (omega arith) in
      rw (fetch_pages, Answers-first page (suc k) offset (x ∷ xs) h, later)
        (ap (λ ys. (ys, finished)) (take-drop page_limit (x ∷ xs)))

  -- When `k` pages with something in them are answered and the next one is not, the loop has
  -- fetched those pages and ends with the error.
  pub fetch_pages-failed :
      (page : ℕ → Option (List A)) (k fuel offset : ℕ) (left : List A)
      → Answers page k offset left
      → page (offset + page_limit * k) ≡ none
      → page_limit * k < length left + page_limit
      → k < fuel
      → fetch_pages page fuel offset ≡ (take (page_limit * k) left, failed)
  unfolding fetch_pages
  fetch_pages-failed page k zero offset left h bad full lt = elim lt [ ]
  fetch_pages-failed page zero (suc fuel) offset left h bad full lt =
      let here : offset + page_limit * 0 ≡ offset = omega arith in
      let bad' : page offset ≡ none = sym (ap page here) ∙ bad in rw (fetch_pages, bad') refl
  fetch_pages-failed page (suc k) (suc fuel) offset [] h bad full lt = absurd (omega arith)
  fetch_pages-failed page (suc k) (suc fuel) offset (x ∷ xs) h bad full lt =
      let later =
        fetch_pages-failed page k fuel (offset + page_limit) (drop page_limit (x ∷ xs))
          (Answers-next page k offset (x ∷ xs) h) (ap page (step offset k) ∙ bad)
          (omega (arith, length-drop 99 xs)) (omega arith) in
      rw (fetch_pages, Answers-first page k offset (x ∷ xs) h, later)
        (ap (λ ys. (ys, failed))
          (sym (take-add page_limit (page_limit * k) (x ∷ xs))
            ∙ ap (λ n. take n (x ∷ xs)) (step_size k)))
