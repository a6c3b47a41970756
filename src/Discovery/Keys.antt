-- ===== src/Discovery/Keys.antt =====
-- The keys that discovery sets in Redis, told apart.
use text.Mathlib.TextEquality.{eq_iff}
use text.Mathlib.TextLemmas.{append_cancel_left, append_cancel_right}
use mathlib.Core.Option.{some-injective}
use pred_sx.Base.{
  ℕ, zero, suc, ◌≡◌, ◌≢◌, refl, sym, ap, ◌∙◌, true, false, some, List, [], ◌∷◌, ◌++◌, String, arith,
  append_text, str_eq, str_eq_of_ne, get_elem?,
}
use pred_sx.Base.Text.{codes, codes-append}
use pred_sx.Discovery.{token_key, condition_key}

get_elem?-append :
    (xs ys : List ℕ) (i c : ℕ) → get_elem? xs i ≡ some c → get_elem? (xs ++ ys) i ≡ some c
get_elem?-append [] ys i c h = ground (arith, h)
get_elem?-append (x ∷ xs) ys zero c h = h
get_elem?-append (x ∷ xs) ys (suc i) c h = get_elem?-append xs ys i c h

-- Texts with different characters at one place of their beginnings differ.
prefix_ne :
    (p q s t : String) (i c d : ℕ)
    → get_elem? (codes p) i ≡ some c
    → get_elem? (codes q) i ≡ some d
    → c ≢ d
    → str_eq (append_text p s) (append_text q t) ≡ false
prefix_ne p q s t i c d hp hq ne = str_eq_of_ne (append_text p s) (append_text q t) (λ same.
    let left : get_elem? (codes (append_text p s)) i ≡ some c =
      ap (λ cs. get_elem? cs i) (codes-append p s) ∙ get_elem?-append (codes p) (codes s) i c hp in
    let right : get_elem? (codes (append_text q t)) i ≡ some d =
      ap (λ cs. get_elem? cs i) (codes-append q t) ∙ get_elem?-append (codes q) (codes t) i d hq in
    ne (some-injective _ _ (sym left ∙ ap (λ u. get_elem? (codes u) i) same ∙ right)))

pub token_key-injective : (s t : String) → str_eq (token_key s) (token_key t) ≡ true → s ≡ t
token_key-injective s t h =
    append_cancel_right s t ":market_id"
      (append_cancel_left "token:" _ _ ((eq_iff (token_key s) (token_key t)).0 h))

pub extracted-ne :
    (id t : String) → str_eq (append_text "tokens:extracted:" id) (token_key t) ≡ false
extracted-ne id t =
    prefix_ne "tokens:extracted:" "token:" id (append_text t ":market_id") 5 115 58 refl refl
      (λ h. absurd (omega (arith, h)))

pub market_ne : (s t : String) → str_eq (append_text "market:" s) (token_key t) ≡ false
market_ne s t =
    prefix_ne "market:" "token:" s (append_text t ":market_id") 0 109 116 refl refl
      (λ h. absurd (omega (arith, h)))

pub condition_key-ne : (c t : String) → str_eq (condition_key c) (token_key t) ≡ false
condition_key-ne c t =
    prefix_ne "condition:" "token:" (append_text c ":market_id") (append_text t ":market_id") 0 99
      116 refl refl (λ h. absurd (omega (arith, h)))
