-- ===== src/Router/Guarded.antt =====
-- Which handlers a request can reach.
use pred_sx.Base.{
  ℕ, zero, suc, ◌≡◌, ◌≢◌, ◌⊎◌, refl, sym, ◌∙◌, subst, Bool, true, false, inl, inr, some, List, [],
  ◌∷◌, String, arith, if◌then◌else◌, All, get_elem?, Bool-cases, str_eq, is_empty, eq_iff,
}
use mathlib.Core.Option.{some_inj}
use pred_sx.Http.{Request}
use pred_sx.Middleware.{Verdict, passed_on, answered, cors, debug_auth, provided}
use pred_sx.RateLimit.{Answer, refused}
use pred_sx.Router.{
  Handler, health, stream, graphql, metrics, debug_markets, debug_market, debug_trades,
  debug_orderbook, debug_signals, debug_signals_by_market, gate, Gate, token_gate, rate_gate, Route,
  routes, on_answer, called, replied, through, serve,
}

-- The handlers that need no token and are not limited.
unfoldable pub is_open : Handler → Bool
is_open health = true
is_open stream = true
is_open graphql = true
is_open _ = false

-- The handlers that show the inside of the system.
unfoldable pub is_internal : Handler → Bool
is_internal metrics = true
is_internal debug_markets = true
is_internal debug_market = true
is_internal debug_trades = true
is_internal debug_orderbook = true
is_internal debug_signals = true
is_internal debug_signals_by_market = true
is_internal _ = false

-- The gates that a handler has to have.
gates_for : Handler → List Gate
unfolding is_open is_internal
gates_for h = if is_open h then [] else (if is_internal h then token_gate ∷ [] else rate_gate ∷ [])

routes-gates : All (λ (route : Route). route.gates ≡ gates_for route.handler) routes
unfolding routes gates_for
routes-gates = ground arith

module _ {ℓ κ} {A : Type ℓ} (P : A → Type κ) where
  All-get_elem? : (xs : List A) (i : ℕ) (x : A) → All P xs → get_elem? xs i ≡ some x → P x
  All-get_elem? [] i x h e = ground arith
  All-get_elem? (y ∷ ys) zero x h e = subst P ((some_inj).0 e) h.0
  All-get_elem? (y ∷ ys) (suc i) x h e = All-get_elem? ys i x h.1 e

module _ (origins token : String) (limit : Answer) (r : Request) where
  pub Guarded : Handler → Type 0
  Guarded h =
      (is_open h ≡ true)
      ⊎ (((is_internal h ≡ true) × (is_empty token ≡ false) × (provided r ≡ token))
          ⊎ ((is_internal h ≡ false) × (limit ≢ refused)))

  debug_auth-passed :
      debug_auth token r ≡ passed_on → (is_empty token ≡ false) × (provided r ≡ token)
  unfolding debug_auth
  debug_auth-passed h = ground (arith, h, eq_iff (provided r) token)

  through-called :
      (gs : List Gate) (h c : Handler)
      → through origins token limit r gs h ≡ called c
      → All (λ g. gate origins token limit r g ≡ passed_on) gs
  unfolding through
  through-called [] h c e = tt
  through-called (g ∷ gs) h c e =
      split (λ k. through-called gs h c k) (gate origins token limit r g) refl
    where
      split :
          (through origins token limit r gs h ≡ called c
            → All (λ k. gate origins token limit r k ≡ passed_on) gs)
          → (v : Verdict) → gate origins token limit r g ≡ v
          → All (λ k. gate origins token limit r k ≡ passed_on) (g ∷ gs)
      split later passed_on on =
          let opened : through origins token limit r (g ∷ gs) h
              ≡ through origins token limit r gs h =
            rw (through, on) refl in
          (on, later (sym opened ∙ e))
      split later (answered status text) stop =
          let opened : through origins token limit r (g ∷ gs) h ≡ replied status text =
            rw (through, stop) refl in
          let clash : replied status text ≡ called c = sym opened ∙ e in ground (arith, clash)

  refused-stops : on_answer refused ≢ passed_on
  refused-stops e = ground arith

  through-Guarded :
      (h c : Handler) → through origins token limit r (gates_for h) h ≡ called c → Guarded h
  unfolding gates_for Guarded gate
  through-Guarded h c e = elim (Bool-cases (is_open h)) [
    | inl opened ↦ inl opened
    | inr guarded ↦ elim (Bool-cases (is_internal h)) [
      | inl internal ↦
          let gates : gates_for h ≡ token_gate ∷ [] = ground arith in
          let passed =
            through-called (token_gate ∷ []) h c
              (subst (λ gs. through origins token limit r gs h ≡ called c) gates e) in
          let known = debug_auth-passed passed.0 in inr (inl (internal, known.0, known.1))
      | inr other ↦
          let gates : gates_for h ≡ rate_gate ∷ [] = ground arith in
          let passed =
            through-called (rate_gate ∷ []) h c
              (subst (λ gs. through origins token limit r gs h ≡ called c) gates e) in
          inr (
            inr (other, λ full. refused-stops (subst (λ v. on_answer v ≡ passed_on) full passed.0)))
    ]
  ]

  -- If a request is let through to the handler of one of the routes, then the handler is one of
  -- those that are open to all; or it shows the inside of the system, a token is set and the request
  -- has this token; or it belongs to the API and the rate limiter did not refuse the request.
  pub serve-Guarded :
      (i : ℕ) (route : Route) (h : Handler)
      → get_elem? routes i ≡ some route
      → (serve origins token limit r (some route)).1 ≡ called h
      → Guarded route.handler
  unfolding serve cors
  serve-Guarded i route h at reached =
      let gates =
        All-get_elem? (λ (k : Route). k.gates ≡ gates_for k.handler) routes i route routes-gates
          at in
      elim (Bool-cases (str_eq r.method "OPTIONS")) [
        | inl preflight ↦
            let opened : (serve origins token limit r (some route)).1 ≡ replied 204 "" =
              rw (serve, cors, preflight) refl in
            let clash : replied 204 "" ≡ called h = sym opened ∙ reached in ground (arith, clash)
        | inr other ↦
            let opened : (serve origins token limit r (some route)).1
                ≡ through origins token limit r route.gates route.handler =
              rw (serve, cors, other) refl in
            through-Guarded route.handler h (
              subst (λ gs. through origins token limit r gs route.handler ≡ called h) gates
                (sym opened ∙ reached))
      ]
