-- ===== src/Stream/Covered.antt =====
-- Which tokens a worker's connection was asked for.
use pred_sx.Base.{
  ◌≡◌, Bool, true, false, ◌||◌, inl, inr, Option, none, some, List, [], ◌∷◌, String, arith, str_eq,
  Bool-cases,
}
use pred_sx.Stream.{
  Message, initial, operation, ping, Connection, StreamWorker, new_worker, has_token, write_message,
  send_initial, send_initial_to, announce, add_token, write_ping, Phase, ready, dialled, cleared,
  Step, dial, clear, subscribe, write, add,
}

-- Whether a message asks for the token.
pub announces : String → Message → Bool
unfolding has_token
announces token (initial tokens) = has_token token tokens
announces token (operation other) = str_eq other token
announces token ping = false

pub covers : String → List Message → Bool
unfolding announces
covers token [] = false
covers token (m ∷ ms) = announces token m || covers token ms

-- Every token was asked for on the connection, unless a write to it has failed.
abbrev pub CoveredBy : List String → Option Connection → Type 0
CoveredBy tokens none = Unit
CoveredBy tokens (some c) =
    c.is_broken ≡ false
    → (token : String) → has_token token tokens ≡ true
    → covers token c.sent ≡ true

abbrev pub IsCovered : Phase × StreamWorker → Type 0
IsCovered (ready, w) = CoveredBy w.tokens w.client
IsCovered (dialled, w) = Unit
IsCovered (cleared, w) = Unit

write_message-CoveredBy :
    (m : Message) (ok : Bool) (tokens : List String) (c : Connection)
    → CoveredBy tokens (some c)
    → CoveredBy tokens (some (write_message m ok c))
unfolding write_message covers
write_message-CoveredBy m true tokens c h whole token at = ground (arith, h whole token at)
write_message-CoveredBy m false tokens c h whole token at = ground arith

module _ (visit : List String → List String) where
  -- Visiting a map leaves no token out.
  abbrev pub IsVisit : Type 0
  IsVisit =
      (token : String) (tokens : List String)
      → has_token token tokens ≡ true
      → has_token token (visit tokens) ≡ true

  initial-CoveredBy :
      (ok : Bool) (tokens : List String) (c : Connection)
      → IsVisit
      → CoveredBy tokens (some (write_message (initial (visit tokens)) ok c))
  unfolding write_message covers announces
  initial-CoveredBy true tokens c v whole token at = ground (arith, v token tokens at)
  initial-CoveredBy false tokens c v whole token at = ground arith

  send_initial-CoveredBy :
      (ok : Bool) (tokens : List String) (client : Option Connection) (subscribed : Bool)
      → IsVisit
      → IsCovered (
        ready,
        send_initial visit ok
            (record { tokens = tokens; client = client; subscribed = subscribed }),
      )
  unfolding send_initial send_initial_to has_token
  send_initial-CoveredBy ok tokens none subscribed v = tt
  send_initial-CoveredBy ok [] (some c) subscribed v = λ whole token at. ground arith
  send_initial-CoveredBy ok (t ∷ ts) (some c) subscribed v = initial-CoveredBy ok (t ∷ ts) c v

  operation-CoveredBy :
      (token : String) (ok : Bool) (tokens : List String) (c : Connection)
      → CoveredBy tokens (some c)
      → CoveredBy (token ∷ tokens) (some (write_message (operation token) ok c))
  unfolding write_message covers announces has_token
  operation-CoveredBy token true tokens c h whole other at = ground (arith, h whole other)
  operation-CoveredBy token false tokens c h whole other at = ground arith

  announce-IsCovered :
      (token : String) (ok : Bool) (tokens : List String) (client : Option Connection)
      (subscribed : Bool)
      → IsVisit
      → CoveredBy tokens client
      → IsCovered (
        ready,
        announce visit token ok client
            (record { tokens = token ∷ tokens; client = client; subscribed = subscribed }),
      )
  unfolding announce
  announce-IsCovered token ok tokens none subscribed v h = tt
  announce-IsCovered token ok tokens (some c) true v h = operation-CoveredBy token ok tokens c h
  announce-IsCovered token ok tokens (some c) false v h =
      send_initial-CoveredBy ok (token ∷ tokens) (some c) false v

  add_token-IsCovered :
      (token : String) (ok : Bool) (w : StreamWorker)
      → IsVisit
      → IsCovered (ready, w)
      → IsCovered (ready, add_token visit token ok w)
  unfolding add_token
  add_token-IsCovered token ok w v h = elim (Bool-cases (has_token token w.tokens)) [
    | inl known ↦ rw known h
    | inr new ↦ rw new (announce-IsCovered token ok w.tokens w.client w.subscribed v h)
  ]

  write_ping-IsCovered :
      (ok : Bool) (tokens : List String) (client : Option Connection) (subscribed : Bool)
      → CoveredBy tokens client
      → IsCovered (
        ready,
        write_ping ok (record { tokens = tokens; client = client; subscribed = subscribed }),
      )
  unfolding write_ping
  write_ping-IsCovered ok tokens none subscribed h = tt
  write_ping-IsCovered ok tokens (some c) subscribed h = write_message-CoveredBy ping ok tokens c h

  Step-IsCovered :
      {s s' : Phase × StreamWorker} → IsVisit → Step visit s s' → IsCovered s → IsCovered s'
  Step-IsCovered v (dial w) h = tt
  Step-IsCovered v (clear w) h = tt
  Step-IsCovered v (subscribe ok w) h = send_initial-CoveredBy ok w.tokens w.client w.subscribed v
  Step-IsCovered v (write ok ready w) h = write_ping-IsCovered ok w.tokens w.client w.subscribed h
  Step-IsCovered v (write ok dialled w) h = tt
  Step-IsCovered v (write ok cleared w) h = tt
  Step-IsCovered v (add token ok ready w) h = add_token-IsCovered token ok w v h
  Step-IsCovered v (add token ok dialled w) h = tt
  Step-IsCovered v (add token ok cleared w) h = tt

  pub data Reach : Phase × StreamWorker → Type 0 where
    start : Reach (ready, new_worker)
    next : (s s' : Phase × StreamWorker) → Reach s → Step visit s s' → Reach s'

  -- However a worker's connecting, its pings and the manager's `AddToken` interleave: outside of
  -- `connect`, each token of the worker was asked for on the connection that it has, in the first
  -- subscription or by an operation of its own, unless a write to this connection has failed.
  -- The order in which the map of tokens is visited leaves out no token.
  pub Reach-IsCovered : (s : Phase × StreamWorker) → IsVisit → Reach s → IsCovered s
  unfolding new_worker
  Reach-IsCovered s v start = tt
  Reach-IsCovered s v (next s0 s1 r step) = Step-IsCovered v step (Reach-IsCovered s0 v r)
