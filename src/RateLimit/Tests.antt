-- ===== src/RateLimit/Tests.antt =====
-- A counter for each key, and the theorem about the rate limiter at it.
use Prim.Native.Nat.{min}
use pred_sx.Base.{ℕ, suc, ◌-◌, ◌≡◌, refl, Option, some, [], ◌∷◌, String, if◌then◌else◌, str_eq}
use pred_sx.Http.{Request}
use pred_sx.RateLimit.Client.{Net, is_trusted, peer, client_ips}
use pred_sx.RateLimit.Client.Spoofed.{passes-client_ips}
use pred_sx.RateLimit.{default_rpm, limit_key, rate_limits}
use pred_sx.RateLimit.Window.{IsCounter, passes}

-- A count of its own for each key.
abbrev incr : String → (String → ℕ) → Option ℕ × (String → ℕ)
incr k r = (some (suc (r k)), λ j. if str_eq k j then suc (r j) else r j)

abbrev expire : String → (String → ℕ) → (String → ℕ)
expire k r = r

abbrev value : String → (String → ℕ) → ℕ
value k r = r k

incr-IsCounter : IsCounter incr expire value
incr-IsCounter = record { answer = λ k r. refl; counted = λ j k r. refl; kept = λ j k r. refl }

-- A client that has asked 59 times.
abbrev asked_before : String → ℕ
asked_before k = if str_eq k "rl:a" then 59 else 0

-- Addresses are their texts, and one address is trusted.
abbrev addresses : Net
addresses = record {
  Block = String;
  Address = String;
  split_host = λ s. "";
  parse_cidr = λ s. some s;
  parse_ip = λ s. some s;
  holds = λ block ip. str_eq block ip;
}

abbrev claims : String → Request
claims ip = record {
  method = "GET";
  headers = ("X-Forwarded-For", ip) ∷ [];
  query = [];
  remote_addr = "b";
}

passes-client_ips_example :
    passes (limit_key "b") (
      rate_limits incr expire
        (client_ips addresses (claims "x" ∷ claims "y" ∷ []) ("p" ∷ []))
        asked_before)
    ≡ min (default_rpm - asked_before (limit_key "b")) 2
unfolding is_trusted peer
passes-client_ips_example =
    passes-client_ips addresses ("p" ∷ []) "b" incr expire value (claims "x" ∷ claims "y" ∷ [])
      asked_before incr-IsCounter refl (refl, (refl, tt))
