-- ===== src/RateLimit/Client/Spoofed.antt =====
-- A client that is not a trusted proxy cannot choose the address it is counted under.
use Prim.Native.Nat.{min}
use pred_sx.Base.{
  ℕ, suc, ◌-◌, ◌≡◌, refl, ap, ◌∙◌, false, inl, inr, Option, List, [], ◌∷◌, String, str_eq_refl,
  length, All, Bool-cases,
}
use pred_sx.Http.{Request}
use pred_sx.RateLimit.{default_rpm, limit_key, rate_limits}
use pred_sx.RateLimit.Window.{IsCounter, passes, asked, passes-rate_limits}
use pred_sx.RateLimit.Client.{Net, is_nil, is_trusted, peer, extract_client_ip, client_ips}

module _ (n : Net) (blocks : List n.Block) (ip : String) where
  extract_client_ip-untrusted :
      (r : Request)
      → is_trusted n ip blocks ≡ false
      → peer n r ≡ ip
      → extract_client_ip n r blocks ≡ ip
  unfolding extract_client_ip
  extract_client_ip-untrusted r outside from =
      let untrusted : is_trusted n (peer n r) blocks ≡ false =
        ap (λ p. is_trusted n p blocks) from ∙ outside in
      elim (Bool-cases (is_nil blocks)) [
        | inl none_there ↦ rw (extract_client_ip, none_there) from
        | inr some_there ↦ rw (extract_client_ip, some_there, untrusted) from
      ]

  asked-client_ips :
      (rs : List Request)
      → is_trusted n ip blocks ≡ false
      → All (λ r. peer n r ≡ ip) rs
      → asked (limit_key ip) (client_ips n rs blocks) ≡ length rs
  unfolding asked client_ips
  asked-client_ips [] outside from = refl
  asked-client_ips (r ∷ rs) outside from =
      let own = extract_client_ip-untrusted r outside from.0 in
      let later = asked-client_ips rs outside from.1 in
      rw (asked, client_ips, own, str_eq_refl (limit_key ip)) (ap suc later)

  -- In one window of a Redis that answers, a client at an address that is not a trusted proxy has at
  -- most as many requests passed as are left of the 60 of that address, whatever X-Forwarded-For and
  -- X-Real-IP say in each of them; that many do pass.
  pub passes-client_ips :
      {R : Type 0} (incr : String → R → Option ℕ × R) (expire : String → R → R)
      (value : String → R → ℕ) (rs : List Request) (r : R)
      → IsCounter incr expire value
      → is_trusted n ip blocks ≡ false
      → All (λ q. peer n q ≡ ip) rs
      → passes (limit_key ip) (rate_limits incr expire (client_ips n rs blocks) r)
        ≡ min (default_rpm - value (limit_key ip) r) (length rs)
  passes-client_ips incr expire value rs r law outside from =
      passes-rate_limits incr expire value (limit_key ip) (client_ips n rs blocks) r law
      ∙ ap (λ m. min (default_rpm - value (limit_key ip) r) m) (asked-client_ips rs outside from)
