-- ===== src/RateLimit/Client.antt =====
-- The address that a request is counted under: `parseTrustedProxies`, `extractClientIP` and
-- `isTrusted` of predsx/services/api/middleware/ratelimit.go. The package net is a parameter.
pub mod Spoofed
use pred_sx.Base.{
  ℕ, Bool, true, false, not, ◌&&◌, ◌||◌, Option, none, some, List, [], ◌∷◌, String, if◌then◌else◌,
  ◌==◌, is_empty, append_text,
}
use pred_sx.Base.Split.{split, trim_space}
use pred_sx.Base.Text.{codes}
use pred_sx.Http.{Request, header}

pub record Net : Type 1 where
  pub Block : Type 0
  pub Address : Type 0
  -- The host of a host with a port, "" for an error.
  pub split_host : String → String
  pub parse_cidr : String → Option Block
  pub parse_ip : String → Option Address
  pub holds : Block → Address → Bool

abbrev has_code : ℕ → List ℕ → Bool
has_code c [] = false
has_code c (d ∷ ds) = d == c || has_code c ds

abbrev pub is_nil : {A : Type 0} → List A → Bool
is_nil [] = true
is_nil (x ∷ xs) = false

abbrev first_part : List String → String
first_part [] = ""
first_part (part ∷ parts) = part

module _ (n : Net) where
  -- The entry for one text, which gets "/32" where it has no slash; 47 is the slash.
  pub proxy_block : String → Option n.Block
  proxy_block text =
      n.parse_cidr (if has_code 47 (codes text) then text else append_text text "/32")

  pub proxy_blocks : List String → List n.Block
  unfolding proxy_block
  proxy_blocks [] = []
  proxy_blocks (raw ∷ parts) =
      let rest = proxy_blocks parts in
      if is_empty (trim_space raw)
      then rest
      else (elim (proxy_block (trim_space raw)) [ none ↦ rest | some block ↦ block ∷ rest ])

  -- `parseTrustedProxies`; 44 is the comma.
  pub parse_trusted_proxies : String → List n.Block
  unfolding proxy_blocks
  parse_trusted_proxies raw = if is_empty raw then [] else proxy_blocks (split 44 raw)

  unfoldable pub any_holds : List n.Block → n.Address → Bool
  any_holds [] ip = false
  any_holds (block ∷ blocks) ip = n.holds block ip || any_holds blocks ip

  unfoldable pub is_trusted : String → List n.Block → Bool
  unfolding any_holds
  is_trusted ip blocks = elim (n.parse_ip ip) [
    | none ↦ false
    | some address ↦ any_holds blocks address
  ]

  -- The address of the connection.
  unfoldable pub peer : Request → String
  peer r =
      if is_empty (n.split_host r.remote_addr) then r.remote_addr else n.split_host r.remote_addr

  -- `extractClientIP`
  pub extract_client_ip : Request → List n.Block → String
  unfolding peer is_trusted
  extract_client_ip r blocks =
      let first = trim_space (first_part (split 44 (header r "X-Forwarded-For"))) in
      let real = header r "X-Real-IP" in
      if not (is_nil blocks) && is_trusted (peer r) blocks
      then (if not (is_empty (header r "X-Forwarded-For")) && not (is_empty first)
          then first
          else (if is_empty real then peer r else trim_space real))
      else peer r

  pub client_ips : List Request → List n.Block → List String
  unfolding extract_client_ip
  client_ips [] blocks = []
  client_ips (r ∷ rs) blocks = extract_client_ip r blocks ∷ client_ips rs blocks
