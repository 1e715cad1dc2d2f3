-- ===== src/Middleware/Clients.antt =====
-- internal/interface/api/middleware/rate_limit.go: which key a request counts under. SHA-256 in
-- hex, gin's ClientIP, and the test whether an address lies in a network of package net, are
-- parameters.
pub mod Trusted
use Prim.Native.String
use bff_api_go_collection_ac.Base.{
  ℕ, String, Bool, true, false, not, ◌||◌, ◌==◌, List, [], ◌∷◌, Option, none, some, if◌then◌else◌,
}
use bff_api_go_collection_ac.Base.Texts.{trim_space, split}
use bff_api_go_collection_ac.FieldCrypto.Envelope.{has_prefix}
use bff_api_go_collection_ac.Auth.Tokens.{trimmed_parts, has}
use bff_api_go_collection_ac.Auth.Access.{CognitoContext}
use bff_api_go_collection_ac.Middleware.RateLimit.{RateLimitStore, allow}

-- What the middleware reads of a request: its path, the identity, and what gin's ClientIP reads,
-- which is the address of the peer and the headers X-Forwarded-For and X-Real-IP.
pub record Request : Type 0 where
  pub path : String
  pub identity : Option CognitoContext
  pub remote_addr : String
  pub forwarded_for : String
  pub real_ip : String

abbrev pub parse_trusted_proxies : String → List String
parse_trusted_proxies raw = trimmed_parts (split b',' raw)

abbrev pub parse_skip_prefixes : String → List String
parse_skip_prefixes raw = trimmed_parts (split b',' raw)

abbrev first_of : List String → String
first_of [] = ""
first_of (s ∷ l) = s

abbrev pub any_prefix : String → List String → Bool
any_prefix path [] = false
any_prefix path (prefix ∷ rest) = if has_prefix path prefix then true else any_prefix path rest

-- net.ParseCIDR of the second text gives a network, which holds the address of the first.
module _ (in_network : String → String → Bool) (digest16 : String → String) where
  abbrev pub in_networks : String → List String → Bool
  in_networks host [] = false
  in_networks host (proxy ∷ rest) = if in_network host proxy then true else in_networks host rest

  unfoldable pub is_trusted_proxy : String → List String → Bool
  is_trusted_proxy host trusted = if has host trusted then true else in_networks host trusted

  unfoldable pub resolve_client_ip :
      (direct_host forwarded_for : String) → (trusted : List String) → String
  resolve_client_ip direct_host forwarded_for trusted =
      if not (is_trusted_proxy direct_host trusted) || trim_space forwarded_for == ""
      then direct_host
      else trim_space (first_of (split b',' forwarded_for))

  -- ClientIP of gin, of the address of the peer and of the two headers.
  abbrev pub ClientIp : Type 0
  ClientIp = (remote_addr forwarded_for real_ip : String) → String

  abbrev pub direct_host : ClientIp → Request → String
  direct_host client_ip r = client_ip r.remote_addr r.forwarded_for r.real_ip

  abbrev pub subject_of : Option CognitoContext → String
  subject_of none = ""
  subject_of (some ctx) = trim_space ctx.sub

  unfoldable pub rate_limit_principal : ClientIp → Request → List String → String
  rate_limit_principal client_ip r trusted =
      let subject = subject_of r.identity in
      if subject == ""
      then String.◌++◌ "ip:" (resolve_client_ip (direct_host client_ip r) r.forwarded_for trusted)
      else String.◌++◌ "sub:" (digest16 subject)

  abbrev pub allow_in : Option RateLimitStore → String → (now : ℕ) → Option RateLimitStore × Bool
  allow_in none key now = (none, true)
  allow_in (some s) key now = let (after, passes) = allow s key now in (some after, passes)

  -- RateLimitMiddleware: whether the request goes on, or is refused with 429.
  unfoldable pub rate_limit_middleware :
      ClientIp
      → Option RateLimitStore
      → (trusted_proxies skip_prefixes : String) → Request
      → (now : ℕ) → Option RateLimitStore × Bool
  rate_limit_middleware client_ip store trusted_proxies skip_prefixes r now =
      if any_prefix r.path (parse_skip_prefixes skip_prefixes)
      then (store, true)
      else (let principal =
            rate_limit_principal client_ip r (parse_trusted_proxies trusted_proxies) in
          allow_in store (String.◌++◌ principal (String.◌++◌ ":" r.path)) now)
