-- ===== src/Middleware/Clients/Trusted.antt =====
-- Whose word counts for the key of a request.
use Prim.Native.String
use bff_api_go_collection_ac.Base.{
  ℕ, ◌<◌, String, ◌≡◌, ◌≢◌, refl, ◌⊎◌, true, false, inl, inr, [], Option, some, none, Bool, lt→ltb,
  Bool-cases,
}
use bff_api_go_collection_ac.Base.Texts.{eq_false_of_ne}
use bff_api_go_collection_ac.Middleware.RateLimit.{RateLimitStore, allow, times}
use bff_api_go_collection_ac.Middleware.RateLimit.Window.{allow-true}
use bff_api_go_collection_ac.Middleware.Clients.{
  Request, ClientIp, direct_host, parse_trusted_proxies, parse_skip_prefixes, any_prefix,
  is_trusted_proxy, resolve_client_ip, subject_of, rate_limit_principal, rate_limit_middleware,
}

module _ (in_network : String → String → Bool) (digest16 : String → String)
    (client_ip : ClientIp in_network digest16) where
  -- The header X-Forwarded-For of a caller who is known by a token does not matter, nor does that of
  -- one for whom gin's ClientIP gives the same address with both headers, and one of no trusted
  -- proxy: with any other header the request is answered the same and counted under the same key.
  pub rate_limit_middleware_forwarded :
      (store : Option RateLimitStore) (trusted_proxies skip_prefixes : String) (r : Request)
      (forwarded_for : String) (now : ℕ)
      → (subject_of in_network digest16 r.identity ≢ "")
        ⊎ ((client_ip r.remote_addr forwarded_for r.real_ip
              ≡ direct_host in_network digest16 client_ip r)
            × (is_trusted_proxy in_network digest16
                  (direct_host in_network digest16 client_ip r)
                  (parse_trusted_proxies trusted_proxies)
                ≡ false))
      → rate_limit_middleware in_network digest16 client_ip store trusted_proxies skip_prefixes
          (record r { forwarded_for = forwarded_for })
          now
        ≡ rate_limit_middleware in_network digest16 client_ip store trusted_proxies skip_prefixes r
            now
  unfolding rate_limit_middleware rate_limit_principal resolve_client_ip
  rate_limit_middleware_forwarded store trusted_proxies skip_prefixes r forwarded_for now
        (inl known) =
      rw (eq_false_of_ne (subject_of in_network digest16 r.identity) "" known)
  rate_limit_middleware_forwarded store trusted_proxies skip_prefixes r forwarded_for now
        (inr (same, untrusted)) =
      rw (same, untrusted)

  -- Where gin's ClientIP takes the address of the header X-Forwarded-For, as it does for each peer
  -- unless SetTrustedProxies is called, a caller without a token who names there an address of no
  -- trusted proxy, for which the store holds no request to this path, is let through: whatever the
  -- caller's own address is, and however many requests came from there.
  pub rate_limit_middleware_spoofed :
      (s : RateLimitStore) (trusted_proxies skip_prefixes : String) (r : Request) (named : String)
      (now : ℕ)
      → r.identity ≡ none
      → client_ip r.remote_addr named r.real_ip ≡ named
      → is_trusted_proxy in_network digest16 named (parse_trusted_proxies trusted_proxies) ≡ false
      → times s (String.◌++◌ (String.◌++◌ "ip:" named) (String.◌++◌ ":" r.path)) ≡ []
      → 0 < s.limit
      → (rate_limit_middleware in_network digest16 client_ip
          (some s)
          trusted_proxies
          skip_prefixes
          (record r { forwarded_for = named })
          now).1
        ≡ true
  unfolding rate_limit_middleware rate_limit_principal resolve_client_ip
  rate_limit_middleware_spoofed s trusted_proxies skip_prefixes r named now unknown taken untrusted
        unseen some_room =
      elim (Bool-cases (any_prefix r.path (parse_skip_prefixes skip_prefixes))) [
        | inl skipped ↦ rw skipped refl
        | inr counted ↦
            let key = String.◌++◌ (String.◌++◌ "ip:" named) (String.◌++◌ ":" r.path) in
            let passes : (allow s key now).1 ≡ true =
              rw (allow-true s key now, unseen) (lt→ltb 0 s.limit some_room) in
            rw (counted, unknown, taken, untrusted) passes
      ]
