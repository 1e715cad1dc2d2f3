-- ===== src/FieldCrypto/Stateless/Resolved.antt =====
-- Who resolves the session of a handshake: its own bearer token and tenant, and nobody else.
use bff_api_go_collection_ac.Base.{
  ℕ, ◌+◌, ◌^◌, ◌≤◌, ◌<◌, ◌≡◌, refl, sym, ap, ◌∙◌, String, ◌==◌, List, some, length, arith, lt→ltb,
  eq_iff, if◌then◌else◌,
}
use bff_api_go_collection_ac.Base.Ints.{ℤ, pos, wrap, ◌+ℤ◌}
use mathlib.Core.Path.{subst}
use bff_api_go_collection_ac.Base.Results.{ok, >>=-eq-ok, guard->>-eq-ok}
use bff_api_go_collection_ac.Base.Texts.{trim_space, to_lower}
use bff_api_go_collection_ac.Json.{Fields, str, get}
use bff_api_go_collection_ac.Json.Print.{sprint}
use bff_api_go_collection_ac.FieldCrypto.Errors.{session_invalid}
use bff_api_go_collection_ac.FieldCrypto.Digests.{
  assert_tenant_digest_explicit, hash_access_token, canonical_b64_url_decode,
}
use bff_api_go_collection_ac.FieldCrypto.Stateless.{
  Externals, Manager, Exchange, HandshakeResult, VerifiedSession, session_claims, key_for,
  handshake, check_claims, unwrap_key, resolve, parser_of, or_invalid,
}
use bff_api_go_collection_ac.FieldCrypto.Stateless.Lifetime.{
  IsSound, Opened, canonical-encode, check_claims-session_claims, handshake-Opened, to_lower-hex,
  or_invalid-eq-ok,
}

-- The manager that resolves: of the same secret, issuer and namespace, and with the key under which the session was
-- sealed, which need not be the active one any more.
pub record Succeeds {Byte Token : Type 0} (x : Externals Byte Token) (m later : Manager Byte)
    : Type 0 where
  pub same_secret : later.secret ≡ m.secret
  pub same_issuer : later.issuer ≡ m.issuer
  pub same_namespace : later.namespace ≡ m.namespace
  pub trimmed : trim_space later.namespace ≡ later.namespace
  pub key_kept : key_for x later.kek m.kek.active ≡ key_for x m.kek m.kek.active

some_str : {a b : String} → some a ≡ some b → a ≡ b
some_str h = cc

-- The lifetime of a session: it ends where the claims say, at most 300 seconds after its start.
pub record Lifetime {Byte : Type 0} (m : Manager Byte) (now later expires_at : ℕ) : Type 0 where
  pub ends : wrap (pos now +ℤ m.ttl) ≡ pos expires_at
  pub starts : now ≤ expires_at
  pub short : expires_at ≤ now + 300
  pub fits : expires_at < 2 ^ 63
  pub after_start : 5 ≤ later
  pub early : later < expires_at + 5

module _ {Byte Token : Type 0} (x : Externals Byte Token) (sound : IsSound x)
    (m later_m : Manager Byte) (client_public subject scope tenant_digest ath sid : String)
    (nonce : List Byte) (now : ℕ) (r : HandshakeResult Token)
    (opened : handshake x m client_public subject scope tenant_digest ath sid (some nonce) now
      ≡ ok r)
    (nonce_length : length nonce ≡ 12) where
  facts : Opened x sound m client_public subject scope tenant_digest ath sid nonce now r
  facts =
      handshake-Opened x sound m client_public subject scope tenant_digest ath sid nonce now r
        opened

  unwrap_key-session_claims :
      (f : Opened x sound m client_public subject scope tenant_digest ath sid nonce now r)
      (expires_at : ℕ)
      → wrap (pos now +ℤ m.ttl) ≡ pos expires_at
      → Succeeds x m later_m
      → unwrap_key x later_m
          (session_claims x m subject scope f.digest
            (to_lower (trim_space ath))
            sid
            now
            nonce
            f.sealed)
          sid
          (pos now)
          (pos expires_at)
        ≡ ok f.agreed.session_key
  unfolding unwrap_key session_claims get sprint
  unwrap_key-session_claims f expires_at ends s =
      let (unsealed, filled) = sound.open_seal _ _ _ _ f.sealing in
      rw
        (
          canonical-encode x sound nonce (omega (arith, nonce_length)),
          canonical-encode x sound f.sealed filled,
          nonce_length,
          s.key_kept,
          f.kek_found,
          to_lower-hex (to_lower (trim_space ath)) f.hex,
          ← ends,
          unsealed,
          sound.key_length f.client f.agreement,
        )
        (rw (lt→ltb 0 (length f.sealed) filled))

  parse_token :
      (f : Opened x sound m client_public subject scope tenant_digest ath sid nonce now r)
      (later expires_at : ℕ)
      → wrap (pos now +ℤ m.ttl) ≡ pos expires_at
      → later < expires_at + 5
      → Succeeds x m later_m
      → x.parse (parser_of x later_m) later r.crypto_access_token
        ≡ some (
            session_claims x m subject scope f.digest
              (to_lower (trim_space ath))
              sid
              now
              nonce
              f.sealed)
  unfolding session_claims get
  parse_token f later expires_at ends early s =
      rw (f.token, ← s.same_secret)
        (sound.parse_sign (parser_of x later_m) _ later expires_at refl
          (λ issuer e. ap (λ (t : String). some (str t)) (sym s.same_issuer ∙ some_str e)) refl
          (rw ends) early)

  same_ns : (ns : String) → (if ns == "" then ns else ns) ≡ ns
  same_ns ns = ground arith

  -- The claims of the session, as the later manager reads them.
  abbrev claims_of :
      Opened x sound m client_public subject scope tenant_digest ath sid nonce now r → Fields
  claims_of f =
      session_claims x m subject scope f.digest (to_lower (trim_space ath)) sid now nonce f.sealed

  resolve-Opened :
      (f : Opened x sound m client_public subject scope tenant_digest ath sid nonce now r)
      (later expires_at : ℕ) (authorization : String)
      → Succeeds x m later_m
      → Lifetime m now later expires_at
      → hash_access_token x.sha256_hex authorization ≡ ok (to_lower (trim_space ath))
      → resolve x later_m r.crypto_access_token sid tenant_digest authorization later_m.namespace
          later
        ≡ ok (record { session_id = sid; session_key = f.agreed.session_key })
  unfolding resolve
  resolve-Opened f later expires_at authorization s life bearer =
      let checked =
        subst
          (λ ns.
            check_claims x (claims_of f) sid ns f.digest (to_lower (trim_space ath)) later
            ≡ ok (pos now, pos expires_at))
          (sym s.same_namespace)
          (check_claims-session_claims x sound m subject scope f.digest (to_lower (trim_space ath))
            sid now later expires_at nonce f.sealed f.hex life.ends life.starts life.short life.fits
            life.after_start life.early) in
      rw (
        s.trimmed,
        same_ns later_m.namespace,
        f.digest_explicit,
        bearer,
        parse_token f later expires_at life.ends life.early s,
        checked,
        unwrap_key-session_claims f expires_at life.ends s,
      )

  -- The session of a handshake is resolved with the session key that the two sides have agreed on,
  -- by the same session id, tenant and bearer token, from its start until less than five seconds
  -- behind its end, by a manager with the same secret, issuer and namespace, also if its active key
  -- is another one, as long as it has the old key.
  pub resolve-handshake :
      (later expires_at : ℕ) (authorization : String)
      → Succeeds x m later_m
      → Lifetime m now later expires_at
      → hash_access_token x.sha256_hex authorization ≡ ok (to_lower (trim_space ath))
      → (client : List Byte) × (agreed : Exchange Byte) × (canonical_b64_url_decode x.b64
            client_public
          ≡ ok client)
        × (x.exchange client ≡ ok agreed)
        × (resolve x later_m r.crypto_access_token sid tenant_digest authorization later_m.namespace
              later
            ≡ ok (record { session_id = sid; session_key = agreed.session_key }))
  resolve-handshake later expires_at authorization s life bearer =
      let f = facts in
      (
        f.client,
        f.agreed,
        f.client_decoded,
        f.agreement,
        resolve-Opened f later expires_at authorization s life bearer,
      )

  -- The claims of the session fit to nobody else.
  check_claims_bound :
      (f : Opened x sound m client_public subject scope tenant_digest ath sid nonce now r)
      (sid' ns digest' hash' : String) (later : ℕ) {times : ℤ × ℤ}
      → check_claims x (claims_of f) sid' ns digest' hash' later ≡ ok times
      → (sid ≡ sid') × (f.digest ≡ digest') × (to_lower (trim_space ath) ≡ hash')
  unfolding check_claims session_claims get sprint
  check_claims_bound f sid' ns digest' hash' later h =
      let (e1, h1) = guard->>-eq-ok (sid == sid') session_invalid _ h in
      let (e2, h2) = guard->>-eq-ok (m.namespace == ns) session_invalid _ h1 in
      let (e3, h3) = guard->>-eq-ok (f.digest == digest') session_invalid _ h2 in
      let (e4, h4) =
        guard->>-eq-ok (to_lower (to_lower (trim_space ath)) == hash') session_invalid _ h3 in
      (
        (eq_iff sid sid').0 e1,
        (eq_iff f.digest digest').0 e3,
        sym (to_lower-hex _ f.hex) ∙ (eq_iff _ hash').0 e4,
      )

  -- Whoever resolves the session of a handshake, with whatever manager and at whatever time, has its
  -- session id, the digest of its tenant, and the bearer token of its hash; another namespace,
  -- secret or issuer does not matter to this.
  pub resolve_bound :
      (sid' digest' authorization namespace : String) (later : ℕ) (v : VerifiedSession Byte)
      → resolve x later_m r.crypto_access_token sid' digest' authorization namespace later ≡ ok v
      → (sid ≡ sid')
        × (assert_tenant_digest_explicit tenant_digest ≡ assert_tenant_digest_explicit digest')
        × (hash_access_token x.sha256_hex authorization ≡ ok (to_lower (trim_space ath)))
  unfolding resolve
  resolve_bound sid' digest' authorization namespace later v h =
      let f = facts in
      let (digest, e1, h1) = >>=-eq-ok (assert_tenant_digest_explicit digest') _ h in
      let (hash', e2, h2) = >>=-eq-ok (hash_access_token x.sha256_hex authorization) _ h1 in
      let (read, e3, h3) =
        >>=-eq-ok (or_invalid (x.parse (parser_of x later_m) later r.crypto_access_token)) _ h2 in
      let parsed : x.parse (parser_of x later_m) later r.crypto_access_token ≡ some read =
        or_invalid-eq-ok _ e3 in
      let signed =
        sound.parse_signed (parser_of x later_m) m.secret (claims_of f) later
          (rw f.token at parsed) in
      let (times, e4, h4) =
        >>=-eq-ok (check_claims x (claims_of f) sid' _ digest hash' later) _ (rw signed at h3) in
      let (same_sid, same_digest, same_hash) = check_claims_bound f sid' _ digest hash' later e4 in
      (
        same_sid,
        f.digest_explicit ∙ ap (λ (d : String). ok d) same_digest ∙ sym e1,
        e2 ∙ ap (λ (d : String). ok d) (sym same_hash),
      )
