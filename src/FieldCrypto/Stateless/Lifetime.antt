-- ===== src/FieldCrypto/Stateless/Lifetime.antt =====
-- A session that a handshake has opened is resolved for its lifetime, by its bearer token alone.
use Prim.Native.String.{String, [], ◌∷◌, len}
use bff_api_go_collection_ac.Base.{
  ℕ, ◌+◌, ◌-◌, ◌^◌, ◌≤◌, ◌<◌, ◌≡◌, ◌≢◌, refl, Bool, true, false, ◌&&◌, eq_refl, List, Option, none,
  some, length, eqb, arith,
}
use bff_api_go_collection_ac.Base.Ints.{pos, wrap, wrap-pos, pos-sub, ◌+ℤ◌}
use bff_api_go_collection_ac.Base.Results.{ok, >>=-eq-ok, guard->>-eq-ok}
use bff_api_go_collection_ac.Base.Texts.{trim_space, to_lower, lower_char, eq_false_of_ne}
use bff_api_go_collection_ac.Json.{Fields, num, str, get}
use bff_api_go_collection_ac.Json.Print.{sprint}
use bff_api_go_collection_ac.FieldCrypto.Errors.{session_invalid}
use bff_api_go_collection_ac.FieldCrypto.Digests.{
  assert_tenant_digest_explicit, is_hex, is_url_text, canonical_b64_url_decode,
}
use bff_api_go_collection_ac.FieldCrypto.Stateless.{
  Externals, Manager, Exchange, HandshakeResult, session_aad, session_claims, key_for, handshake,
  check_claims, or_invalid, ParserOptions,
}

-- What the packages say of themselves: a token that was signed with the secret of the parser is
-- taken until its leeway behind its end, if it is for the audience and of the issuer; what is read
-- of a token is what was signed; base64 and AES-GCM are undone, and a derived key has 32 bytes.
pub record IsSound {Byte Token : Type 0} (x : Externals Byte Token) : Type 0 where
  pub parse_sign :
      (o : ParserOptions) (claims : Fields) (now expires_at : ℕ)
      → get "aud" claims ≡ some (str o.audience)
      → ((issuer : String) → o.issuer ≡ some issuer → get "iss" claims ≡ some (str issuer))
      → get "nbf" claims ≡ none
      → get "exp" claims ≡ some (num (pos expires_at))
      → now < expires_at + o.leeway
      → x.parse o now (x.sign o.secret claims) ≡ some claims
  pub parse_signed :
      (o : ParserOptions) (secret : String) (claims : Fields) (now : ℕ) {read : Fields}
      → x.parse o now (x.sign secret claims) ≡ some read
      → read ≡ claims
  pub url_text : (bs : List Byte) → is_url_text (x.b64.encode bs) ≡ true
  pub filled : (bs : List Byte) → 0 < length bs → x.b64.encode bs ≢ ""
  pub back : (bs : List Byte) → x.b64.decode (x.b64.encode bs) ≡ some bs
  pub open_seal :
      (key nonce plain ad : List Byte) {sealed : List Byte}
      → x.seal key nonce plain ad ≡ some sealed
      → (x.open_sealed key nonce sealed ad ≡ some plain) × (0 < length sealed)
  pub key_length :
      (client : List Byte) {agreed : Exchange Byte}
      → x.exchange client ≡ ok agreed
      → length agreed.session_key ≡ 32

-- Digits of hexadecimal numbers are small letters already.
pub to_lower-hex : (s : String) → is_hex s ≡ true → to_lower s ≡ s
unfolding is_hex to_lower lower_char
to_lower-hex [] h = refl
to_lower-hex (c ∷ s) h = ground (arith, to_lower-hex s)

pub or_invalid-eq-ok : {A : Type 0} (o : Option A) {a : A} → or_invalid o ≡ ok a → o ≡ some a
or_invalid-eq-ok none h = cc
or_invalid-eq-ok (some a) h = cc

module _ {Byte Token : Type 0} (x : Externals Byte Token) (sound : IsSound x) where
  pub canonical-encode :
      (bs : List Byte) → 0 < length bs → canonical_b64_url_decode x.b64 (x.b64.encode bs) ≡ ok bs
  unfolding canonical_b64_url_decode
  canonical-encode bs h = rw (
    eq_false_of_ne (x.b64.encode bs) "" (sound.filled bs h),
    sound.url_text bs,
    sound.back bs,
    eq_refl (x.b64.encode bs),
  )

  -- The claims of a session, looked at from its start until five seconds behind its end.
  pub check_claims-session_claims :
      (m : Manager Byte) (subject scope digest ath sid : String) (now later expires_at : ℕ)
      (nonce sealed : List Byte)
      → is_hex ath ≡ true
      → wrap (pos now +ℤ m.ttl) ≡ pos expires_at
      → now ≤ expires_at
      → expires_at ≤ now + 300
      → expires_at < 2 ^ 63
      → 5 ≤ later
      → later < expires_at + 5
      → check_claims x
          (session_claims x m subject scope digest ath sid now nonce sealed)
          sid
          m.namespace
          digest
          ath
          later
        ≡ ok (pos now, pos expires_at)
  unfolding check_claims session_claims get sprint
  check_claims-session_claims m subject scope digest ath sid now later expires_at nonce sealed hex
        ends le short fits h5 early =
      rw
        (
          ends,
          eq_refl sid,
          eq_refl m.namespace,
          eq_refl digest,
          to_lower-hex ath hex,
          eq_refl ath,
          pos-sub expires_at now le,
          wrap-pos (expires_at - now) (omega arith),
          pos-sub later 5 h5,
          wrap-pos (later - 5) (omega arith),
        )
        (ground arith)

  -- What a handshake that succeeds has done.
  pub record Opened (m : Manager Byte) (client_public subject scope tenant_digest ath sid : String)
      (nonce : List Byte) (now : ℕ) (r : HandshakeResult Token) : Type 0 where
    pub digest : String
    pub client : List Byte
    pub agreed : Exchange Byte
    pub kek : List Byte
    pub sealed : List Byte
    pub digest_explicit : assert_tenant_digest_explicit tenant_digest ≡ ok digest
    pub hex : is_hex (to_lower (trim_space ath)) ≡ true
    pub client_decoded : canonical_b64_url_decode x.b64 client_public ≡ ok client
    pub agreement : x.exchange client ≡ ok agreed
    pub kek_found : key_for x m.kek m.kek.active ≡ ok kek
    pub sealing :
        x.seal kek nonce agreed.session_key (
          x.bytes (
            session_aad m.namespace digest sid subject scope "v1"
              (pos now)
              (wrap (pos now +ℤ m.ttl))
              m.kek.active
              (to_lower (trim_space ath))))
        ≡ some sealed
    pub session_id : r.crypto_session_id ≡ sid
    pub token :
        r.crypto_access_token
        ≡ x.sign m.secret (
            session_claims x m subject scope digest
              (to_lower (trim_space ath))
              sid
              now
              nonce
              sealed)

  and_true : (a b : Bool) → (a && b) ≡ true → b ≡ true
  and_true true b h = h
  and_true false b h = cc

  pub handshake-Opened :
      (m : Manager Byte) (client_public subject scope tenant_digest ath sid : String)
      (nonce : List Byte) (now : ℕ) (r : HandshakeResult Token)
      → handshake x m client_public subject scope tenant_digest ath sid (some nonce) now ≡ ok r
      → Opened m client_public subject scope tenant_digest ath sid nonce now r
  unfolding handshake
  handshake-Opened m client_public subject scope tenant_digest ath sid nonce now r h =
      let (digest, e1, h1) = >>=-eq-ok (assert_tenant_digest_explicit tenant_digest) _ h in
      let (e2, h2) =
        guard->>-eq-ok
          (eqb (len (to_lower (trim_space ath))) 64 && is_hex (to_lower (trim_space ath)))
          session_invalid _ h1 in
      let (client, e3, h3) = >>=-eq-ok (canonical_b64_url_decode x.b64 client_public) _ h2 in
      let (agreed, e4, h4) = >>=-eq-ok (x.exchange client) _ h3 in
      let (kek, e5, h5) = >>=-eq-ok (key_for x m.kek m.kek.active) _ h4 in
      let (sealed, e6, h6) = >>=-eq-ok (or_invalid _) _ h5 in
      record {
        digest = digest;
        client = client;
        agreed = agreed;
        kek = kek;
        sealed = sealed;
        digest_explicit = e1;
        hex = and_true _ _ e2;
        client_decoded = e3;
        agreement = e4;
        kek_found = e5;
        sealing = or_invalid-eq-ok _ e6;
        session_id = cc;
        token = cc;
      }
