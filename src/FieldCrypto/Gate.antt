-- ===== src/FieldCrypto/Gate.antt =====
-- internal/interface/api/middleware/fieldcrypto.go: the middleware that opens the bodies of requests
-- and seals those of answers. What net/http, gin and encoding/json do with bodies is `Bodies`; the
-- handlers behind the middleware are a function of the request, which gives what they wrote.
pub mod Guarded
pub mod Session
pub mod Admitted
use bff_api_go_collection_ac.Base.{
  ℕ, String, Bool, true, false, not, ◌&&◌, ◌||◌, ◌==◌, List, Option, none, some, eqb, leb, ltb, ◌≡◌,
  if◌then◌else◌,
}
use bff_api_go_collection_ac.Base.Results.{Result, ok, err, guard, ◌>>=◌, ◌>>◌}
use bff_api_go_collection_ac.Base.Texts.{to_lower}
use bff_api_go_collection_ac.FieldCrypto.Kek.{contains_text}
use bff_api_go_collection_ac.Json.{Json, obj, end}
use bff_api_go_collection_ac.FieldCrypto.Errors.{
  FieldCryptoError, ErrorEnvelope, session_invalid, payload_too_large, crypto_error,
  encryption_failed, public_error_envelope,
}
use bff_api_go_collection_ac.FieldCrypto.Service.{
  FieldCryptoService, decrypt_json, encrypt_json, count_scalars,
}
use bff_api_go_collection_ac.FieldCrypto.Stateless
use bff_api_go_collection_ac.FieldCrypto.Stateless.{Externals, VerifiedSession}
use bff_api_go_collection_ac.FieldCrypto.Store.{
  CryptoSessionManager, fixed_session_key_provider, verify_access_token, session_key,
}
use bff_api_go_collection_ac.FieldCrypto.Policy.{CryptoRule, resolve_rule}
use bff_api_go_collection_ac.FieldCrypto.Tenants.{TenantContext}

-- Bodies in bytes: their length, one behind another, encoding/json, and the body that gin's
-- AbortWithStatusJSON writes for an error.
pub record Bodies (Raw : Type 0) : Type 0 where
  pub size : Raw → ℕ
  pub unmarshal : Raw → Option Json
  pub append : Raw → Raw → Raw
  pub marshal : Json → Option Raw
  pub envelope : ErrorEnvelope → Raw

-- What the middleware reads of a request; `body` is none if it cannot be read.
pub record Request (Token Raw : Type 0) : Type 0 where
  pub method : String
  pub path : String
  pub session_id : String
  pub token : Token
  pub authorization : String
  pub tenant_id : String
  pub trace_id : String
  pub body : Option Raw

-- What the handlers wrote: a status, if they gave one, the type of the content and the body.
pub record Captured (Raw : Type 0) : Type 0 where
  pub status_code : Option ℕ
  pub content_type : String
  pub body : Raw

-- What the client gets; `dropped` is the answer of net/http where nothing was written: the status
-- 200 with no body.
pub data Answer (Raw : Type 0) : Type 0 where
  passed : Captured Raw → Answer Raw
  aborted : ErrorEnvelope → Answer Raw
  dropped : Answer Raw
  protected : (status : ℕ) (body : Raw) (kid : String) (fields_count : ℕ) → Answer Raw

-- fieldCryptoResponseWriter: what it has captured, and what was written to the writer beneath it.
pub record ResponseWriter (Raw : Type 0) : Type 0 where
  pub captured : Captured Raw
  pub beneath : Option (Answer Raw)

-- SessionManager any; a manager of the store mode holds its sessions.
pub data SessionManager (Byte : Type 0) : Type 0 where
  no_manager : SessionManager Byte
  stateless : Stateless.Manager Byte → SessionManager Byte
  stored : CryptoSessionManager Byte → SessionManager Byte
  other : SessionManager Byte

-- The configuration, with the tenant authority as its Resolve.
pub record Gate (Byte Token Raw : Type 0) : Type 0 where
  pub externals : Externals Byte Token
  pub bodies : Bodies Raw
  pub service : FieldCryptoService Byte
  pub rules : List CryptoRule
  pub enabled : Bool
  pub max_payload_size : ℕ
  pub manager : SessionManager Byte
  pub resolve_tenant :
      (authorization tenant_selector user_email : String) (consult_core : Bool) (trace_id : String)
      → Result FieldCryptoError TenantContext

-- What the handlers were given, if they ran, what the client gets, and the manager afterwards.
pub record Outcome (Byte Token Raw : Type 0) : Type 0 where
  pub manager : SessionManager Byte
  pub handled : Option (Request Token Raw)
  pub answer : Answer Raw

-- isJSONContentType
unfoldable pub is_json_content_type : String → Bool
is_json_content_type content_type = contains_text (to_lower content_type) "application/json"

abbrev pub status_or_ok : Option ℕ → ℕ
status_or_ok none = 200
status_or_ok (some status) = status

-- The answers that are sealed: those of a status from 200 to 299 with JSON in them.
abbrev pub is_sealable : {Raw : Type 0} → Captured Raw → Bool
is_sealable a =
    let status = status_or_ok a.status_code in
    leb 200 status && ltb status 300 && is_json_content_type a.content_type

abbrev pub or_error {ℓ} : {A : Type ℓ} → FieldCryptoError → Option A → Result FieldCryptoError A
or_error e none = err e
or_error e (some a) = ok a

pub or_error-eq-ok {ℓ} :
    {A : Type ℓ} (e : FieldCryptoError) (o : Option A) {a : A} → or_error e o ≡ ok a → o ≡ some a
or_error-eq-ok e none h = absurd (cc h)
or_error-eq-ok e (some b) h = cc

module _ {Byte Token Raw : Type 0} (g : Gate Byte Token Raw) where
  -- The session of a request in stateless mode: that of its token, for the tenant and the caller.
  unfoldable pub stateless_service :
      Stateless.Manager Byte
      → Request Token Raw
      → (now : ℕ) → Result FieldCryptoError (FieldCryptoService Byte)
  stateless_service m r now = do
    authorized ← g.resolve_tenant r.authorization r.tenant_id "" false r.trace_id
    verified ←
        Stateless.resolve g.externals m r.token r.session_id authorized.tenant_digest
          r.authorization m.namespace now
    fixed_session_key_provider g.service verified

  abbrev pub stored_service : Option (List Byte) → Result FieldCryptoError (FieldCryptoService Byte)
  stored_service none = err session_invalid
  stored_service (some key) = ok g.service

  -- The switch over the mode; `seconds` is the time in seconds and `now` in nanoseconds.
  unfoldable pub check_session :
      SessionManager Byte
      → Request Token Raw
      → (seconds now : ℕ) → SessionManager Byte × Result FieldCryptoError (FieldCryptoService Byte)
  check_session no_manager r seconds now = (no_manager, err session_invalid)
  check_session (stateless m) r seconds now = (stateless m, stateless_service m r seconds)
  check_session (stored m) r seconds now =
      let (m', key) = session_key g.externals m r.session_id now in
      if verify_access_token g.externals m r.token r.session_id now
      then (stored m', stored_service key)
      else (stored m, err session_invalid)
  check_session other r seconds now = (other, err session_invalid)

  -- The value of a body; an empty one counts as an object without fields.
  abbrev pub payload_of : FieldCryptoError → Raw → Result FieldCryptoError Json
  payload_of e raw =
      if eqb (g.bodies.size raw) 0 then ok (obj end) else or_error e (g.bodies.unmarshal raw)

  abbrev pub read_body : Option Raw → Result FieldCryptoError Raw
  read_body none = err session_invalid
  read_body (some raw) = ok raw

  unfoldable pub decrypt_request_body :
      FieldCryptoService Byte → Request Token Raw → Result FieldCryptoError (Request Token Raw)
  decrypt_request_body service r = do
    raw ← read_body r.body
    guard (leb (g.bodies.size raw) g.max_payload_size) payload_too_large
    payload ← payload_of crypto_error raw
    plain ← decrypt_json service payload
    out ← or_error crypto_error (g.bodies.marshal plain)
    ok (record r { body = some out })

  abbrev pub opened_request :
      CryptoRule
      → FieldCryptoService Byte
      → Request Token Raw
      → Result FieldCryptoError (Request Token Raw)
  opened_request rule service r =
      if rule.decrypt_request then decrypt_request_body service r else ok r

  -- What goes out for a captured answer that is to be sealed.
  unfoldable pub seal_answer :
      FieldCryptoService Byte
      → (kid : String) (next : ℕ) → Captured Raw
      → Result FieldCryptoError (Answer Raw)
  seal_answer service kid next a = do
    payload ← payload_of encryption_failed a.body
    (sealed, last) ← encrypt_json service payload kid next
    out ← or_error encryption_failed (g.bodies.marshal sealed)
    ok (protected (status_or_ok a.status_code) out kid (count_scalars payload))

  -- The writer when the handlers have come back.
  abbrev pub capture : Captured Raw → ResponseWriter Raw
  capture a = record { captured = a; beneath = none }

  -- flushRaw
  abbrev pub flush_raw : ResponseWriter Raw → ResponseWriter Raw
  flush_raw w = record w { beneath = some (passed w.captured) }

  -- abortFieldCrypto: WriteHeader and Write of c.Writer, which is the one that captures.
  abbrev pub abort_field_crypto : FieldCryptoError → ResponseWriter Raw → ResponseWriter Raw
  abort_field_crypto e w =
      let envelope = public_error_envelope e in
      record w {
        captured = record (w.captured) {
          status_code = some envelope.status;
          body = g.bodies.append w.captured.body (g.bodies.envelope envelope);
        };
      }

  -- The end of the middleware: an error, or the sealed answer to the writer beneath.
  abbrev pub write_sealed :
      Result FieldCryptoError (Answer Raw) → ResponseWriter Raw → ResponseWriter Raw
  write_sealed (err e) w = abort_field_crypto e w
  write_sealed (ok a) w = record w { beneath = some a }

  -- What net/http sends.
  abbrev or_nothing : Option (Answer Raw) → Answer Raw
  or_nothing none = dropped
  or_nothing (some a) = a

  abbrev pub sent : ResponseWriter Raw → Answer Raw
  sent w = or_nothing w.beneath

  abbrev pub answer_of :
      CryptoRule → FieldCryptoService Byte → (kid : String) (next : ℕ) → Captured Raw → Answer Raw
  answer_of rule service kid next a =
      if rule.encrypt_response && is_sealable a
      then sent (write_sealed (seal_answer service kid next a) (capture a))
      else sent (flush_raw (capture a))

  module _ (handlers : Request Token Raw → Captured Raw) where
    abbrev pub next_only : Request Token Raw → Outcome Byte Token Raw
    next_only r = record { manager = g.manager; handled = some r; answer = passed (handlers r) }

    abbrev pub abort_with : SessionManager Byte → FieldCryptoError → Outcome Byte Token Raw
    abort_with m e = record {
      manager = m;
      handled = none;
      answer = aborted (public_error_envelope e);
    }

    abbrev pub run_handlers :
        SessionManager Byte
        → CryptoRule
        → FieldCryptoService Byte
        → (kid : String) (next : ℕ) → Result FieldCryptoError (Request Token Raw)
        → Outcome Byte Token Raw
    run_handlers m rule service kid next (err e) = abort_with m e
    run_handlers m rule service kid next (ok r) = record {
      manager = m;
      handled = some r;
      answer = answer_of rule service kid next (handlers r);
    }

    abbrev pub with_session :
        CryptoRule
        → Request Token Raw
        → (next : ℕ) → SessionManager Byte × Result FieldCryptoError (FieldCryptoService Byte)
        → Outcome Byte Token Raw
    with_session rule r next (m, err e) = abort_with m e
    with_session rule r next (m, ok service) =
        run_handlers m rule service r.session_id next (opened_request rule service r)

    abbrev pub under_rule :
        Request Token Raw → (seconds now next : ℕ) → Option CryptoRule → Outcome Byte Token Raw
    under_rule r seconds now next none = next_only r
    under_rule r seconds now next (some rule) =
        if not g.enabled
        then next_only r
        else if r.session_id == ""
        then abort_with g.manager session_invalid
        else with_session rule r next (check_session g.manager r seconds now)

    -- FieldCryptoMiddleware; `next` is the number of the next nonce.
    unfoldable pub field_crypto_middleware :
        Request Token Raw → (seconds now next : ℕ) → Outcome Byte Token Raw
    field_crypto_middleware r seconds now next =
        under_rule r seconds now next (resolve_rule g.rules r.method r.path)
