-- ===== src/Tests/Gate.antt =====
-- The middleware of the field encryption, its policy and its sessions at concrete inputs: a body is
-- its value.
use Prim.Native.String
use bff_api_go_collection_ac.Base.{
  ℕ, String, Bool, ◌≡◌, ◌≢◌, ◌↔◌, refl, true, false, Option, some, none, List, [], ◌∷◌, length,
  arith, if◌then◌else◌,
}
use bff_api_go_collection_ac.Base.Ints.{pos, ltb_ℤ, ◌+ℤ◌}
use bff_api_go_collection_ac.Base.Maps.{find}
use bff_api_go_collection_ac.Base.Results.{ok, err}
use bff_api_go_collection_ac.Base.Texts.{IsFree-of, ne_of_eq_false, to_lower, lower_char}
use bff_api_go_collection_ac.Json.{Json, null, str, field, end, Fields, get}
use bff_api_go_collection_ac.Json.Print.{sprint}
use bff_api_go_collection_ac.FieldCrypto.Errors.{session_invalid, encryption_failed}
use bff_api_go_collection_ac.FieldCrypto.Service.{
  FieldCryptoService, decrypt_json, encrypt_json, encrypt_node, encrypt_items, encrypt_fields,
  count_scalars,
}
use bff_api_go_collection_ac.FieldCrypto.Kek.{contains_text}
use bff_api_go_collection_ac.FieldCrypto.Service.Roundtrip.{decrypt_json-encrypt_json}
use bff_api_go_collection_ac.FieldCrypto.Stateless
use bff_api_go_collection_ac.FieldCrypto.Store
use bff_api_go_collection_ac.FieldCrypto.Store.{
  MemorySessionStore, CryptoSessionManager, new_crypto_session_manager, new_memory_session_store,
  verify_access_token, session_key, handshake,
}
use bff_api_go_collection_ac.FieldCrypto.Store.Expiry.{session_key-handshake}
use bff_api_go_collection_ac.FieldCrypto.Policy.{
  CryptoRule, matches, compile_from, compile_path_pattern, resolve_rule, rule_matches,
}
use bff_api_go_collection_ac.FieldCrypto.Policy.Segments.{
  IsSegment, pattern_of, matches-pattern_iff,
}
use bff_api_go_collection_ac.FieldCrypto.Gate.{
  Gate, Request, Captured, stored, check_session, is_json_content_type, field_crypto_middleware,
  protected, seal_answer, decrypt_request_body,
}
use bff_api_go_collection_ac.FieldCrypto.Gate.Guarded.{IsGuarded, middleware-IsGuarded}
use bff_api_go_collection_ac.FieldCrypto.Gate.Admitted.{
  IsAdmitted, middleware_sealed, middleware-IsAdmitted, decrypt_json-middleware,
}
use bff_api_go_collection_ac.Tests.FieldCrypto.{
  service, service-IsSound, twelve, twelve-IsKey, body,
}
use bff_api_go_collection_ac.Tests.CryptoSessions.{packages, thirty_two}

matches-pattern_iff_example :
    (matches
        (compile_path_pattern (pattern_of "/api/v1/collections/escalations/" "id" "/status"))
        "/api/v1/collections/escalations/7/status"
      ≡ true)
    ↔ ((part : String) × IsSegment part
        × (◌≡◌ {A = String} "/api/v1/collections/escalations/7/status"
            (String.◌++◌ "/api/v1/collections/escalations/" (String.◌++◌ part "/status"))))
matches-pattern_iff_example =
    matches-pattern_iff "/api/v1/collections/escalations/" "id" "/status"
      (IsFree-of b'{' "/api/v1/collections/escalations/" refl) (IsFree-of b'{' "/status" refl)
      (ne_of_eq_false "id" "" refl) (IsFree-of b'/' "id" refl) (IsFree-of b'}' "id" refl)
      "/api/v1/collections/escalations/7/status"

abbrev rule : (method path : String) → (decrypt encrypt : Bool) → CryptoRule
rule method path decrypt encrypt = record {
  method = method;
  path = path;
  decrypt_request = decrypt;
  encrypt_response = encrypt;
}

-- The configuration cannot take the encryption of a ranking away.
abbrev lenient : List CryptoRule
lenient = rule "GET" "/api/v1/collections/agent-performance/ranking" false false ∷ []

abbrev empty_manager : CryptoSessionManager Bool
empty_manager =
    new_crypto_session_manager (record { ttl = pos 900_000_000_000; keys = [] }) "s3cr3t" "bff"
      (pos 900)

abbrev token_of : String → Fields
token_of session_id = field "crypto_session_id" (str session_id) end

abbrev manager : CryptoSessionManager Bool
manager = record empty_manager {
  sessions = record {
    ttl = pos 900_000_000_000;
    keys = ("k1", record { key = thirty_two; expiry = pos 900_000_000_000 }) ∷ [];
  };
}

abbrev gate : (decrypt : Bool) → FieldCryptoService Bool → Gate Bool Fields Json
gate decrypt crypto = record {
  externals = packages;
  bodies = record {
    size = λ v. 1;
    append = λ a b. a;
    envelope = λ e. null;
    unmarshal = λ v. some v;
    marshal = λ v. some v;
  };
  service = crypto;
  rules = rule "GET" "/ranking" decrypt true ∷ [];
  enabled = true;
  max_payload_size = 1000;
  manager = stored manager;
  resolve_tenant = λ a s e c t. err session_invalid;
}

abbrev asked : Json → Request Fields Json
asked v = record {
  method = "GET";
  path = "/ranking";
  session_id = "k1";
  token = token_of "k1";
  authorization = "Bearer tok";
  tenant_id = "default";
  trace_id = "t-1";
  body = some v;
}

abbrev echo : Request Fields Json → Captured Json
echo q = record { status_code = none; content_type = "application/json"; body = body }

ruled :
    (d : Bool)
    → resolve_rule (gate d service).rules "GET" "/ranking" ≡ some (rule "GET" "/ranking" d true)
unfolding resolve_rule rule_matches matches compile_from to_lower lower_char
ruled d = refl

session :
    (d : Bool) (s : FieldCryptoService Bool) (v : Json)
    → (check_session (gate d s) (stored manager) (asked v) 1 1_000_000_000).1 ≡ ok s
unfolding check_session verify_access_token session_key Store.get find get sprint
session d s v = refl

sealable : is_json_content_type "application/json" ≡ true
unfolding is_json_content_type to_lower lower_char contains_text
sealable = refl

handshaken :
    (r : CryptoSessionManager Bool × Stateless.HandshakeResult Fields) × (handshake packages
        empty_manager "1101" "ana" "read" "s-1" 5
      ≡ ok (r.0, r.1))
unfolding handshake Store.put
handshaken = (_, refl)

session_key-handshake_example :
    (key : List Bool) × (length key ≡ 32)
    × ((later : ℕ)
        → (session_key packages handshaken.0.0 "s-1" later).1
          ≡ (if ltb_ℤ (pos 5 +ℤ pos 900_000_000_000) (pos later) then none else some key))
    × ((other : String) (later : ℕ)
        → ◌≢◌ {A = String} "s-1" other
        → (session_key packages handshaken.0.0 other later).1
          ≡ (session_key packages empty_manager other later).1)
session_key-handshake_example =
    session_key-handshake packages empty_manager "1101" "ana" "read" "s-1" 5 handshaken.0.0
      handshaken.0.1 handshaken.1

middleware-IsGuarded_example :
    IsGuarded
      (gate false service)
      (field_crypto_middleware (gate false service) echo (asked null) 1 1_000_000_000 0).answer
middleware-IsGuarded_example =
    middleware-IsGuarded (gate false service) echo (asked null) 1 1_000_000_000 0
      (rule "GET" "/ranking" false true) (ruled false) refl refl

sealed_null : (w : Json) × (decrypt_json service w ≡ ok null)
sealed_null =
    let (w, e, d, u) =
      decrypt_json-encrypt_json service service-IsSound "k1" twelve twelve-IsKey null 0
        (record { back = refl; filled = omega arith }) in
    (w, d)

opened : decrypt_request_body (gate true service) service (asked sealed_null.0) ≡ ok (asked null)
unfolding decrypt_request_body
opened = rw sealed_null.1

seen :
    (field_crypto_middleware
      (gate true service)
      echo
      (asked sealed_null.0)
      1
      1_000_000_000
      0).handled
    ≡ some (asked null)
seen =
    (middleware_sealed (gate true service) echo (asked sealed_null.0) 1 1_000_000_000 0
      (rule "GET" "/ranking" true true) (ruled true) refl service (asked null)
      (ne_of_eq_false "k1" "" refl) (session true service sealed_null.0) opened refl sealable).0

middleware-IsAdmitted_example :
    IsAdmitted
      (gate true service)
      (rule "GET" "/ranking" true true)
      (asked sealed_null.0)
      1
      1_000_000_000
      (asked null)
middleware-IsAdmitted_example =
    middleware-IsAdmitted (gate true service) echo (asked sealed_null.0) 1 1_000_000_000 0
      (rule "GET" "/ranking" true true) (ruled true) refl (asked null) seen

-- A service whose random source has run dry.
abbrev dry : FieldCryptoService Bool
dry = record service { nonce_at = λ i. none }

not_sealed : seal_answer (gate false dry) dry "k1" 0 (echo (asked null)) ≡ err encryption_failed
unfolding seal_answer encrypt_json encrypt_node encrypt_items encrypt_fields
not_sealed = refl

decrypt_json-middleware_example :
    (w out : Json) × (◌≡◌ {A = Option Json} (some w) (some out))
    × ((field_crypto_middleware (gate false service) echo (asked null) 1 1_000_000_000 0).answer
        ≡ protected 200 out "k1" (count_scalars body))
    × (decrypt_json service w ≡ ok body)
decrypt_json-middleware_example =
    decrypt_json-middleware (gate false service) echo (asked null) 1 1_000_000_000 0
      (rule "GET" "/ranking" false true) (ruled false) refl service (asked null)
      (ne_of_eq_false "k1" "" refl) (session false service null) refl refl sealable twelve body
      service-IsSound twelve-IsKey refl
      (
        record { back = refl; filled = omega arith },
        ((record { back = refl; filled = omega arith }, tt), tt),
      )
      (λ w. (w, refl))
