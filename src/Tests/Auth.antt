-- ===== src/Tests/Auth.antt =====
-- Who calls, at concrete inputs.
use bff_api_go_collection_ac.Base.{
  ◌≡◌, ◌≢◌, ◌↔◌, ◌⊎◌, refl, true, List, [], ◌∷◌, IsIn, none, some, arith,
}
use bff_api_go_collection_ac.Base.Ints.{pos}
use bff_api_go_collection_ac.Base.Maps.{Map, find}
use bff_api_go_collection_ac.Base.Results.{ok}
use bff_api_go_collection_ac.Base.Texts.{
  trim_space, trim_left, trim_right, is_space, to_lower, lower_char, fields, fields_from,
  ne_of_eq_false,
}
use bff_api_go_collection_ac.Json.{str, arr, obj, nil, cons, Fields, end, field}
use bff_api_go_collection_ac.Sessions
use bff_api_go_collection_ac.Sessions.{SessionPayload, MemoryEntry, constant_time_equal}
use bff_api_go_collection_ac.Auth.Emails.{IdentityEmailCache, new_identity_email_cache}
use bff_api_go_collection_ac.Auth.Emails.Bounded.{
  IsBounded, Event, asked, found, not_found, run, run-IsBounded,
}
use bff_api_go_collection_ac.Auth.Tokens.{
  CognitoClaims, AccessClaims, groups_list, Validator, memory, validate, role_of, normalize_groups,
  role_scopes, valid_audience,
}
use bff_api_go_collection_ac.Auth.Access.{require_scope, context_of, csrf_middleware}
use bff_api_go_collection_ac.Auth.Access.Scopes.{Accepted, require_scope_iff}
use bff_api_go_collection_ac.Auth.Access.Csrf.{csrf_middleware_iff}
use bff_api_go_collection_ac.FieldCrypto.Tenants.{
  TenantContext, TenantAuthority, answered, resolve, compute_tenant_digest,
}
use bff_api_go_collection_ac.FieldCrypto.Tenants.Authorized.{IsAuthorized, resolve_iff}

abbrev lookups : List Event
lookups = found "s1" "ana@x.pe" 5 ∷ asked "s1" 9 ∷ not_found "s2" 11 ∷ []

run-IsBounded_example : IsBounded (run new_identity_email_cache lookups)
run-IsBounded_example = run-IsBounded new_identity_email_cache lookups (record {
  few = omega arith;
  few_negatives = omega arith;
  are_queued = tt;
  negatives_queued = tt;
})

-- The entry of s1 has ended and was dropped, and the cache has room for s2 alone.
abbrev full : IdentityEmailCache
full = record {
  ttl = 100;
  negative_ttl = 10;
  max_entries = 1;
  entries = ("s2", record { expires_at = 500; email = "eva@x.pe" }) ∷ [];
  negatives = [];
  order = "s1" ∷ "s2" ∷ [];
  neg_order = [];
}

not_there : find "s1" full.entries ≡ none
unfolding find
not_there = refl

abbrev claims_of_ana : AccessClaims
claims_of_ana = record {
  subject = "s1";
  audience = "bff" ∷ [];
  token_use = "access";
  client_id = "web";
  email = "ana@x.pe";
  scope = "openid profile";
  groups = groups_list ("Agent" ∷ []);
}

abbrev validator : Validator
validator = record {
  issuer = "https://idp";
  audiences = "bff" ∷ [];
  jwks_url = "https://idp/keys";
  pool_id = "";
  parse = λ now token. some claims_of_ana;
  lookup = none;
}

abbrev ana : CognitoClaims
ana = record {
  subject = "s1";
  email = "ana@x.pe";
  role = "agent";
  groups = "agent" ∷ [];
  scopes =
      "openid" ∷ "profile" ∷ "collections:read" ∷ "collections:write" ∷ "collections:read:own"
      ∷ "collections:write:own" ∷ "notifications:read" ∷ "notifications:write" ∷ [];
}

validated : (validate memory validator new_identity_email_cache "token" 7).1 ≡ some ana
unfolding validate trim_space trim_left trim_right is_space to_lower lower_char fields fields_from
    role_of role_scopes normalize_groups valid_audience
validated = refl

require_scope_iff_example :
    (a : Accepted memory validator new_identity_email_cache "token" 7 ana) × ((require_scope
          (some (context_of ana))
          "collections:write"
        ≡ ok (context_of ana))
      ↔ (IsIn "collections:write" (fields a.read.scope)
          ⊎ IsIn "collections:write" (role_scopes ana.role)))
require_scope_iff_example =
    require_scope_iff memory validator new_identity_email_cache "token" 7 ana "collections:write"
      validated

abbrev payload : SessionPayload
payload = record {
  sub = "s1";
  access_token = "a";
  access_expires_at = pos 100;
  refresh_token = "r";
  refresh_expires_at = pos 100;
  csrf_token = "tok";
  id_token = none;
}

abbrev sessions : Map (MemoryEntry SessionPayload)
sessions = ("sid", record { value = payload; expires_at = pos 100 }) ∷ []

found_session : (Sessions.get sessions "sid" 50).1 ≡ some payload
unfolding Sessions.get find
found_session = refl

csrf_middleware_iff_example :
    ((csrf_middleware (some sessions) "POST" "/api/v1/activities" "sid" " tok" 50).1 ≡ ok tt)
    ↔ ((trim_space " tok" ≡ trim_space "tok") × (trim_space " tok" ≢ ""))
csrf_middleware_iff_example =
    csrf_middleware_iff sessions "POST" "/api/v1/activities" "sid" " tok" 50 payload refl refl
      (ne_of_eq_false "sid" "" refl) found_session

abbrev tenants : Fields
tenants = field "items" (arr (cons (obj (field "id" (str "acme") end)) nil)) end

abbrev authority : TenantAuthority
authority = record {
  client = record {
    base_url = "http://core";
    audience = "core-api";
    subject = "bff-api";
    mint = λ audience subject email. some "jwt";
    send = λ request. answered 200 (some tenants);
  };
  hmac_hex = λ message. message;
  namespace = "activity-log";
}

resolve_iff_example :
    (resolve authority "Bearer t" "acme" "ana@x.pe" true ""
      ≡ ok (record { tenant_id = "acme"; tenant_digest = "activity-log|acme" }))
    ↔ (IsAuthorized authority "Bearer t" "acme" "ana@x.pe" ""
        × (◌≡◌ {A = TenantContext}
            (record { tenant_id = "acme"; tenant_digest = "activity-log|acme" })
            (record {
              tenant_id = trim_space "acme";
              tenant_digest =
                  compute_tenant_digest (λ message. message) "activity-log" (trim_space "acme");
            })))
resolve_iff_example =
    resolve_iff authority "Bearer t" "acme" "ana@x.pe" ""
      (record { tenant_id = "acme"; tenant_digest = "activity-log|acme" })
