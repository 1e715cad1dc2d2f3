-- ===== src/FieldCrypto/Tenants.antt =====
-- internal/infrastructure/fieldcrypto/tenant_authority.go. The signer, HMAC-SHA256 and the HTTP
-- client are parameters; `Answer` is what a call of the core comes to.
pub mod Authorized
use Prim.Native.String.{len}
use Prim.Native.String
use bff_api_go_collection_ac.Base.{
  ℕ, String, Bool, true, false, not, ◌&&◌, ◌||◌, ◌==◌, List, [], ◌∷◌, Option, none, some, length,
  leb, ltb, if◌then◌else◌,
}
use bff_api_go_collection_ac.Base.Results.{Result, ok, err, guard, ◌>>=◌, ◌>>◌}
use bff_api_go_collection_ac.Base.Texts.{trim_space, to_lower}
use bff_api_go_collection_ac.Json.{Json, str, arr, obj, Items, nil, cons, Fields, get, items}
use bff_api_go_collection_ac.FieldCrypto.Errors.{
  FieldCryptoError, session_invalid, tenant_authority_unavailable, unknown_error,
}
use bff_api_go_collection_ac.FieldCrypto.Digests.{
  member_of, forbidden, assert_tenant_digest_explicit,
}

-- AuthorizedTenantContext
pub record TenantContext : Type 0 where
  pub tenant_id : String
  pub tenant_digest : String

-- The request of AuthorizedTenants: its path and its headers.
pub record TenantRequest : Type 0 where
  pub path : String
  pub authorization : String
  pub user_email : String
  pub trace_id : String

-- A request that cannot be built, one that gets no answer, and an answer with its status and the
-- object of its body, if the body is one.
pub data Answer : Type 0 where
  not_built : Answer
  unreachable : Answer
  answered : (status : ℕ) (body : Option Fields) → Answer

-- ManagementTenantClient, with what it uses.
pub record TenantClient : Type 0 where
  pub base_url : String
  pub audience : String
  pub subject : String
  pub mint : (audience subject email : String) → Option String
  pub send : TenantRequest → Answer

-- computeTenantDigest, with HMAC-SHA256 in hex as a parameter.
abbrev pub compute_tenant_digest : (String → String) → (namespace tenant_id : String) → String
compute_tenant_digest hmac_hex namespace tenant_id =
    hmac_hex (String.◌++◌ (trim_space namespace) (String.◌++◌ "|" (trim_space tenant_id)))

abbrev pub tenant_id_of : Option Json → Result FieldCryptoError String
tenant_id_of (some (str s)) =
    let id = trim_space s in
    if ltb (len id) 1 || ltb 64 (len id) then err session_invalid else ok id
tenant_id_of v = err session_invalid

abbrev pub tenant_id_of_item : Json → Result FieldCryptoError String
tenant_id_of_item (obj m) = tenant_id_of (get "id" m)
tenant_id_of_item v = err session_invalid

-- The loop of parseTenantIDs.
unfoldable pub tenant_ids_of : List Json → Result FieldCryptoError (List String)
tenant_ids_of [] = ok []
tenant_ids_of (item ∷ rest) = do
  id ← tenant_id_of_item item
  ids ← tenant_ids_of rest
  ok (id ∷ ids)

abbrev pub items_of : Option Json → Result FieldCryptoError (List Json)
items_of (some (arr vs)) = ok (items vs)
items_of v = err session_invalid

unfoldable pub parse_tenant_ids : Fields → Result FieldCryptoError (List String)
parse_tenant_ids payload = do
  all ← items_of (get "items" payload)
  guard (leb (length all) 256) session_invalid
  tenant_ids_of all

abbrev pub payload_of : Option Fields → Result FieldCryptoError Fields
payload_of none = err session_invalid
payload_of (some m) = ok m

abbrev pub read_answer : Answer → Result FieldCryptoError (List String)
read_answer not_built = err unknown_error
read_answer unreachable = err tenant_authority_unavailable
read_answer (answered status body) = do
  guard (ltb status 500) tenant_authority_unavailable
  guard (ltb status 400) session_invalid
  payload ← payload_of body
  parse_tenant_ids payload

abbrev pub minted : Option String → Result FieldCryptoError String
minted none = err unknown_error
minted (some token) = ok token

abbrev pub tenant_request : TenantClient → (token email trace_id : String) → TenantRequest
tenant_request c token email trace_id = record {
  path = String.◌++◌ c.base_url "/internal/v1/me/tenants";
  authorization = String.◌++◌ "Bearer " token;
  user_email = email;
  trace_id = (if trace_id == "" then "-" else trace_id);
}

unfoldable pub authorized_tenants :
    TenantClient → (user_email trace_id : String) → Result FieldCryptoError (List String)
authorized_tenants c user_email trace_id = do
  let email = trim_space user_email
  guard (not (email == "")) session_invalid
  token ← minted (c.mint c.audience c.subject email)
  read_answer (c.send (tenant_request c token email trace_id))

unfoldable pub normalize_selector : String → Result FieldCryptoError String
normalize_selector tenant_selector =
    let selector = trim_space tenant_selector in
    if member_of (to_lower selector) forbidden then err session_invalid else ok selector

-- CoreManagementTenantAuthority
pub record TenantAuthority : Type 0 where
  pub client : TenantClient
  pub hmac_hex : String → String
  pub namespace : String

-- NewCoreManagementTenantAuthority
abbrev pub new_core_management_tenant_authority :
    TenantClient → (String → String) → String → TenantAuthority
new_core_management_tenant_authority client hmac_hex namespace =
    let ns = trim_space namespace in
    record {
      client = client;
      hmac_hex = hmac_hex;
      namespace = (if ns == "" then "activity-log" else ns);
    }

-- The part of Resolve that asks the core, if it is to.
unfoldable pub consult :
    TenantAuthority
    → (selector user_email : String) (consult_core : Bool) (trace_id : String)
    → Result FieldCryptoError (Unit {0})
consult a selector user_email consult_core trace_id =
    if consult_core
    then (do
      let email = trim_space user_email
      guard (not (email == "")) session_invalid
      allowed ← authorized_tenants a.client email trace_id
      guard (member_of selector allowed) session_invalid)
    else ok tt

-- CoreManagementTenantAuthority.Resolve
unfoldable pub resolve :
    TenantAuthority
    → (authorization tenant_selector user_email : String) (consult_core : Bool) (trace_id : String)
    → Result FieldCryptoError TenantContext
resolve a authorization tenant_selector user_email consult_core trace_id = do
  guard (not (trim_space authorization == "")) session_invalid
  selector ← normalize_selector tenant_selector
  consult a selector user_email consult_core trace_id
  ok (record {
    tenant_id = selector;
    tenant_digest = compute_tenant_digest a.hmac_hex a.namespace selector;
  })

-- NewStaticTenantAuthority and StaticTenantAuthority.Resolve
unfoldable pub new_static_tenant_authority :
    (tenant_id tenant_digest : String) → Result FieldCryptoError TenantContext
new_static_tenant_authority tenant_id tenant_digest = do
  digest ← assert_tenant_digest_explicit tenant_digest
  let id = trim_space tenant_id
  guard (not (member_of (to_lower id) forbidden)) unknown_error
  ok (record { tenant_id = id; tenant_digest = digest })

unfoldable pub resolve_static :
    TenantContext → (authorization tenant_selector : String) → Result FieldCryptoError TenantContext
resolve_static a authorization tenant_selector = do
  guard (not (trim_space authorization == "")) session_invalid
  selector ← normalize_selector tenant_selector
  guard (selector == a.tenant_id) session_invalid
  ok a
