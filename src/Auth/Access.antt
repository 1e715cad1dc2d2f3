-- ===== src/Auth/Access.antt =====
-- internal/interface/api/middleware: cognito.go, authorization.go, csrf.go and session.go. A
-- middleware answers with an error or lets the request go on. The codes are those of the domain.
pub mod Scopes
pub mod Csrf
use Prim.Native.Char.{code}
use Prim.Native.String
use Prim.Native.String.{[], ◌∷◌}
use bff_api_go_collection_ac.Base.{
  ℕ, String, Bool, true, false, not, ◌&&◌, ◌||◌, ◌==◌, List, Option, none, some, eqb, if◌then◌else◌,
}
use bff_api_go_collection_ac.Base.Maps.{Map}
use bff_api_go_collection_ac.Base.Results.{Result, ok, err, guard, ◌>>=◌, ◌>>◌}
use bff_api_go_collection_ac.Base.Texts.{trim_space, to_lower, fields, join}
use bff_api_go_collection_ac.FieldCrypto.Envelope.{has_prefix}
use bff_api_go_collection_ac.Sessions
use bff_api_go_collection_ac.Sessions.{SessionPayload, MemoryEntry, constant_time_equal}
use bff_api_go_collection_ac.Auth.Tokens.{CognitoClaims, Validator, EmailCache, validate, has}

pub record CognitoContext : Type 0 where
  pub sub : String
  pub role : String
  pub scope : String
  pub email : String
  pub groups : List String

-- How a request is refused.
pub data Refusal : Type 0 where
  missing_auth_token : Refusal
  invalid_auth_token : Refusal
  access_denied : Refusal
  csrf_failed : Refusal
  no_session : Refusal
  session_expired : Refusal

unfoldable pub status : Refusal → ℕ
status access_denied = 403
status csrf_failed = 403
status r = 401

unfoldable pub is_public_path : String → Bool
is_public_path path =
    path == "/health"
    || path == "/health/live"
    || path == "/health/ready"
    || has_prefix path "/api/v1/auth/"
    || has_prefix path "/api/m2m/"

-- strings.Cut at the first space: what stands before and behind it, if there is one.
abbrev pub cut_cons : String → Option (String × String) → Option (String × String)
cut_cons c none = none
cut_cons c (some (before, behind)) = some (String.◌++◌ c before, behind)

unfoldable pub cut_space : String → Option (String × String)
cut_space [] = none
cut_space (c ∷ s) =
    let rest = cut_space s in if eqb (code c) 32 then some ("", s) else cut_cons (c ∷ []) rest

abbrev pub bearer_of : Option (String × String) → Result Refusal String
bearer_of none = err missing_auth_token
bearer_of (some (scheme, token)) =
    if to_lower scheme == "bearer" && not (trim_space token == "")
    then ok (trim_space token)
    else err missing_auth_token

-- The context that a verified token gives.
abbrev pub context_of : CognitoClaims → CognitoContext
context_of claims = record {
  sub = claims.subject;
  role = claims.role;
  scope = join " " claims.scopes;
  email = claims.email;
  groups = claims.groups;
}

module _ {C : Type 0} (ops : EmailCache C) (v : Validator) where
  abbrev pub identify : C × Option CognitoClaims → C × Result Refusal (Option CognitoContext)
  identify (cache, none) = (cache, err invalid_auth_token)
  identify (cache, some claims) = (cache, ok (some (context_of claims)))

  abbrev pub with_token :
      C → Result Refusal String → (now : ℕ) → C × Result Refusal (Option CognitoContext)
  with_token cache (err r) now = (cache, err r)
  with_token cache (ok token) now = identify (validate ops v cache token now)

  -- CognitoContextMiddleware: the context that it sets, none on a public path.
  unfoldable pub cognito_context_middleware :
      C → (path authorization : String) → (now : ℕ) → C × Result Refusal (Option CognitoContext)
  cognito_context_middleware cache path authorization now =
      if is_public_path path
      then (cache, ok none)
      else with_token cache (bearer_of (cut_space (trim_space authorization))) now

-- RequireScope
unfoldable pub require_scope : Option CognitoContext → String → Result Refusal CognitoContext
require_scope none required = err invalid_auth_token
require_scope (some ctx) required =
    if has required (fields ctx.scope) then ok ctx else err access_denied

-- EnforceRole
unfoldable pub enforce_role : Option CognitoContext → List String → Result Refusal CognitoContext
enforce_role none allowed = err invalid_auth_token
enforce_role (some ctx) allowed = if has ctx.role allowed then ok ctx else err access_denied

abbrev pub all_roles : List String
all_roles = List.◌∷◌ "agent" (
    List.◌∷◌ "call_center" (
      List.◌∷◌ "gestor_senior" (
        List.◌∷◌ "supervisor" (
          List.◌∷◌ "especial" (
            List.◌∷◌ "manager"
              (List.◌∷◌ "sub_gerente" (List.◌∷◌ "admin" (List.◌∷◌ "auditor" List.[]))))))))

abbrev pub supervisor_roles : List String
supervisor_roles =
    List.◌∷◌ "supervisor"
      (List.◌∷◌ "manager" (List.◌∷◌ "admin" (List.◌∷◌ "sub_gerente" (List.◌∷◌ "especial" List.[]))))

abbrev pub workload_roles : List String
workload_roles = List.◌∷◌ "agent" (
    List.◌∷◌ "call_center" (
      List.◌∷◌ "gestor_senior" (
        List.◌∷◌ "supervisor" (
          List.◌∷◌ "especial"
            (List.◌∷◌ "manager" (List.◌∷◌ "sub_gerente" (List.◌∷◌ "admin" List.[])))))))

abbrev pub admin_roles : List String
admin_roles = List.◌∷◌ "admin" List.[]

abbrev pub enforce_all_roles : Option CognitoContext → Result Refusal CognitoContext
enforce_all_roles ctx = enforce_role ctx all_roles

abbrev pub enforce_supervisor_roles : Option CognitoContext → Result Refusal CognitoContext
enforce_supervisor_roles ctx = enforce_role ctx supervisor_roles

abbrev pub enforce_workload_roles : Option CognitoContext → Result Refusal CognitoContext
enforce_workload_roles ctx = enforce_role ctx workload_roles

abbrev pub enforce_admin_roles : Option CognitoContext → Result Refusal CognitoContext
enforce_admin_roles ctx = enforce_role ctx admin_roles

-- ResolveAgentID
unfoldable pub resolve_agent_id : Option CognitoContext → String → String
resolve_agent_id none requested = trim_space requested
resolve_agent_id (some ctx) requested =
    if ctx.role == "agent" || ctx.role == "call_center" || ctx.role == "gestor_senior"
    then ctx.sub
    else (let trimmed = trim_space requested in if trimmed == "" then ctx.sub else trimmed)

-- A store of sessions in memory, if there is one; a cookie that is missing is "".
abbrev pub Store : Type 0
Store = Option (Map (MemoryEntry SessionPayload))

abbrev pub is_mutating : String → Bool
is_mutating method = method == "POST" || method == "PUT" || method == "PATCH" || method == "DELETE"

abbrev pub is_csrf_exempt : String → Bool
is_csrf_exempt path =
    path == "/api/v1/auth/login"
    || path == "/api/v1/auth/callback"
    || path == "/api/v1/auth/dev-login"

abbrev pub check_token : String → Option SessionPayload → Result Refusal (Unit {0})
check_token header none = ok tt
check_token header (some payload) =
    let sent = trim_space header in
    let expected = trim_space payload.csrf_token in
    if expected == "" || sent == "" || not (constant_time_equal sent expected)
    then err csrf_failed
    else ok tt

abbrev pub check_session :
    Store → (cookie header : String) → (now : ℕ) → Store × Result Refusal (Unit {0})
check_session none cookie header now = (none, ok tt)
check_session (some m) cookie header now =
    if cookie == ""
    then (some m, ok tt)
    else (let found = Sessions.get m cookie now in (some found.0, check_token header found.1))

-- CSRFMiddleware
unfoldable pub csrf_middleware :
    Store → (method path cookie header : String) → (now : ℕ) → Store × Result Refusal (Unit {0})
csrf_middleware store method path cookie header now =
    if not (is_mutating method)
    then (store, ok tt)
    else if is_csrf_exempt path
    then (store, ok tt)
    else check_session store cookie header now

abbrev pub or_expired : Option SessionPayload → Result Refusal SessionPayload
or_expired none = err session_expired
or_expired (some payload) = ok payload

-- RequireSession
unfoldable pub require_session :
    Store → (cookie : String) → (now : ℕ) → Store × Result Refusal SessionPayload
require_session none cookie now = (none, err no_session)
require_session (some m) cookie now =
    if cookie == ""
    then (some m, err no_session)
    else (let found = Sessions.get m cookie now in (some found.0, or_expired found.1))
