-- ===== src/Auth/Tokens.antt =====
-- internal/infrastructure/auth/cognito_jwt.go. The parser of the tokens, with the checks of the
-- signature, the issuer and the times, and the lookup of addresses are parameters; the cache of
-- addresses is known by its interface. A map without values is the list of its keys, of which
-- neither the order nor a repetition counts.
pub mod Roles
use Prim.Native.String
use bff_api_go_collection_ac.Base.{
  ℕ, String, Bool, true, false, not, ◌&&◌, ◌||◌, ◌==◌, List, [], ◌∷◌, ◌++◌, Option, none, some, map,
  if◌then◌else◌,
}
use bff_api_go_collection_ac.Base.Results.{Result, ok, err}
use bff_api_go_collection_ac.Base.Texts.{trim_space, to_lower, split, fields}
use bff_api_go_collection_ac.Auth.Emails.{IdentityEmailCache, get, set, is_negative, set_negative}

abbrev pub agent_scopes : List String
agent_scopes =
    "collections:read" ∷ "collections:write" ∷ "collections:read:own" ∷ "collections:write:own"
    ∷ "notifications:read" ∷ "notifications:write" ∷ []

abbrev pub supervisor_scopes : List String
supervisor_scopes =
    "collections:read" ∷ "collections:write" ∷ "collections:escalate" ∷ "collections:assign"
    ∷ "notifications:read" ∷ "notifications:write" ∷ []

abbrev pub manager_scopes : List String
manager_scopes =
    "collections:read" ∷ "collections:write" ∷ "collections:escalate" ∷ "collections:assign"
    ∷ "collections:approve" ∷ "notifications:read" ∷ "notifications:write" ∷ []

abbrev pub role_table : List (String × List String)
role_table =
    ("agent", agent_scopes)
    ∷ ("call_center", agent_scopes)
    ∷ ("gestor_senior", agent_scopes)
    ∷ ("supervisor", supervisor_scopes)
    ∷ ("especial", supervisor_scopes)
    ∷ ("manager", manager_scopes)
    ∷ ("sub_gerente", manager_scopes)
    ∷ ("admin", manager_scopes)
    ∷ ("auditor", "collections:read" ∷ [])
    ∷ []

-- A map of lists, with nil for a missing key.
abbrev pub list_under : String → List (String × List String) → List String
list_under k [] = []
list_under k ((j, v) ∷ m) = if j == k then v else list_under k m

-- roleScopes
unfoldable pub role_scopes : String → List String
role_scopes role = list_under role role_table

abbrev pub role_priority : List String
role_priority =
    "admin" ∷ "manager" ∷ "sub_gerente" ∷ "supervisor" ∷ "especial" ∷ "call_center"
    ∷ "gestor_senior" ∷ "agent" ∷ "auditor" ∷ []

pub record CognitoClaims : Type 0 where
  pub subject : String
  pub email : String
  pub role : String
  pub groups : List String
  pub scopes : List String

-- The claim of the groups: missing or null, a text, or a list.
pub data CognitoGroups : Type 0 where
  no_groups : CognitoGroups
  groups_text : String → CognitoGroups
  groups_list : List String → CognitoGroups

-- cognitoAccessClaims
pub record AccessClaims : Type 0 where
  pub subject : String
  pub audience : List String
  pub token_use : String
  pub client_id : String
  pub email : String
  pub scope : String
  pub groups : CognitoGroups

-- The parts that are not blank, trimmed.
unfoldable pub trimmed_parts : List String → List String
trimmed_parts [] = []
trimmed_parts (part ∷ parts) =
    let rest = trimmed_parts parts in
    let trimmed = trim_space part in if trimmed == "" then rest else trimmed ∷ rest

abbrev pub split_groups : String → List String
split_groups raw = trimmed_parts (split b',' raw)

-- UnmarshalJSON of the groups.
abbrev pub group_list : CognitoGroups → List String
group_list no_groups = []
group_list (groups_text raw) = split_groups raw
group_list (groups_list l) = l

unfoldable pub normalize_groups : List String → List String
normalize_groups [] = []
normalize_groups (group ∷ raw) =
    let rest = normalize_groups raw in
    let trimmed = to_lower (trim_space group) in if trimmed == "" then rest else trimmed ∷ rest

abbrev pub has : String → List String → Bool
has s [] = false
has s (t ∷ ts) = if t == s then true else has s ts

-- The first of the candidates that is a group.
unfoldable pub role_of : (candidates groups : List String) → String
role_of [] groups = ""
role_of (candidate ∷ rest) groups = if has candidate groups then candidate else role_of rest groups

-- What LookupEmail comes to.
pub data Lookup : Type 0 where
  lookup_failed : Lookup
  no_such_user : Lookup
  email_found : String → Lookup

-- IdentityEmailCache, at a time.
pub record EmailCache (C : Type 0) : Type 0 where
  pub get : C → String → (now : ℕ) → C × String
  pub set : C → (subject email : String) → (now : ℕ) → C
  pub is_negative : C → String → (now : ℕ) → C × Bool
  pub set_negative : C → String → (now : ℕ) → C

-- The cache in memory has these operations.
abbrev pub memory : EmailCache IdentityEmailCache
memory = record { get = get; set = set; is_negative = is_negative; set_negative = set_negative }

-- CognitoJwtValidator; there is a lookup or none, and the JWKS cache is in `parse`.
pub record Validator : Type 0 where
  pub issuer : String
  pub audiences : List String
  pub jwks_url : String
  pub pool_id : String
  pub parse : (now : ℕ) → String → Option AccessClaims
  pub lookup : Option (String → Lookup)

-- NewCognitoJwtValidator, from the settings that it uses.
abbrev pub new_cognito_jwt_validator :
    (cognito_issuer aws_region cognito_pool_id cognito_jwks_url cognito_audience : String)
    → ((now : ℕ) → String → Option AccessClaims)
    → Option (String → Lookup)
    → Validator
new_cognito_jwt_validator cognito_issuer aws_region cognito_pool_id cognito_jwks_url
      cognito_audience parse lookup =
    let named = trim_space cognito_issuer in
    let issuer =
      if named == "" && not (aws_region == "") && not (cognito_pool_id == "")
      then String.◌++◌ "https://cognito-idp."
          (String.◌++◌ aws_region (String.◌++◌ ".amazonaws.com/" cognito_pool_id))
      else named in
    let url = trim_space cognito_jwks_url in
    record {
      issuer = issuer;
      audiences = trimmed_parts (split b',' cognito_audience);
      jwks_url =
          (if url == "" && not (issuer == "")
            then String.◌++◌ issuer "/.well-known/jwks.json"
            else url);
      pool_id = trim_space cognito_pool_id;
      parse = parse;
      lookup = lookup;
    }

abbrev pub is_empty : List String → Bool
is_empty [] = true
is_empty (s ∷ l) = false

abbrev pub any_has : List String → List String → Bool
any_has [] audiences = false
any_has (aud ∷ rest) audiences = if has aud audiences then true else any_has rest audiences

unfoldable pub valid_audience : Validator → AccessClaims → Bool
valid_audience v claims =
    if any_has claims.audience v.audiences
    then true
    else has (trim_space claims.client_id) v.audiences

module _ {C : Type 0} (ops : EmailCache C) where
  abbrev pub remember_lookup : Lookup → C → String → (now : ℕ) → C × String
  remember_lookup lookup_failed cache subject now = (cache, "")
  remember_lookup no_such_user cache subject now = (ops.set_negative cache subject now, "")
  remember_lookup (email_found raw) cache subject now =
      let email = trim_space raw in
      (if email == "" then cache else ops.set cache subject email now, email)

  abbrev pub ask_lookup : Validator → C → String → (now : ℕ) → Option (String → Lookup) → C × String
  ask_lookup v cache subject now none = (cache, "")
  ask_lookup v cache subject now (some lookup) =
      if v.pool_id == "" then (cache, "") else remember_lookup (lookup subject) cache subject now

  -- resolveEmailBySub
  unfoldable pub resolve_email_by_sub : Validator → C → String → (now : ℕ) → C × String
  resolve_email_by_sub v cache subject now =
      if subject == ""
      then (cache, "")
      else (let cached = ops.get cache subject now in
          if not (cached.1 == "")
          then cached
          else (let negative = ops.is_negative cached.0 subject now in
              if negative.1
              then (negative.0, "")
              else ask_lookup v negative.0 subject now v.lookup))

  -- The claims of a token of which the parser has read these.
  abbrev pub claims_of : Validator → C → AccessClaims → (now : ℕ) → C × CognitoClaims
  claims_of v cache claims now =
      let groups = normalize_groups (group_list claims.groups) in
      let role = role_of role_priority groups in
      let own = trim_space claims.email in
      let subject = trim_space claims.subject in
      let email = if own == "" then resolve_email_by_sub v cache subject now else (cache, own) in
      (
        email.0,
        record {
          subject = subject;
          email = email.1;
          role = role;
          groups = groups;
          scopes = fields claims.scope ++ role_scopes role;
        },
      )

  abbrev pub accept : Validator → C → Option AccessClaims → (now : ℕ) → C × Option CognitoClaims
  accept v cache none now = (cache, none)
  accept v cache (some claims) now =
      if claims.token_use == "access"
        && not (trim_space claims.subject == "")
        && valid_audience v claims
      then (let result = claims_of v cache claims now in (result.0, some result.1))
      else (cache, none)

  -- Validate; `none` is ErrInvalidCognitoToken.
  unfoldable pub validate : Validator → C → String → (now : ℕ) → C × Option CognitoClaims
  validate v cache token now =
      if v.issuer == "" || is_empty v.audiences || v.jwks_url == ""
      then (cache, none)
      else accept v cache (v.parse now token) now
