-- ===== src/Auth/Login/Saved.antt =====
-- internal/interface/api/handler/auth.go: what its handlers work on, the start of a login, and the
-- session that is made of tokens.
use Prim.Native.String
use Prim.Native.String.{len}
use bff_api_go_collection_ac.Base.{
  ℕ, ◌-◌, ◌%◌, zero, suc, String, Bool, not, ◌||◌, ◌==◌, List, ◌∷◌, Option, none, some, ltb,
  if◌then◌else◌,
}
use bff_api_go_collection_ac.Base.Ints.{ℤ, pos, wrap, ltb_ℤ, ◌+ℤ◌}
use bff_api_go_collection_ac.Base.Maps.{Map}
use bff_api_go_collection_ac.Base.Texts.{trim_space, to_lower, split}
use bff_api_go_collection_ac.Json.{Json, bool, str, Fields, end, field}
use bff_api_go_collection_ac.Json
use bff_api_go_collection_ac.Sessions
use bff_api_go_collection_ac.Sessions.{MemoryEntry, SessionPayload, FlowState}
use bff_api_go_collection_ac.Auth.Keycloak.{OidcClient, TokenSet, Form, build_authorize_url}

-- What the handlers read of config.Config.
pub record Config : Type 0 where
  pub environment : String
  pub bff_post_login_url : String
  pub bff_oidc_redirect_uri : String

-- IsDevLoginEnabled
unfoldable pub is_dev_login_enabled : Config → Bool
is_dev_login_enabled cfg = not (to_lower (trim_space cfg.environment) == "production")

-- base64 of URLs with and without padding, and json.Unmarshal into a map.
pub record Decoders : Type 0 where
  pub padded : String → Option String
  pub raw : String → Option String
  pub claims : String → Option Fields

pub record AuthHandler : Type 0 where
  pub cfg : Config
  pub oidc : OidcClient
  pub decoders : Decoders

-- The two stores, and the forms that were posted to end a session at Keycloak.
pub record Stores : Type 0 where
  pub sessions : Map (MemoryEntry SessionPayload)
  pub flow_states : Map (MemoryEntry FlowState)
  pub posted : List (String × Form)

pub record Draws : Type 0 where
  -- MakePKCEPair: the verifier and its challenge.
  pub pkce : Option (String × String)
  pub state : Option String
  pub nonce : Option String
  pub csrf : Option String
  pub session_id : Option String

pub record Cookie : Type 0 where
  pub session_id : String
  pub max_age : ℤ

pub data Response : Type 0 where
  refusal : (status code : ℕ) (message : String) → Response
  redirect : Option Cookie → (url : String) → Response
  json : Option Cookie → Fields → Response

abbrev pub no_login : Response
no_login = refusal 500 5000 "No se pudo iniciar sesión."

abbrev pub no_session : Response
no_session = refusal 500 5000 "No se pudo crear la sesión."

abbrev pub bad_request : Response
bad_request = refusal 400 20003 "Solicitud invalida."

abbrev pub invalid_request : Response
invalid_request = refusal 422 90013 "Solicitud invalida."

-- Where a login goes back to. It is not compared with anything.
unfoldable pub return_to_of : Config → (query : String) → String
return_to_of cfg query =
    let return_to = trim_space query in
    if return_to == "" || ltb 2048 (len return_to) then cfg.bff_post_login_url else return_to

module _ (h : AuthHandler) (d : Draws) (st : Stores) (now : ℕ) where
  abbrev pub start_flow :
      (return_to : String)
      → Option (String × String)
      → Option String
      → Option String
      → Stores × Response
  start_flow return_to (some (verifier, challenge)) (some state) (some number) = (
    record st {
      flow_states =
          Sessions.put st.flow_states state
            (record {
              code_verifier = verifier;
              nonce = number;
              return_to = return_to;
              created_at = pos now;
            })
            (pos 300) now;
    },
    redirect none
        (build_authorize_url h.oidc h.cfg.bff_oidc_redirect_uri state challenge number ""),
  )
  start_flow return_to pkce state number = (st, no_login)

  unfoldable pub login : (return_to_query : String) → Stores × Response
  login return_to_query = start_flow (return_to_of h.cfg return_to_query) d.pkce d.state d.nonce

-- strings.Repeat("=", n)
padding : ℕ → String
padding zero = ""
padding (suc n) = String.◌∷◌ "=" (padding n)

abbrev sub_of : Option Fields → String
sub_of none = ""
sub_of (some claims) = elim (Json.get "sub" claims) [ some (str s) ↦ s | v ↦ "" ]

abbrev read_claims : Decoders → Option String → Option String → String
read_claims x (some raw) second = sub_of (x.claims raw)
read_claims x none (some raw) = sub_of (x.claims raw)
read_claims x none none = ""

abbrev sub_in : Decoders → List String → String
sub_in x (head ∷ part ∷ rest) =
    read_claims x (x.padded (String.◌++◌ part (padding ((4 - len part % 4) % 4)))) (x.raw part)
sub_in x parts = ""

unfoldable pub extract_sub : Decoders → (jwt_token : String) → String
unfolding padding
extract_sub x jwt_token = sub_in x (split b'.' jwt_token)

-- A session's lifetime is that of its refresh token, and at least a minute.
abbrev pub ttl_of : TokenSet → ℤ
ttl_of tokens =
    if ltb_ℤ tokens.refresh_expires_in (pos 60) then pos 60 else tokens.refresh_expires_in

abbrev pub payload_of : TokenSet → (sub csrf : String) → (now : ℕ) → SessionPayload
payload_of tokens sub csrf now = record {
  sub = sub;
  access_token = tokens.access_token;
  access_expires_at = wrap (pos now +ℤ tokens.expires_in);
  refresh_token = tokens.refresh_token;
  refresh_expires_at = wrap (pos now +ℤ tokens.refresh_expires_in);
  csrf_token = csrf;
  id_token = (if tokens.id_token == "" then none else some tokens.id_token);
}

module _ (h : AuthHandler) (st : Stores) (now : ℕ) where
  abbrev pub save_with :
      TokenSet → (sub : String) → Option String → Option String → Stores × Option Cookie
  save_with tokens sub (some csrf) (some session_id) = (
    record st {
      sessions =
          Sessions.put st.sessions session_id (payload_of tokens sub csrf now) (ttl_of tokens) now;
    },
    some (record { session_id = session_id; max_age = ttl_of tokens }),
  )
  save_with tokens sub csrf session_id = (st, none)

  -- saveSessionFromTokens
  unfoldable pub save_session_from_tokens :
      Draws → TokenSet → (sub_hint : String) → Stores × Option Cookie
  save_session_from_tokens d tokens sub_hint =
      let sub = (if sub_hint == "" then extract_sub h.decoders tokens.access_token else sub_hint) in
      save_with tokens sub d.csrf d.session_id
