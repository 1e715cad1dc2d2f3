-- ===== src/Auth/Login.antt =====
-- internal/interface/api/handler/auth.go over the stores in memory, which Sessions models. The
-- random values of a request are its `Draws`, none where crypto/rand fails; base64 and encoding/json
-- are parameters. A cookie that is missing is "". Queries and fields come as texts.
mod Saved
pub mod Flow
pub mod Leaving
pub mod Logout
unfoldable pub use Saved.{
  is_dev_login_enabled, return_to_of, login, extract_sub, save_session_from_tokens,
}
pub use Saved.*
use Prim.Native.String
use Prim.Native.String.{len}
use bff_api_go_collection_ac.Base.{
  ℕ, ◌+◌, ◌-◌, ◌%◌, zero, suc, String, Bool, true, false, not, ◌&&◌, ◌||◌, ◌==◌, List, [], ◌∷◌,
  Option, none, some, eqb, ltb, if◌then◌else◌,
}
use bff_api_go_collection_ac.Base.Ints.{ℤ, pos, negsuc, wrap, ltb_ℤ, ◌+ℤ◌}
use bff_api_go_collection_ac.Base.Maps.{Map}
use bff_api_go_collection_ac.Base.Results.{Result, ok, err}
use bff_api_go_collection_ac.Base.Texts.{trim_space, to_lower, split}
use bff_api_go_collection_ac.Json.{Json, bool, str, Fields, end, field}
use bff_api_go_collection_ac.Json
use bff_api_go_collection_ac.Sessions
use bff_api_go_collection_ac.Sessions.{MemoryEntry, SessionPayload, FlowState}
use bff_api_go_collection_ac.Auth.Keycloak.{
  OidcClient, TokenSet, Form, build_authorize_url, exchange_code, password_grant, logout_form,
}

abbrev pub logged_in : (return_to : String) → Stores × Option Cookie → Stores × Response
logged_in return_to (st, none) = (st, no_session)
logged_in return_to (st, some cookie) = (st, redirect (some cookie) return_to)

abbrev pub with_tokens :
    AuthHandler
    → Draws
    → Stores
    → (now : ℕ) → (return_to : String) → Result String TokenSet
    → Stores × Response
with_tokens h d st now return_to (err message) = (st, refusal 401 5071 message)
with_tokens h d st now return_to (ok tokens) =
    logged_in return_to (save_session_from_tokens h st now d tokens "")

abbrev pub with_flow :
    AuthHandler
    → Draws
    → (now : ℕ) → (auth_code : String) → Stores
    → Option FlowState
    → Stores × Response
with_flow h d now auth_code st none = (st, bad_request)
with_flow h d now auth_code st (some flow) =
    with_tokens h d st now flow.return_to
      (exchange_code h.oidc auth_code flow.code_verifier h.cfg.bff_oidc_redirect_uri)

-- Callback. The state of the login is used up whatever comes of it, and its nonce is not compared.
unfoldable pub callback :
    AuthHandler → Draws → Stores → (now : ℕ) → (code_query state_query : String) → Stores × Response
callback h d st now code_query state_query =
    let auth_code = trim_space code_query in
    let state = trim_space state_query in
    let (flows, flow) = Sessions.pop st.flow_states state now in
    if auth_code == "" || state == ""
    then (st, invalid_request)
    else if ltb 2048 (len auth_code) || ltb 512 (len state)
    then (st, bad_request)
    else with_flow h d now auth_code (record st { flow_states = flows }) flow

abbrev pub post_logout :
    AuthHandler → Option SessionPayload → List (String × Form) → List (String × Form)
post_logout h none posted = posted
post_logout h (some p) posted = elim (logout_form h.oidc p.refresh_token) [
  | none ↦ posted
  | some form ↦ form ∷ posted
]

abbrev pub cleared : Option Cookie
cleared = some (record { session_id = ""; max_age = negsuc 0 })

unfoldable pub logout : AuthHandler → Stores → (now : ℕ) → (cookie : String) → Stores × Response
logout h st now cookie =
    let (sessions, payload) = Sessions.get st.sessions cookie now in
    if cookie == "" then (st, json cleared (field "revoked" (bool false) end)) else (
      record st {
        sessions = Sessions.delete sessions cookie;
        posted = post_logout h payload st.posted;
      },
      json cleared (field "revoked" (bool true) end),
    )

abbrev pub given : (key value : String) → Fields → Fields
given key value rest = if value == "" then rest else field key (str value) rest

abbrev pub me_body : Option SessionPayload → Fields
me_body none = field "authenticated" (bool false) end
me_body (some p) =
    field "authenticated" (bool true) (given "sub" p.sub (given "csrf_token" p.csrf_token end))

unfoldable pub me : Stores → (now : ℕ) → (cookie : String) → Stores × Response
me st now cookie =
    let (sessions, payload) = Sessions.get st.sessions cookie now in
    if cookie == ""
    then (st, json none (me_body none))
    else (record st { sessions = sessions }, json none (me_body payload))

abbrev csrf_of : Option SessionPayload → String
csrf_of none = ""
csrf_of (some p) = p.csrf_token

abbrev pub dev_logged_in :
    (now : ℕ) → TokenSet → (sub : String) → Stores × Option Cookie → Stores × Response
dev_logged_in now tokens sub (st, none) = (st, no_session)
dev_logged_in now tokens sub (st, some cookie) =
    let (sessions, saved) = Sessions.get st.sessions cookie.session_id now in
    (
      record st { sessions = sessions },
      json (some cookie) (
          field "authenticated" (bool true) (
            field "sub" (str sub) (
              field "csrf_token" (str (csrf_of saved))
                (field "access_token" (str tokens.access_token) end)))),
    )

abbrev pub with_dev_tokens :
    AuthHandler → Draws → Stores → (now : ℕ) → Result String TokenSet → Stores × Response
with_dev_tokens h d st now (err message) = (st, refusal 401 5071 "invalid credentials")
with_dev_tokens h d st now (ok tokens) =
    let sub = extract_sub h.decoders tokens.access_token in
    dev_logged_in now tokens sub (save_session_from_tokens h st now d tokens sub)

abbrev pub fits : (limit : ℕ) → String → Bool
fits limit s = not (s == "") && not (ltb limit (len s))

-- DevLogin, with the request's fields if its body can be read.
unfoldable pub dev_login :
    AuthHandler → Draws → Stores → (now : ℕ) → (req : Option (String × String)) → Stores × Response
dev_login h d st now none =
    if is_dev_login_enabled h.cfg then (st, invalid_request) else (st, refusal 404 4040 "not found")
dev_login h d st now (some (username, password)) =
    if not (is_dev_login_enabled h.cfg)
    then (st, refusal 404 4040 "not found")
    else if fits 256 username && fits 512 password
    then with_dev_tokens h d st now (password_grant h.oidc username password)
    else (st, invalid_request)
