-- ===== src/Auth/Keycloak.antt =====
-- internal/infrastructure/auth/keycloak/client.go. `post_form` is net/http with a form that it
-- encodes, and `encode` is url.Values.Encode; a form is a list of names and values.
use Prim.Native.Char.{code}
use Prim.Native.String.{[], ◌∷◌, ◌++◌}
use bff_api_go_collection_ac.Base.{ℕ, String, ◌==◌, Option, none, some, eqb, if◌then◌else◌, ◌&&◌}
use mathlib.Core.List.{List}
use bff_api_go_collection_ac.Base.Ints.{ℤ, pos}
use bff_api_go_collection_ac.Base.Results.{Result, ok, err, guard, ◌>>◌}
use bff_api_go_collection_ac.Base.Texts.{trim_space}
use bff_api_go_collection_ac.Base.Texts.Decimal.{itoa}
use bff_api_go_collection_ac.Json.{Json, str, num, Fields, get}

abbrev pub Form : Type 0
Form = List (String × String)

-- A call that fails, with its error, and an answer: its status and the object of its body, if the
-- body is one.
pub data Reply : Type 0 where
  unreachable : (problem : String) → Reply
  answered : (status : ℕ) (body : Option Fields) → Reply

-- KeycloakOIDCClient
pub record OidcClient : Type 0 where
  pub base_url : String
  pub public_url : String
  pub realm : String
  pub client_id : String
  pub post_form : (url : String) → Form → Reply
  pub encode : Form → String

pub record TokenSet : Type 0 where
  pub access_token : String
  pub refresh_token : String
  pub expires_in : ℤ
  pub refresh_expires_in : ℤ
  pub id_token : String

-- strings.TrimRight(s, "/")
unfoldable pub trim_slashes : String → String
trim_slashes [] = []
trim_slashes (c ∷ s) =
    let rest = trim_slashes s in if eqb (code c) b'/' && rest == "" then [] else c ∷ rest

unfoldable pub new_keycloak_oidc_client :
    (post_form : String → Form → Reply) (encode : Form → String)
    (base_url public_url realm client_id : String)
    → OidcClient
new_keycloak_oidc_client post_form encode base_url public_url realm client_id =
    let base = trim_slashes (trim_space base_url) in
    let public = trim_slashes (trim_space public_url) in
    record {
      base_url = base;
      public_url = (if public == "" then base else public);
      realm = realm;
      client_id = client_id;
      post_form = post_form;
      encode = encode;
    }

abbrev realm_url : (base realm action : String) → String
realm_url base realm action =
    base ++ ("/realms/" ++ (realm ++ ("/protocol/openid-connect/" ++ action)))

abbrev pub authorize_url : OidcClient → String
authorize_url c = realm_url c.public_url c.realm "auth"

abbrev pub token_url : OidcClient → String
token_url c = realm_url c.base_url c.realm "token"

abbrev pub logout_url : OidcClient → String
logout_url c = realm_url c.base_url c.realm "logout"

abbrev pub authorize_params :
    OidcClient → (redirect_uri state code_challenge nonce scope : String) → Form
authorize_params c redirect_uri state code_challenge nonce scope =
    List.◌∷◌ ("client_id", c.client_id)
      (List.◌∷◌ ("response_type", "code")
        (List.◌∷◌ ("redirect_uri", redirect_uri)
          (List.◌∷◌ ("scope", (if scope == "" then "openid profile email" else scope))
            (List.◌∷◌ ("state", state)
              (List.◌∷◌ ("nonce", nonce)
                (List.◌∷◌ ("code_challenge", code_challenge)
                  (List.◌∷◌ ("code_challenge_method", "S256") List.[])))))))

unfoldable pub build_authorize_url :
    OidcClient → (redirect_uri state code_challenge nonce scope : String) → String
build_authorize_url c redirect_uri state code_challenge nonce scope =
    authorize_url c
    ++ ("?" ++ c.encode (authorize_params c redirect_uri state code_challenge nonce scope))

abbrev text_of : Option Json → String
text_of (some (str s)) = s
text_of v = ""

-- intNumber, on the whole numbers.
abbrev int_number : Option Json → ℤ
int_number (some (num n)) = n
int_number v = pos 0

abbrev token_set_of : Fields → TokenSet
token_set_of parsed = record {
  access_token = text_of (get "access_token" parsed);
  refresh_token = text_of (get "refresh_token" parsed);
  expires_in = int_number (get "expires_in" parsed);
  refresh_expires_in = int_number (get "refresh_expires_in" parsed);
  id_token = text_of (get "id_token" parsed);
}

abbrev tokens_of : Option Fields → Result String TokenSet
tokens_of none = err "keycloak token endpoint invalid response"
tokens_of (some parsed) = ok (token_set_of parsed)

-- A KeycloakOIDCError is its message.
abbrev read_reply : Reply → Result String TokenSet
read_reply (unreachable problem) = err ("keycloak unreachable: " ++ problem)
read_reply (answered status body) = do
  guard (eqb status 200) ("keycloak token endpoint " ++ itoa status)
  tokens_of body

unfoldable pub post_token : OidcClient → Form → Result String TokenSet
post_token c form = read_reply (c.post_form (token_url c) form)

abbrev pub code_form : OidcClient → (auth_code code_verifier redirect_uri : String) → Form
code_form c auth_code code_verifier redirect_uri =
    List.◌∷◌ ("grant_type", "authorization_code")
      (List.◌∷◌ ("client_id", c.client_id)
        (List.◌∷◌ ("code", auth_code)
          (List.◌∷◌ ("code_verifier", code_verifier)
            (List.◌∷◌ ("redirect_uri", redirect_uri) List.[]))))

unfoldable pub exchange_code :
    OidcClient → (auth_code code_verifier redirect_uri : String) → Result String TokenSet
exchange_code c auth_code code_verifier redirect_uri =
    post_token c (code_form c auth_code code_verifier redirect_uri)

unfoldable pub refresh : OidcClient → (refresh_token : String) → Result String TokenSet
refresh c refresh_token = post_token c (
    List.◌∷◌ ("grant_type", "refresh_token")
      (List.◌∷◌ ("client_id", c.client_id) (List.◌∷◌ ("refresh_token", refresh_token) List.[])))

unfoldable pub password_grant : OidcClient → (username password : String) → Result String TokenSet
password_grant c username password = post_token c (
    List.◌∷◌ ("grant_type", "password")
      (List.◌∷◌ ("client_id", c.client_id)
        (List.◌∷◌ ("username", username)
          (List.◌∷◌ ("password", password) (List.◌∷◌ ("scope", "openid profile email") List.[])))))

-- The form that Logout posts, if there is a token; the reply is thrown away.
unfoldable pub logout_form : OidcClient → (refresh_token : String) → Option (String × Form)
logout_form c refresh_token =
    if refresh_token == ""
    then none
    else some (
      logout_url c,
      List.◌∷◌ ("client_id", c.client_id) (List.◌∷◌ ("refresh_token", refresh_token) List.[]),
    )
