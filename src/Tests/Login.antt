-- ===== src/Tests/Login.antt =====
-- Logins at concrete inputs: Keycloak grants every code.
use bff_api_go_collection_ac.Base.{
  ℕ, ◌+◌, String, ◌≡◌, ◌≢◌, refl, some, none, List, [], ◌∷◌, ltb, arith, if◌then◌else◌,
}
use bff_api_go_collection_ac.Base.Ints.{pos}
use bff_api_go_collection_ac.Base.Results.{ok}
use bff_api_go_collection_ac.Base.Texts.{ne_of_eq_false, trim_space}
use bff_api_go_collection_ac.Json.{field, end, str, num, get}
use bff_api_go_collection_ac.Sessions.{MemoryEntry, SessionPayload}
use bff_api_go_collection_ac.Auth.Keycloak.{TokenSet, answered, exchange_code, post_token}
use bff_api_go_collection_ac.Auth.Login.{
  AuthHandler, Stores, Draws, redirect, json, bad_request, return_to_of, login, callback, logout,
  me, me_body, payload_of, extract_sub,
}
use bff_api_go_collection_ac.Auth.Login.Flow.{
  IsGiven, Event, login_event, me_event, run, callback-run-callback,
}
use bff_api_go_collection_ac.Auth.Login.Leaving.{me-callback-login}
use bff_api_go_collection_ac.Auth.Login.Logout.{me-logout}

abbrev handler : AuthHandler
handler = record {
  cfg = record {
    environment = "test";
    bff_post_login_url = "/home";
    bff_oidc_redirect_uri = "/callback";
  };
  oidc = record {
    base_url = "http://kc";
    public_url = "http://kc";
    realm = "r";
    client_id = "bff";
    post_form = λ url form. answered 200 (
        some (
          field "access_token" (str "at")
            (field "refresh_token" (str "rt") (field "refresh_expires_in" (num (pos 600)) end))));
    encode = λ form. "";
  };
  decoders = record { padded = λ s. none; raw = λ s. none; claims = λ s. none };
}

abbrev draws : (state csrf session_id : String) → Draws
draws state csrf session_id = record {
  pkce = some ("verifier", "challenge");
  state = some state;
  nonce = some "n";
  csrf = some csrf;
  session_id = some session_id;
}

abbrev tokens : TokenSet
tokens = record {
  access_token = "at";
  refresh_token = "rt";
  expires_in = pos 0;
  refresh_expires_in = pos 600;
  id_token = "";
}

abbrev none_yet : Stores
none_yet = record { sessions = []; flow_states = []; posted = [] }

state-IsGiven : IsGiven 512 "s-1"
unfolding trim_space
state-IsGiven = record {
  filled = ne_of_eq_false "s-1" "" refl;
  trimmed = refl;
  bounded = omega arith;
}

code-IsGiven : IsGiven 2048 "c-1"
unfolding trim_space
code-IsGiven = record {
  filled = ne_of_eq_false "c-1" "" refl;
  trimmed = refl;
  bounded = omega arith;
}

granted : exchange_code handler.oidc "c-1" "verifier" "/callback" ≡ ok tokens
unfolding exchange_code post_token get
granted = refl

abbrev first_draws : Draws
first_draws = draws "s-1" "x" "y"

abbrev second_draws : Draws
second_draws = draws "s-2" "csrf" "sid"

abbrev began : Stores
began = (login handler first_draws none_yet 1000 "https://elsewhere.example/").0

me-callback-login_example :
    ((callback handler second_draws began 1100 "c-1" "s-1").1
      ≡ redirect
          (some (record { session_id = "sid"; max_age = pos 600 }))
          (return_to_of handler.cfg "https://elsewhere.example/"))
    × ((t : ℕ)
        → (me (callback handler second_draws began 1100 "c-1" "s-1").0 t "sid").1
          ≡ json none (
              me_body (
                if ltb t (1100 + 600)
                then some (payload_of tokens (extract_sub handler.decoders "at") "csrf" 1100)
                else none)))
me-callback-login_example =
    me-callback-login handler first_draws second_draws "verifier" "challenge" "s-1" "n" "csrf" "sid"
      (record {
        pkce = refl;
        drawn = refl;
        noted = refl;
        token = refl;
        session = refl;
        named = ne_of_eq_false "sid" "" refl;
      })
      none_yet "https://elsewhere.example/" "c-1" 1000 1100 state-IsGiven code-IsGiven (omega arith)
      (omega arith) tokens granted 600 refl (omega arith) (omega arith)

abbrev between : List Event
between = login_event second_draws 1200 "" ∷ me_event 1201 "sid" ∷ []

callback-run-callback_example :
    let after = run handler (callback handler second_draws began 1100 "c-1" "s-1").0 between in
    ((callback handler first_draws after 1250 "c-1" "s-1").1 ≡ bad_request)
    × ((callback handler first_draws after 1250 "c-1" "s-1").0.sessions ≡ after.sessions)
callback-run-callback_example =
    callback-run-callback handler "s-1" "c-1" "c-1" state-IsGiven code-IsGiven code-IsGiven began
      second_draws first_draws 1100 1250 between
      (λ e. ne_of_eq_false "s-2" "s-1" refl (cc), (tt, tt))

abbrev entry_of : String → MemoryEntry SessionPayload
entry_of csrf = record { value = payload_of tokens "ana" csrf 0; expires_at = pos 600 }

abbrev two_sessions : Stores
two_sessions = record none_yet { sessions = ("sid", entry_of "x") ∷ ("other", entry_of "y") ∷ [] }

me-logout_example :
    ((me (logout handler two_sessions 5 "sid").0 6 "sid").1 ≡ json none (me_body none))
    × (◌≢◌ {A = String} "sid" "other"
        → ◌≢◌ {A = String} "other" ""
        → (me (logout handler two_sessions 5 "sid").0 6 "other").1 ≡ (me two_sessions 6 "other").1)
me-logout_example = me-logout handler two_sessions 5 "sid" (ne_of_eq_false "sid" "" refl) 6 "other"
