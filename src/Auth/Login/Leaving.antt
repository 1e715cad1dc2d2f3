-- ===== src/Auth/Login/Leaving.antt =====
-- What a login comes to: where the browser goes, what Me then says, and what it says after Logout.
use bff_api_go_collection_ac.Base.{
  ℕ, ◌+◌, ◌≤◌, ◌<◌, ◌^◌, String, none, some, ltb, ◌≡◌, ◌≢◌, ap, ◌∙◌, arith, eq_refl, if◌then◌else◌,
}
use bff_api_go_collection_ac.Base.Ints.{pos, pos-add, wrap-pos}
use bff_api_go_collection_ac.Base.Maps.{Map, find-store}
use bff_api_go_collection_ac.Base.Results.{ok}
use bff_api_go_collection_ac.Base.Texts.{eq_false_of_ne}
use bff_api_go_collection_ac.Sessions
use bff_api_go_collection_ac.Sessions.{MemoryEntry, SessionPayload, FlowState}
use bff_api_go_collection_ac.Sessions.Lifetimes
use bff_api_go_collection_ac.Auth.Keycloak.{TokenSet, exchange_code, build_authorize_url}
use bff_api_go_collection_ac.Auth.Login.{
  AuthHandler, Stores, Draws, Cookie, Response, redirect, json, return_to_of, login, callback, me,
  me_body, save_session_from_tokens, payload_of, extract_sub,
}
use bff_api_go_collection_ac.Auth.Login.Flow.{IsGiven, callback_lem, popped}

pop-put :
    (m : Map (MemoryEntry FlowState)) (id : String) (v : FlowState) (ttl now later : ℕ)
    → id ≢ ""
    → now + ttl < 2 ^ 63
    → later < now + ttl
    → (Sessions.pop (Sessions.put m id v (pos ttl) now) id later).1 ≡ some v
unfolding Sessions.pop Sessions.put
pop-put m id v ttl now later h k live =
    rw (eq_false_of_ne id "" h, find-store, eq_refl id, pos-add now ttl, wrap-pos (now + ttl) k)
      (ground arith)

-- The random values of a login and of the callback that ends it.
pub record IsDrawn (start back : Draws) (verifier challenge state number csrf session_id : String)
    : Type 0 where
  pub pkce : start.pkce ≡ some (verifier, challenge)
  pub drawn : start.state ≡ some state
  pub noted : start.nonce ≡ some number
  pub token : back.csrf ≡ some csrf
  pub session : back.session_id ≡ some session_id
  pub named : session_id ≢ ""

module _ (h : AuthHandler) (start back : Draws)
    (verifier challenge state number csrf session_id : String)
    (drawn : IsDrawn start back verifier challenge state number csrf session_id) (st : Stores)
    (query auth_code : String) (now later : ℕ) (state_ok : IsGiven 512 state)
    (code_ok : IsGiven 2048 auth_code) (small : now + 300 < 2 ^ 63) (soon : later < now + 300)
    (tokens : TokenSet)
    (granted : exchange_code h.oidc auth_code verifier h.cfg.bff_oidc_redirect_uri ≡ ok tokens)
    (lifetime : ℕ) (long : tokens.refresh_expires_in ≡ pos lifetime) (minute : 60 ≤ lifetime)
    (fits : later + lifetime < 2 ^ 63) where
  flow : FlowState
  flow = record {
    code_verifier = verifier;
    nonce = number;
    return_to = return_to_of h.cfg query;
    created_at = pos now;
  }

  abbrev pub started : Stores × Response
  started = login h start st now query

  abbrev pub finished : Stores × Response
  finished = callback h back started.0 later auth_code state

  started_lem : started ≡ (
    record st { flow_states = Sessions.put st.flow_states state flow (pos 300) now },
    redirect none
        (build_authorize_url h.oidc h.cfg.bff_oidc_redirect_uri state challenge number ""),
  )
  unfolding login flow
  started_lem = rw (drawn.pkce, drawn.drawn, drawn.noted)

  abbrev pub session_payload : SessionPayload
  session_payload = payload_of tokens (extract_sub h.decoders tokens.access_token) csrf later

  abbrev pub session_cookie : Cookie
  session_cookie = record { session_id = session_id; max_age = pos lifetime }

  saved_lem :
      (s : Stores)
      → save_session_from_tokens h s later back tokens "" ≡ (
        record s {
          sessions = Sessions.put s.sessions session_id session_payload (pos lifetime) later;
        },
        some session_cookie,
      )
  unfolding save_session_from_tokens
  saved_lem s = rw (drawn.token, drawn.session, long) (ground arith)

  finished_lem :
      (s : Stores) × (finished ≡ (
        record s {
          sessions = Sessions.put s.sessions session_id session_payload (pos lifetime) later;
        },
        redirect (some session_cookie) (return_to_of h.cfg query),
      ))
  unfolding flow
  finished_lem =
      let given : (Sessions.pop started.0.flow_states state later).1 ≡ some flow =
        rw started_lem
          (pop-put st.flow_states state flow 300 now later state_ok.filled small soon) in
      (
        popped h back auth_code state code_ok state_ok started.0 later,
        callback_lem h back auth_code state code_ok state_ok started.0 later
            ∙ rw given (rw granted (rw (saved_lem _))),
      )

  -- A login whose callback comes within five minutes, with the code that Keycloak grants for its
  -- verifier together with a refresh token of at least 60 seconds, sends the browser to the place
  -- that the login was asked to go back to, whichever that is, with the cookie of a new session; Me
  -- says who is in that session for the lifetime of the refresh token, and says from then on that
  -- nobody is.
  pub me-callback-login :
      (finished.1 ≡ redirect (some session_cookie) (return_to_of h.cfg query))
      × ((t : ℕ)
          → (me finished.0 t session_id).1
            ≡ json none (me_body (if ltb t (later + lifetime) then some session_payload else none)))
  unfolding me
  me-callback-login =
      let (s, whole) = finished_lem in
      (
        ap (λ (r : Stores × Response). r.1) whole,
        λ t. rw whole (
            rw (eq_false_of_ne session_id "" drawn.named) (
              ap (λ o. json none (me_body o))
                (Lifetimes.get-put s.sessions session_id session_payload lifetime later t
                  drawn.named fits))),
      )
