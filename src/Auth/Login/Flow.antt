-- ===== src/Auth/Login/Flow.antt =====
-- A login from its start to the session, and that its state makes one session at most.
use Prim.Native.String.{len}
use bff_api_go_collection_ac.Base.{
  ℕ, ◌≤◌, String, ◌||◌, ◌==◌, List, [], ◌∷◌, Option, none, some, ltb, ◌≡◌, ◌≢◌, refl, ap, ◌∙◌, inl,
  inr, All, Bool-cases, arith,
}
use bff_api_go_collection_ac.Base.Ints.{pos}
use bff_api_go_collection_ac.Base.Maps.{find}
use bff_api_go_collection_ac.Base.Results.{Result, ok, err}
use bff_api_go_collection_ac.Base.Texts.{trim_space, eq_false_of_ne}
use bff_api_go_collection_ac.Sessions
use bff_api_go_collection_ac.Sessions.{MemoryEntry, SessionPayload, FlowState}
use bff_api_go_collection_ac.Sessions.Lifetimes
use bff_api_go_collection_ac.Auth.Keycloak.{TokenSet, exchange_code, password_grant}
use bff_api_go_collection_ac.Auth.Login.{
  AuthHandler, Stores, Draws, Cookie, Response, bad_request, login, callback, with_flow,
  with_tokens, logout, me, dev_login, save_session_from_tokens, extract_sub, start_flow, logged_in,
  dev_logged_in, with_dev_tokens,
}

-- A text that is a query as it stands, and within its bound.
pub record IsGiven (limit : ℕ) (s : String) : Type 0 where
  pub filled : s ≢ ""
  pub trimmed : trim_space s ≡ s
  pub bounded : len s ≤ limit

-- A callback that gets as far as the state of the login.
module _ (h : AuthHandler) (d : Draws) (auth_code state : String) (code_ok : IsGiven 2048 auth_code)
    (state_ok : IsGiven 512 state) where
  abbrev pub popped : Stores → (now : ℕ) → Stores
  popped st now = record st { flow_states = (Sessions.pop st.flow_states state now).0 }

  pub callback_lem :
      (st : Stores) (now : ℕ)
      → callback h d st now auth_code state
        ≡ with_flow h d now auth_code (popped st now) (Sessions.pop st.flow_states state now).1
  unfolding callback
  callback_lem st now =
      rw
        (
          code_ok.trimmed,
          state_ok.trimmed,
          eq_false_of_ne auth_code "" code_ok.filled,
          eq_false_of_ne state "" state_ok.filled,
        )
        (ground (arith, code_ok.bounded, state_ok.bounded))

-- A request to one of the handlers, with its random values, its time and what it brings.
pub data Event : Type 0 where
  login_event : Draws → ℕ → (return_to : String) → Event
  callback_event : Draws → ℕ → (auth_code state : String) → Event
  logout_event : ℕ → (cookie : String) → Event
  me_event : ℕ → (cookie : String) → Event
  dev_login_event : Draws → ℕ → Option (String × String) → Event

module _ (h : AuthHandler) where
  unfoldable pub step : Stores → Event → Stores
  step st (login_event d now query) = (login h d st now query).0
  step st (callback_event d now auth_code state) = (callback h d st now auth_code state).0
  step st (logout_event now cookie) = (logout h st now cookie).0
  step st (me_event now cookie) = (me st now cookie).0
  step st (dev_login_event d now req) = (dev_login h d st now req).0

  unfoldable pub run : Stores → List Event → Stores
  run st [] = st
  run st (e ∷ es) = run (step st e) es

-- The event does not start a login under this state.
abbrev pub NotStarted : String → Event → Type 0
NotStarted state (login_event d now query) = d.state ≢ some state
NotStarted state e = Unit

abbrev IsUsed : String → Stores → Type 0
IsUsed state st = find state st.flow_states ≡ none

module _ (h : AuthHandler) (state : String) where
  save-flow_states :
      (st : Stores) (now : ℕ) (d : Draws) (tokens : TokenSet) (hint : String)
      → (save_session_from_tokens h st now d tokens hint).0.flow_states ≡ st.flow_states
  unfolding save_session_from_tokens
  save-flow_states st now d tokens hint = ground (arith)

  start_flow-IsUsed :
      (d : Draws) (st : Stores) (now : ℕ) (return_to : String) (pkce : Option (String × String))
      (drawn number : Option String)
      → drawn ≢ some state
      → IsUsed state st
      → IsUsed state (start_flow h d st now return_to pkce drawn number).0
  start_flow-IsUsed d st now return_to (some (v, c)) (some s) (some n) new used =
      let other : s ≢ state = λ e. new (ap some e) in
      Lifetimes.find-put_other st.flow_states s state _ (pos 300) now other ∙ used
  start_flow-IsUsed d st now return_to none drawn number new used = used
  start_flow-IsUsed d st now return_to (some p) none number new used = used
  start_flow-IsUsed d st now return_to (some p) (some s) none new used = used

  with_flow-flow_states :
      (d : Draws) (now : ℕ) (auth_code : String) (st : Stores) (flow : Option FlowState)
      → (with_flow h d now auth_code st flow).0.flow_states ≡ st.flow_states
  with_flow-flow_states d now auth_code st none = refl
  with_flow-flow_states d now auth_code st (some flow) =
      exchanged (exchange_code h.oidc auth_code flow.code_verifier h.cfg.bff_oidc_redirect_uri)
    where
      entered :
          (r : Stores × Option Cookie)
          → (logged_in flow.return_to r).0.flow_states ≡ r.0.flow_states
      entered (s, none) = refl
      entered (s, some c) = refl

      exchanged :
          (r : Result String TokenSet)
          → (with_tokens h d st now flow.return_to r).0.flow_states ≡ st.flow_states
      exchanged (err m) = refl
      exchanged (ok tokens) =
          entered (save_session_from_tokens h st now d tokens "")
          ∙ save-flow_states st now d tokens ""

  callback-IsUsed :
      (d : Draws) (st : Stores) (now : ℕ) (code_query state_query : String)
      → IsUsed state st
      → IsUsed state (callback h d st now code_query state_query).0
  unfolding callback
  callback-IsUsed d st now code_query state_query used =
      elim (Bool-cases (auth_code == "" || asked == "")) [
        | inl blank ↦ rw blank used
        | inr filled ↦
            rw filled (elim (Bool-cases (ltb 2048 (len auth_code) || ltb 512 (len asked))) [
              | inl long ↦ rw long used
              | inr short ↦ rw short (
                  rw (with_flow-flow_states d now auth_code _ _)
                    (Lifetimes.find-pop st.flow_states asked state now used))
            ])
      ]
    where
      auth_code : String
      auth_code = trim_space code_query

      asked : String
      asked = trim_space state_query

  with_dev_tokens-flow_states :
      (d : Draws) (now : ℕ) (st : Stores) (r : Result String TokenSet)
      → (with_dev_tokens h d st now r).0.flow_states ≡ st.flow_states
  with_dev_tokens-flow_states d now st (err m) = refl
  with_dev_tokens-flow_states d now st (ok tokens) =
      entered (save_session_from_tokens h st now d tokens sub)
      ∙ save-flow_states st now d tokens sub
    where
      sub : String
      sub = extract_sub h.decoders tokens.access_token

      entered :
          (s : Stores × Option Cookie)
          → (dev_logged_in now tokens sub s).0.flow_states ≡ s.0.flow_states
      entered (t, none) = refl
      entered (t, some c) = refl

  dev_login-flow_states :
      (d : Draws) (st : Stores) (now : ℕ) (req : Option (String × String))
      → (dev_login h d st now req).0.flow_states ≡ st.flow_states
  unfolding dev_login
  dev_login-flow_states d st now none = ground arith
  dev_login-flow_states d st now (some (username, password)) =
      ground (arith, with_dev_tokens-flow_states d now st (password_grant h.oidc username password))

  step-IsUsed :
      (st : Stores) (e : Event) → NotStarted state e → IsUsed state st → IsUsed state (step h st e)
  unfolding step logout me login
  step-IsUsed st (login_event d now query) new used =
      start_flow-IsUsed d st now _ d.pkce d.state d.nonce new used
  step-IsUsed st (callback_event d now auth_code asked) new used =
      callback-IsUsed d st now auth_code asked used
  step-IsUsed st (logout_event now cookie) new used = ground (arith)
  step-IsUsed st (me_event now cookie) new used = ground (arith)
  step-IsUsed st (dev_login_event d now req) new used = rw (dev_login-flow_states d st now req) used

  run-IsUsed :
      (st : Stores) (es : List Event)
      → All (NotStarted state) es
      → IsUsed state st
      → IsUsed state (run h st es)
  unfolding run
  run-IsUsed st [] new used = used
  run-IsUsed st (e ∷ es) (new, rest) used =
      run-IsUsed (step h st e) es rest (step-IsUsed st e new used)

-- Two callbacks with one state, each with a code and a state that are not refused at once.
module _ (h : AuthHandler) (state first second : String) (state_ok : IsGiven 512 state)
    (first_ok : IsGiven 2048 first) (second_ok : IsGiven 2048 second) where
  -- Once a callback has got as far as the state of a login, whatever came of it, every later callback
  -- with that state is refused and changes no session, whichever requests come between, unless one
  -- of them starts a login under the same state.
  pub callback-run-callback :
      (st : Stores) (d e : Draws) (now later : ℕ) (es : List Event)
      → All (NotStarted state) es
      → let after = run h (callback h d st now first state).0 es in
        ((callback h e after later second state).1 ≡ bad_request)
        × ((callback h e after later second state).0.sessions ≡ after.sessions)
  callback-run-callback st d e now later es new = (
    ap (λ (r : Stores × Response). r.1) whole,
    ap (λ (r : Stores × Response). r.0.sessions) whole,
  )
    where
      after : Stores
      after = run h (callback h d st now first state).0 es

      used : IsUsed state (callback h d st now first state).0
      used = rw (callback_lem h d first state first_ok state_ok st now) (
          rw (with_flow-flow_states h state d now first _ _)
            (Lifetimes.find-pop_same st.flow_states state now state_ok.filled))

      missing : (Sessions.pop after.flow_states state later).1 ≡ none
      missing =
          Lifetimes.pop_missing after.flow_states state later (run-IsUsed h state _ es new used)

      whole :
          callback h e after later second state
          ≡ (popped h e second state second_ok state_ok after later, bad_request)
      whole = rw (callback_lem h e second state second_ok state_ok after later) (rw missing)
