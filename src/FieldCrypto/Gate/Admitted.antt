-- ===== src/FieldCrypto/Gate/Admitted.antt =====
-- Which requests the handlers see under a rule, and what a client makes of a sealed answer.
use bff_api_go_collection_ac.Base.{
  List, ℕ, ◌≤◌, true, false, List, Option, none, some, ◌==◌, leb, leb→le, ◌≡◌, ◌≢◌, refl, ◌∙◌, inl,
  inr, Bool-cases,
}
use bff_api_go_collection_ac.Base.Results.{Result, ok, err, >>=-eq-ok, guard->>-eq-ok}
use bff_api_go_collection_ac.Base.Texts.{ne_of_eq_false, eq_false_of_ne}
use bff_api_go_collection_ac.Json.{Json}
use bff_api_go_collection_ac.FieldCrypto.Errors.{
  FieldCryptoError, session_invalid, payload_too_large, crypto_error, encryption_failed,
}
use bff_api_go_collection_ac.FieldCrypto.Service.{FieldCryptoService, decrypt_json, count_scalars}
use bff_api_go_collection_ac.FieldCrypto.Service.Sealed.{IsSealed, decrypt_json-IsSealed}
use bff_api_go_collection_ac.FieldCrypto.Service.Roundtrip.{
  IsSound, IsKey, IsPlain, decrypt_json-encrypt_json,
}
use bff_api_go_collection_ac.FieldCrypto.Policy.{CryptoRule, resolve_rule}
use bff_api_go_collection_ac.FieldCrypto.Gate.Session.{HasSession, check_session-HasSession}
use bff_api_go_collection_ac.FieldCrypto.Gate.{
  Gate, Request, Captured, SessionManager, protected, is_sealable, check_session, read_body,
  decrypt_request_body, opened_request, seal_answer, sent, write_sealed, capture, run_handlers,
  with_session, abort_with, field_crypto_middleware, status_or_ok, or_error, or_error-eq-ok,
  payload_of,
}

module _ {Byte Token Raw : Type 0} (g : Gate Byte Token Raw) where
  -- The body came sealed and was opened, every value of it.
  pub record WasOpened (service : FieldCryptoService Byte) (r q : Request Token Raw) : Type 0 where
    pub raw : Raw
    pub payload : Json
    pub plain : Json
    pub out : Raw
    pub read : r.body ≡ some raw
    pub bounded : g.bodies.size raw ≤ g.max_payload_size
    pub parsed : payload_of g crypto_error raw ≡ ok payload
    pub sealed : IsSealed payload
    pub opened : decrypt_json service payload ≡ ok plain
    pub written : g.bodies.marshal plain ≡ some out
    pub passed_on : q ≡ record r { body = some out }

  read_body-eq-ok : (o : Option Raw) {raw : Raw} → read_body g o ≡ ok raw → o ≡ some raw
  read_body-eq-ok none h = absurd (cc h)
  read_body-eq-ok (some raw) h = cc

  decrypt_request_body-WasOpened :
      (service : FieldCryptoService Byte) (r q : Request Token Raw)
      → decrypt_request_body g service r ≡ ok q
      → WasOpened service r q
  unfolding decrypt_request_body
  decrypt_request_body-WasOpened service r q h =
      let (raw, e, h1) = >>=-eq-ok (read_body g r.body) _ h in
      let (small, h2) =
        guard->>-eq-ok (leb (g.bodies.size raw) g.max_payload_size) payload_too_large _ h1 in
      let (payload, p, h3) = >>=-eq-ok (payload_of g crypto_error raw) _ h2 in
      let (plain, d, h4) = >>=-eq-ok (decrypt_json service payload) _ h3 in
      let (out, w, h5) = >>=-eq-ok (or_error crypto_error (g.bodies.marshal plain)) _ h4 in
      record {
        raw = raw;
        payload = payload;
        plain = plain;
        out = out;
        read = read_body-eq-ok r.body e;
        bounded = leb→le _ _ small;
        parsed = p;
        sealed = decrypt_json-IsSealed service payload plain d;
        opened = d;
        written = or_error-eq-ok crypto_error (g.bodies.marshal plain) w;
        passed_on = cc;
      }

  -- A request that the handlers see has a session, and is what came or what it was opened to.
  pub record IsAdmitted (rule : CryptoRule) (r : Request Token Raw) (seconds now : ℕ)
      (q : Request Token Raw) : Type 0 where
    pub service : FieldCryptoService Byte
    pub named : r.session_id ≢ ""
    pub session : HasSession g g.manager r seconds now service
    pub unchanged : rule.decrypt_request ≡ false → q ≡ r
    pub opened : rule.decrypt_request ≡ true → WasOpened service r q

  module _ (handlers : Request Token Raw → Captured Raw) (r : Request Token Raw)
      (seconds now next : ℕ) (rule : CryptoRule)
      (ruled : resolve_rule g.rules r.method r.path ≡ some rule) (on : g.enabled ≡ true) where
    middleware_blank :
        (r.session_id == "") ≡ true
        → field_crypto_middleware g handlers r seconds now next
          ≡ abort_with g handlers g.manager session_invalid
    unfolding field_crypto_middleware
    middleware_blank blank = rw ruled (rw (on, blank))

    middleware_named :
        (r.session_id == "") ≡ false
        → field_crypto_middleware g handlers r seconds now next
          ≡ with_session g handlers rule r next (check_session g g.manager r seconds now)
    unfolding field_crypto_middleware
    middleware_named named = rw ruled (rw (on, named))

    run_handlers-eq-ok :
        (m : SessionManager Byte) (service : FieldCryptoService Byte)
        (o : Result FieldCryptoError (Request Token Raw)) {q : Request Token Raw}
        → (run_handlers g handlers m rule service r.session_id next o).handled ≡ some q
        → o ≡ ok q
    run_handlers-eq-ok m service (err e) h = absurd (cc h)
    run_handlers-eq-ok m service (ok p) h = cc

    with_session-eq-ok :
        (s : SessionManager Byte × Result FieldCryptoError (FieldCryptoService Byte))
        {q : Request Token Raw}
        → (with_session g handlers rule r next s).handled ≡ some q
        → (service : FieldCryptoService Byte) × (s.1 ≡ ok service)
          × (opened_request g rule service r ≡ ok q)
    with_session-eq-ok (m, err e) h = absurd (cc h)
    with_session-eq-ok (m, ok service) h = (service, refl, run_handlers-eq-ok m service _ h)

    opened_request-IsAdmitted :
        (service : FieldCryptoService Byte) (q : Request Token Raw)
        → r.session_id ≢ ""
        → (check_session g g.manager r seconds now).1 ≡ ok service
        → opened_request g rule service r ≡ ok q
        → IsAdmitted rule r seconds now q
    opened_request-IsAdmitted service q named session h = record {
      service = service;
      named = named;
      session = check_session-HasSession g g.manager r seconds now service session;
      unchanged = λ off. cc (rw off at h);
      opened = λ open_it. decrypt_request_body-WasOpened service r q (rw open_it at h);
    }

    -- Under a rule the handlers run only for a request that names a session: in stateless mode one
    -- to which its token resolves for the tenant and the caller of the request, in store mode one
    -- that its token is verified for and whose key is in the store. They see the request as it came, or, where the rule opens requests, with
    -- the opened values of a body that is not too large and in which every value was an envelope.
    pub middleware-IsAdmitted :
        (q : Request Token Raw)
        → (field_crypto_middleware g handlers r seconds now next).handled ≡ some q
        → IsAdmitted rule r seconds now q
    middleware-IsAdmitted q h = elim (Bool-cases (r.session_id == "")) [
      | inl blank ↦ absurd (cc (rw (middleware_blank blank) at h))
      | inr named ↦
          let (service, session, opened) =
            with_session-eq-ok _ (rw (middleware_named named) at h) in
          opened_request-IsAdmitted service q (ne_of_eq_false r.session_id "" named) session opened
    ]

    module _ (service : FieldCryptoService Byte) (q : Request Token Raw) (named : r.session_id ≢ "")
        (session : (check_session g g.manager r seconds now).1 ≡ ok service)
        (opened : opened_request g rule service r ≡ ok q) (seals : rule.encrypt_response ≡ true)
        (sealable : is_sealable (handlers q) ≡ true) where
      with_session_ok :
          (s : SessionManager Byte × Result FieldCryptoError (FieldCryptoService Byte))
          → s.1 ≡ ok service
          → ((with_session g handlers rule r next s).handled ≡ some q)
            × ((with_session g handlers rule r next s).answer
                ≡ sent g (
                    write_sealed g
                      (seal_answer g service r.session_id next (handlers q))
                      (capture g (handlers q))))
      with_session_ok (m, err e) h = absurd (cc h)
      with_session_ok (m, ok found) h =
          let same : found ≡ service = cc in rw same (rw opened (refl, rw (seals, sealable)))

      pub middleware_sealed :
          ((field_crypto_middleware g handlers r seconds now next).handled ≡ some q)
          × ((field_crypto_middleware g handlers r seconds now next).answer
              ≡ sent g (
                  write_sealed g
                    (seal_answer g service r.session_id next (handlers q))
                    (capture g (handlers q))))
      middleware_sealed =
          rw (middleware_named (eq_false_of_ne r.session_id "" named)) (with_session_ok _ session)

      -- Where the session's key and the packages are sound and a body can be written, a client who
      -- opens the sealed answer with the service of the session finds the value that the handlers
      -- wrote, under the handlers' status and with the count of its scalars.
      pub decrypt_json-middleware :
          (key : List Byte) (payload : Json)
          → IsSound service
          → IsKey service r.session_id key
          → payload_of g encryption_failed (handlers q).body ≡ ok payload
          → IsPlain service payload
          → ((w : Json) → (out : Raw) × (g.bodies.marshal w ≡ some out))
          → (w : Json) × (out : Raw) × (g.bodies.marshal w ≡ some out)
            × ((field_crypto_middleware g handlers r seconds now next).answer
                ≡ protected
                    (status_or_ok (handlers q).status_code)
                    out
                    r.session_id
                    (count_scalars payload))
            × (decrypt_json service w ≡ ok payload)
      unfolding seal_answer
      decrypt_json-middleware key payload sound known parsed plain writes =
          let (w, sealed, back, nonces) =
            decrypt_json-encrypt_json service sound r.session_id key known payload next plain in
          let (out, written) = writes w in
          (w, out, written, middleware_sealed.1 ∙ rw parsed (rw sealed (rw written)), back)
