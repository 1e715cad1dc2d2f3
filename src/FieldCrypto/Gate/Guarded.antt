-- ===== src/FieldCrypto/Gate/Guarded.antt =====
-- What passes the middleware under a rule: which requests the handlers see, and which answers the
-- client.
use bff_api_go_collection_ac.Base.{
  ◌<◌, ◌≤◌, ◌⊎◌, ltb, leb, arith, ℕ, String, true, false, ◌==◌, some, ◌≡◌, refl, sym, inl, inr,
  Bool-cases, if◌then◌else◌,
}
use bff_api_go_collection_ac.Base.Results.{Result, ok, err, >>=-eq-ok}
use bff_api_go_collection_ac.Json.{Json}
use bff_api_go_collection_ac.FieldCrypto.Errors.{
  FieldCryptoError, session_invalid, encryption_failed,
}
use bff_api_go_collection_ac.FieldCrypto.Service.{FieldCryptoService, encrypt_json, count_scalars}
use bff_api_go_collection_ac.FieldCrypto.Service.Sealed.{IsSealed, encrypt_json-IsSealed}
use bff_api_go_collection_ac.FieldCrypto.Policy.{CryptoRule, resolve_rule}
use bff_api_go_collection_ac.FieldCrypto.Gate.{
  Gate, Request, Captured, Answer, Outcome, SessionManager, passed, aborted, dropped, protected,
  is_sealable, is_json_content_type, check_session, seal_answer, answer_of, sent, write_sealed,
  capture, run_handlers, with_session, field_crypto_middleware, status_or_ok, or_error,
  or_error-eq-ok, payload_of, abort_with,
}

module _ {Byte Token Raw : Type 0} (g : Gate Byte Token Raw) where
  -- The client gets what the handlers wrote only if that is no success, or not JSON; what is sealed
  -- holds no value in plaintext.
  abbrev pub IsGuarded : Answer Raw → Type 0
  IsGuarded (passed a) =
      (status_or_ok a.status_code < 200)
      ⊎ ((300 ≤ status_or_ok a.status_code) ⊎ (is_json_content_type a.content_type ≡ false))
  IsGuarded (aborted e) = Unit
  IsGuarded dropped = Unit
  IsGuarded (protected status body kid fields_count) =
      (w : Json) × IsSealed w × (g.bodies.marshal w ≡ some body)

  module _ (service : FieldCryptoService Byte) (kid : String) (next : ℕ) (a : Captured Raw) where
    -- What a sealed answer was made of.
    sealed_parts :
        (b : Answer Raw)
        → seal_answer g service kid next a ≡ ok b
        → (payload sealed : Json) × (last : ℕ) × (out : Raw) × (encrypt_json service payload kid
              next
            ≡ ok (sealed, last))
          × (g.bodies.marshal sealed ≡ some out)
          × (b ≡ protected (status_or_ok a.status_code) out kid (count_scalars payload))
    unfolding seal_answer
    sealed_parts b h =
        let (payload, p, h1) = >>=-eq-ok (payload_of g encryption_failed a.body) _ h in
        let ((sealed, last), s, h2) = >>=-eq-ok (encrypt_json service payload kid next) _ h1 in
        let (out, o, h3) = >>=-eq-ok (or_error encryption_failed (g.bodies.marshal sealed)) _ h2 in
        (
          payload,
          sealed,
          last,
          out,
          s,
          or_error-eq-ok encryption_failed (g.bodies.marshal sealed) o,
          cc (sym h3),
        )

    sealed-IsGuarded :
        (r : Result FieldCryptoError (Answer Raw))
        → seal_answer g service kid next a ≡ r
        → IsGuarded (sent g (write_sealed g r (capture g a)))
    sealed-IsGuarded (err e) h = tt
    sealed-IsGuarded (ok b) h =
        let (payload, sealed, last, out, made, written, same) = sealed_parts b h in
        rw same (sealed, encrypt_json-IsSealed service payload kid next sealed last made, written)

    not_sealable : is_sealable a ≡ false → IsGuarded (passed a)
    not_sealable h = elim (Bool-cases (leb 200 (status_or_ok a.status_code))) [
      | inl enough ↦ elim (Bool-cases (ltb (status_or_ok a.status_code) 300)) [
        | inl success ↦ inr (inr (rw (enough, success) at h))
        | inr failure ↦ inr (inl (ground arith))
      ]
      | inr less ↦ inl (ground arith)
    ]

    answer_of-IsGuarded :
        (rule : CryptoRule)
        → rule.encrypt_response ≡ true
        → IsGuarded (answer_of g rule service kid next a)
    answer_of-IsGuarded rule on = elim (Bool-cases (is_sealable a)) [
      | inl sealable ↦ rw (on, sealable) (sealed-IsGuarded _ refl)
      | inr other ↦ rw (on, other) (not_sealable other)
    ]

  module _ (handlers : Request Token Raw → Captured Raw) (r : Request Token Raw)
      (seconds now next : ℕ) (rule : CryptoRule)
      (ruled : resolve_rule g.rules r.method r.path ≡ some rule) (on : g.enabled ≡ true) where
    -- The run of the middleware under a rule.
    under : Outcome Byte Token Raw
    under =
        if r.session_id == ""
        then abort_with g handlers g.manager session_invalid
        else with_session g handlers rule r next (check_session g g.manager r seconds now)

    middleware-under : field_crypto_middleware g handlers r seconds now next ≡ under
    unfolding field_crypto_middleware under
    middleware-under = rw ruled (rw on)

    run_handlers-IsGuarded :
        (m : SessionManager Byte) (service : FieldCryptoService Byte)
        (q : Result FieldCryptoError (Request Token Raw))
        → rule.encrypt_response ≡ true
        → IsGuarded (run_handlers g handlers m rule service r.session_id next q).answer
    run_handlers-IsGuarded m service (err e) seals = tt
    run_handlers-IsGuarded m service (ok q) seals =
        answer_of-IsGuarded service r.session_id next (handlers q) rule seals

    with_session-IsGuarded :
        (s : SessionManager Byte × Result FieldCryptoError (FieldCryptoService Byte))
        → rule.encrypt_response ≡ true
        → IsGuarded (with_session g handlers rule r next s).answer
    with_session-IsGuarded (m, err e) seals = tt
    with_session-IsGuarded (m, ok service) seals = run_handlers-IsGuarded m service _ seals

    -- Under a rule that seals answers, what the handlers wrote reaches the client as it is only if
    -- its status is outside of 200 to 299 or its content is not JSON; each value of a sealed body
    -- is an envelope, and there is nothing else that the client gets but an error of the middleware
    -- or an empty answer.
    pub middleware-IsGuarded :
        rule.encrypt_response ≡ true
        → IsGuarded (field_crypto_middleware g handlers r seconds now next).answer
    unfolding under
    middleware-IsGuarded seals = rw middleware-under (elim (Bool-cases (r.session_id == "")) [
      | inl blank ↦ rw blank tt
      | inr named ↦ rw named (with_session-IsGuarded _ seals)
    ])
