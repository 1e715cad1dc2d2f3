-- ===== src/FieldCrypto/Gate/Session.antt =====
-- What the middleware knows of a session that it accepts.
use bff_api_go_collection_ac.Base.{
  List, ℕ, true, false, List, Option, none, some, ◌≡◌, refl, inl, inr, Bool-cases,
}
use bff_api_go_collection_ac.Base.Results.{ok, >>=-eq-ok}
use bff_api_go_collection_ac.FieldCrypto.Service.{FieldCryptoService}
use bff_api_go_collection_ac.FieldCrypto.Stateless
use bff_api_go_collection_ac.FieldCrypto.Stateless.{VerifiedSession}
use bff_api_go_collection_ac.FieldCrypto.Store.{
  fixed_session_key_provider, verify_access_token, session_key,
}
use bff_api_go_collection_ac.FieldCrypto.Tenants.{TenantContext}
use bff_api_go_collection_ac.FieldCrypto.Gate.{
  no_manager, stateless, stored, other, stateless_service, stored_service, Gate, Request,
  SessionManager, check_session,
}

module _ {Byte Token Raw : Type 0} (g : Gate Byte Token Raw) where
  -- The session of a request, by the mode of the manager: a token that is resolved for the tenant
  -- and the caller, or a token that is verified and a key in the store.
  abbrev pub HasSession :
      SessionManager Byte → Request Token Raw → (seconds now : ℕ) → FieldCryptoService Byte → Type 0
  HasSession no_manager r seconds now service = ⊥
  HasSession (stateless m) r seconds now service =
      (tenant : TenantContext) × (verified : VerifiedSession Byte) × (g.resolve_tenant
          r.authorization r.tenant_id "" false r.trace_id
        ≡ ok tenant)
      × (Stateless.resolve g.externals m r.token r.session_id tenant.tenant_digest r.authorization
            m.namespace seconds
          ≡ ok verified)
      × (fixed_session_key_provider g.service verified ≡ ok service)
  HasSession (stored m) r seconds now service =
      (key : List Byte) × (verify_access_token g.externals m r.token r.session_id now ≡ true)
      × ((session_key g.externals m r.session_id now).1 ≡ some key)
      × (service ≡ g.service)
  HasSession other r seconds now service = ⊥

  stored_service-eq-ok :
      (o : Option (List Byte)) {service : FieldCryptoService Byte}
      → stored_service g o ≡ ok service
      → (key : List Byte) × (o ≡ some key) × (service ≡ g.service)
  stored_service-eq-ok none h = absurd (cc h)
  stored_service-eq-ok (some key) h = (key, refl, cc)

  pub check_session-HasSession :
      (m : SessionManager Byte) (r : Request Token Raw) (seconds now : ℕ)
      (service : FieldCryptoService Byte)
      → (check_session g m r seconds now).1 ≡ ok service
      → HasSession m r seconds now service
  unfolding check_session stateless_service
  check_session-HasSession no_manager r seconds now service h = absurd (cc h)
  check_session-HasSession (stateless m) r seconds now service h =
      let (tenant, t, h1) =
        >>=-eq-ok (g.resolve_tenant r.authorization r.tenant_id "" false r.trace_id) _ h in
      let (verified, v, h2) =
        >>=-eq-ok
          (Stateless.resolve g.externals m r.token r.session_id tenant.tenant_digest r.authorization
            m.namespace seconds)
          _ h1 in
      (tenant, verified, t, v, h2)
  check_session-HasSession (stored m) r seconds now service h =
      elim (Bool-cases (verify_access_token g.externals m r.token r.session_id now)) [
        | inl right ↦
            let (key, k, same) =
              stored_service-eq-ok (session_key g.externals m r.session_id now).1 (rw right at h) in
            (key, right, k, same)
        | inr wrong ↦ absurd (cc (rw wrong at h))
      ]
  check_session-HasSession other r seconds now service h = absurd (cc h)
