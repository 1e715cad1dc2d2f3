-- ===== src/Auth/Access/Csrf.antt =====
-- The requests that change something, under a cookie.
use bff_api_go_collection_ac.Base.{
  ℕ, String, ◌≡◌, ◌≢◌, ◌↔◌, sym, ap, ◌∙◌, true, false, not, ◌||◌, ◌==◌, some, Bool-cases, inl, inr,
  arith,
}
use bff_api_go_collection_ac.Base.Maps.{Map}
use bff_api_go_collection_ac.Base.Results.{ok}
use bff_api_go_collection_ac.Base.Texts.{
  trim_space, trim_space_idem, eq_false_of_ne, ne_of_eq_false,
}
use bff_api_go_collection_ac.Sessions
use bff_api_go_collection_ac.Sessions.{SessionPayload, MemoryEntry, constant_time_equal}
use bff_api_go_collection_ac.Sessions.Compare.{constant_time_equal_iff}
use bff_api_go_collection_ac.Auth.Access.{csrf_middleware, is_mutating, is_csrf_exempt, check_token}

trimmed_iff :
    (a b : String)
    → (constant_time_equal (trim_space a) (trim_space b) ≡ true) ↔ (trim_space a ≡ trim_space b)
trimmed_iff a b =
    let (to, back) = constant_time_equal_iff (trim_space a) (trim_space b) in
    (λ h. sym (trim_space_idem a) ∙ to h ∙ trim_space_idem b, λ h. back (ap trim_space h))

check_token_iff :
    (header : String) (payload : SessionPayload)
    → (check_token header (some payload) ≡ ok tt)
      ↔ ((trim_space header ≡ trim_space payload.csrf_token) × (trim_space header ≢ ""))
check_token_iff header payload =
    let sent = trim_space header in
    let expected = trim_space payload.csrf_token in
    let bad = expected == "" || sent == "" || not (constant_time_equal sent expected) in
    let (to, back) = trimmed_iff header payload.csrf_token in
    (
      λ h. elim (Bool-cases bad) [
        | inl e ↦ absurd (cc (rw e at h))
        | inr e ↦ (to (ground arith), ne_of_eq_false sent "" (ground arith))
      ],
      λ (same, filled). rw (
        eq_false_of_ne expected "" (λ z. filled (same ∙ z)),
        eq_false_of_ne sent "" filled,
        back same,
      ),
    )

-- A request that changes something, with the cookie of a session that is found, goes on exactly if
-- its header has the token of the session, which is not blank, up to the spaces around it. The
-- paths of the login are exempt.
pub csrf_middleware_iff :
    (m : Map (MemoryEntry SessionPayload)) (method path cookie header : String) (now : ℕ)
    (payload : SessionPayload)
    → is_mutating method ≡ true
    → is_csrf_exempt path ≡ false
    → cookie ≢ ""
    → (Sessions.get m cookie now).1 ≡ some payload
    → ((csrf_middleware (some m) method path cookie header now).1 ≡ ok tt)
      ↔ ((trim_space header ≡ trim_space payload.csrf_token) × (trim_space header ≢ ""))
unfolding csrf_middleware
csrf_middleware_iff m method path cookie header now payload changes checked named found =
    let (to, back) = check_token_iff header payload in
    rw (changes, checked, eq_false_of_ne cookie "" named, found) (to, back)
