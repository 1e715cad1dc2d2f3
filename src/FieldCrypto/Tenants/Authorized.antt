-- ===== src/FieldCrypto/Tenants/Authorized.antt =====
-- Who gets the digest of a tenant.
use Prim.Native.String.{len}
use bff_api_go_collection_ac.Base.{
  ℕ, ◌<◌, ◌≤◌, ◌≡◌, ◌≢◌, ◌↔◌, refl, sym, ap, ◌∙◌, String, true, false, not, ◌||◌, ◌==◌, List, [],
  ◌∷◌, IsIn, Option, none, some, length, leb, ltb, Bool-cases, inl, inr, arith, eq_iff,
}
use bff_api_go_collection_ac.Base.Results.{ok, guard-eq-ok, >>=-eq-ok, guard->>-eq-ok}
use bff_api_go_collection_ac.Base.Texts.{
  trim_space, trim_space_idem, to_lower, eq_false_of_ne, ne_of_eq_false,
}
use bff_api_go_collection_ac.Json.{
  Json, null, bool, num, str, texts, arr, obj, Items, Fields, get, items,
}
use bff_api_go_collection_ac.FieldCrypto.Digests.{member_of, forbidden}
use bff_api_go_collection_ac.FieldCrypto.Tenants.{
  TenantContext, TenantAuthority, Answer, answered, not_built, unreachable, tenant_request, resolve,
  normalize_selector, consult, authorized_tenants, read_answer, parse_tenant_ids, tenant_ids_of,
  tenant_id_of_item, tenant_id_of, compute_tenant_digest, minted, items_of,
}

-- An item of the core's answer: an object whose id is a text with 1 to 64 characters between its
-- spaces.
abbrev pub IsItem : Json → String → Type 0
IsItem v id =
    (m : Fields) × (s : String) × (v ≡ obj m)
    × (get "id" m ≡ some (str s))
    × (trim_space s ≡ id)
    × (1 ≤ len id)
    × (len id ≤ 64)

abbrev pub AreItems : List Json → List String → Type 0
AreItems [] [] = Unit
AreItems (v ∷ vs) (id ∷ ids) = IsItem v id × AreItems vs ids
AreItems vs ids = ⊥

-- The core has answered with at most 256 tenants, this one among them.
pub record IsListed (answer : Answer) (selector : String) : Type 0 where
  pub status : ℕ
  pub payload : Fields
  pub all : Items
  pub ids : List String
  pub is_answer : answer ≡ answered status (some payload)
  pub success : status < 400
  pub has_items : get "items" payload ≡ some (arr all)
  pub few : length (items all) ≤ 256
  pub are_items : AreItems (items all) ids
  pub listed : IsIn selector ids

member_of-IsIn : (s : String) (l : List String) → (member_of s l ≡ true) ↔ IsIn s l
member_of-IsIn s [] = (λ h. absurd (cc h), λ h. elim h [ ])
member_of-IsIn s (t ∷ l) = elim (Bool-cases (t == s)) [
  | inl e ↦ (λ h. inl ((eq_iff t s).0 e), λ h. rw e)
  | inr e ↦ (
    λ h. inr ((member_of-IsIn s l).0 (rw e at h)),
    λ h. rw e (elim h [
      | inl same ↦ absurd (ne_of_eq_false t s e same)
      | inr rest ↦ (member_of-IsIn s l).1 rest
    ]),
  )
]

tenant_id_of-IsItem :
    (m : Fields) (id : String) (o : Option Json)
    → get "id" m ≡ o
    → tenant_id_of o ≡ ok id
    → IsItem (obj m) id
tenant_id_of-IsItem m id (some (str s)) g h =
    elim (Bool-cases (ltb (len (trim_space s)) 1 || ltb 64 (len (trim_space s)))) [
      | inl bad ↦ cc (rw bad at h)
      | inr good ↦
          let same : trim_space s ≡ id = cc (rw good at h) in
          (m, s, refl, g, same, ground (arith, same), ground (arith, same))
    ]
tenant_id_of-IsItem m id none g h = cc
tenant_id_of-IsItem m id (some null) g h = cc
tenant_id_of-IsItem m id (some (bool b)) g h = cc
tenant_id_of-IsItem m id (some (num n)) g h = cc
tenant_id_of-IsItem m id (some (texts l)) g h = cc
tenant_id_of-IsItem m id (some (arr vs)) g h = cc
tenant_id_of-IsItem m id (some (obj n)) g h = cc

tenant_id_of_item-IsItem : (v : Json) (id : String) → tenant_id_of_item v ≡ ok id → IsItem v id
tenant_id_of_item-IsItem (obj m) id h = tenant_id_of-IsItem m id (get "id" m) refl h
tenant_id_of_item-IsItem null id h = cc
tenant_id_of_item-IsItem (bool b) id h = cc
tenant_id_of_item-IsItem (num n) id h = cc
tenant_id_of_item-IsItem (str s) id h = cc
tenant_id_of_item-IsItem (texts l) id h = cc
tenant_id_of_item-IsItem (arr vs) id h = cc

in_bounds : (n : ℕ) → 1 ≤ n → n ≤ 64 → (ltb n 1 || ltb 64 n) ≡ false
in_bounds n l u = ground arith

tenant_id_of_item-ok : (v : Json) (id : String) → IsItem v id → tenant_id_of_item v ≡ ok id
tenant_id_of_item-ok v id (m, s, e, g, t, l, u) = rw (e, g, t, in_bounds (len id) l u)

tenant_ids_of-AreItems :
    (vs : List Json) (ids : List String) → tenant_ids_of vs ≡ ok ids → AreItems vs ids
unfolding tenant_ids_of
tenant_ids_of-AreItems [] [] h = tt
tenant_ids_of-AreItems [] (id ∷ ids) h = absurd (cc h)
tenant_ids_of-AreItems (v ∷ vs) [] h =
    let (id, e, h1) = >>=-eq-ok (tenant_id_of_item v) _ h in
    let (ids, f, h2) = >>=-eq-ok (tenant_ids_of vs) _ h1 in absurd (cc h2)
tenant_ids_of-AreItems (v ∷ vs) (id' ∷ ids') h =
    let (id, e, h1) = >>=-eq-ok (tenant_id_of_item v) _ h in
    let (ids, f, h2) = >>=-eq-ok (tenant_ids_of vs) _ h1 in
    let same : id ≡ id' = cc in
    let same_rest : ids ≡ ids' = cc in
    (
      tenant_id_of_item-IsItem v id' (rw same at e),
      tenant_ids_of-AreItems vs ids' (rw same_rest at f),
    )

tenant_ids_of-ok :
    (vs : List Json) (ids : List String) → AreItems vs ids → tenant_ids_of vs ≡ ok ids
unfolding tenant_ids_of
tenant_ids_of-ok [] [] h = refl
tenant_ids_of-ok [] (id ∷ ids) h = elim h [ ]
tenant_ids_of-ok (v ∷ vs) [] h = elim h [ ]
tenant_ids_of-ok (v ∷ vs) (id ∷ ids) (h, hs) =
    rw (tenant_id_of_item-ok v id h, tenant_ids_of-ok vs ids hs)

items_of-eq-ok :
    (o : Option Json) (l : List Json)
    → items_of o ≡ ok l
    → (all : Items) × (o ≡ some (arr all)) × (items all ≡ l)
items_of-eq-ok (some (arr all)) l h = (all, refl, cc)
items_of-eq-ok none l h = absurd (cc h)
items_of-eq-ok (some null) l h = absurd (cc h)
items_of-eq-ok (some (bool b)) l h = absurd (cc h)
items_of-eq-ok (some (num n)) l h = absurd (cc h)
items_of-eq-ok (some (str s)) l h = absurd (cc h)
items_of-eq-ok (some (texts t)) l h = absurd (cc h)
items_of-eq-ok (some (obj m)) l h = absurd (cc h)

read_answer-IsListed :
    (answer : Answer) (ids : List String) (selector : String)
    → read_answer answer ≡ ok ids
    → IsIn selector ids
    → IsListed answer selector
unfolding parse_tenant_ids
read_answer-IsListed not_built ids selector h i = absurd (cc h)
read_answer-IsListed unreachable ids selector h i = absurd (cc h)
read_answer-IsListed (answered status none) ids selector h i =
    let (low, h1) = guard->>-eq-ok (ltb status 500) _ _ h in
    let (lower, h2) = guard->>-eq-ok (ltb status 400) _ _ h1 in absurd (cc h2)
read_answer-IsListed (answered status (some payload)) ids selector h i =
    let (low, h1) = guard->>-eq-ok (ltb status 500) _ _ h in
    let (lower, h2) = guard->>-eq-ok (ltb status 400) _ _ h1 in
    let (l, e, h3) = >>=-eq-ok (items_of (get "items" payload)) _ h2 in
    let (few, h4) = guard->>-eq-ok (leb (length l) 256) _ _ h3 in
    let (all, f, same) = items_of-eq-ok (get "items" payload) l e in
    record {
      status = status;
      payload = payload;
      all = all;
      ids = ids;
      is_answer = refl;
      success = ground arith;
      has_items = f;
      few = rw same (ground arith);
      are_items = rw same (tenant_ids_of-AreItems l ids h4);
      listed = i;
    }

below : (n m : ℕ) → n < m → ltb n m ≡ true
below n m h = ground arith

at_most : (n m : ℕ) → n ≤ m → leb n m ≡ true
at_most n m h = ground arith

read_answer-ok :
    (answer : Answer) (selector : String) (l : IsListed answer selector)
    → read_answer answer ≡ ok l.ids
unfolding parse_tenant_ids
read_answer-ok answer selector l = rw (
  l.is_answer,
  below l.status 500 (omega (arith, l.success)),
  below l.status 400 l.success,
  l.has_items,
  at_most (length (items l.all)) 256 l.few,
  tenant_ids_of-ok (items l.all) l.ids l.are_items,
)

module _ (a : TenantAuthority) (authorization tenant_selector user_email trace_id : String) where
  -- The request brings a bearer token and an e-mail address, names a tenant that is none of the
  -- catch-all words, and the core lists the tenant for the address.
  pub record IsAuthorized : Type 0 where
    pub has_bearer : trim_space authorization ≢ ""
    pub named : member_of (to_lower (trim_space tenant_selector)) forbidden ≡ false
    pub has_email : trim_space user_email ≢ ""
    pub token : String
    pub is_token :
        a.client.mint a.client.audience a.client.subject (trim_space user_email) ≡ some token
    pub listed :
        IsListed
          (a.client.send (tenant_request a.client token (trim_space user_email) trace_id))
          (trim_space tenant_selector)

  normalize_selector-eq-ok :
      (s : String)
      → normalize_selector tenant_selector ≡ ok s
      → (member_of (to_lower (trim_space tenant_selector)) forbidden ≡ false)
        × (trim_space tenant_selector ≡ s)
  unfolding normalize_selector
  normalize_selector-eq-ok s h =
      elim (Bool-cases (member_of (to_lower (trim_space tenant_selector)) forbidden)) [
        | inl bad ↦ absurd (cc (rw bad at h))
        | inr good ↦ (good, cc (rw good at h))
      ]

  minted-eq-ok : (o : Option String) (token : String) → minted o ≡ ok token → o ≡ some token
  minted-eq-ok none token h = cc
  minted-eq-ok (some t) token h = cc

  -- What the core is asked, and that its answer lists the tenant.
  abbrev IsConsulted : Type 0
  IsConsulted =
      (token : String) × (a.client.mint a.client.audience a.client.subject (trim_space user_email)
        ≡ some token)
      × IsListed (a.client.send (tenant_request a.client token (trim_space user_email) trace_id))
          (trim_space tenant_selector)

  consult-IsConsulted :
      {u : Unit {0}}
      → consult a (trim_space tenant_selector) user_email true trace_id ≡ ok u
      → (trim_space user_email ≢ "") × IsConsulted
  unfolding consult authorized_tenants
  consult-IsConsulted h =
      let (filled, h1) = guard->>-eq-ok (not (trim_space user_email == "")) _ _ h in
      let (ids, e, h2) =
        >>=-eq-ok (authorized_tenants a.client (trim_space user_email) trace_id) _ h1 in
      let (filled', e1) = guard->>-eq-ok (not (trim_space (trim_space user_email) == "")) _ _ e in
      let (token, f, e2) =
        >>=-eq-ok
          (minted
            (a.client.mint a.client.audience a.client.subject (trim_space (trim_space user_email))))
          _ e1 in
      let member = guard-eq-ok (member_of (trim_space tenant_selector) ids) _ h2 in
      (
        ne_of_eq_false (trim_space user_email) "" (ground arith),
        (
          token,
          minted-eq-ok _ token (rw trim_space_idem at f),
          read_answer-IsListed _ ids (trim_space tenant_selector) (rw trim_space_idem at e2)
              ((member_of-IsIn (trim_space tenant_selector) ids).0 member),
        ),
      )

  consult-ok :
      trim_space user_email ≢ ""
      → IsConsulted
      → consult a (trim_space tenant_selector) user_email true trace_id ≡ ok tt
  unfolding consult authorized_tenants
  consult-ok filled (token, e, l) = rw (
    trim_space_idem user_email,
    eq_false_of_ne (trim_space user_email) "" filled,
    e,
    read_answer-ok _ (trim_space tenant_selector) l,
    (member_of-IsIn (trim_space tenant_selector) l.ids).1 l.listed,
  )

  -- The digest of a tenant is given, where the core is to be asked, exactly to a request with a
  -- bearer token, an e-mail address and the explicit name of a tenant that the core lists for the
  -- address; it is the digest of that tenant in the namespace.
  pub resolve_iff :
      (c : TenantContext)
      → (resolve a authorization tenant_selector user_email true trace_id ≡ ok c) ↔ (
          IsAuthorized
          × (c ≡ record {
            tenant_id = trim_space tenant_selector;
            tenant_digest =
                compute_tenant_digest a.hmac_hex a.namespace (trim_space tenant_selector);
          }))
  unfolding resolve normalize_selector
  resolve_iff c = (authorized, λ (h, e). resolved h ∙ ap (λ d. ok d) (sym e))
    where
      authorized :
          resolve a authorization tenant_selector user_email true trace_id ≡ ok c
          → IsAuthorized
            × (c ≡ record {
              tenant_id = trim_space tenant_selector;
              tenant_digest =
                  compute_tenant_digest a.hmac_hex a.namespace (trim_space tenant_selector);
            })
      authorized h =
          let (bearer, h1) = guard->>-eq-ok (not (trim_space authorization == "")) _ _ h in
          let (s, e, h2) = >>=-eq-ok (normalize_selector tenant_selector) _ h1 in
          let (good, same) = normalize_selector-eq-ok s e in
          let (u, f, h3) = >>=-eq-ok (consult a s user_email true trace_id) _ h2 in
          let (filled, (token, is_token, listed)) = consult-IsConsulted (rw (← same) at f) in
          (
            record {
              has_bearer = ne_of_eq_false (trim_space authorization) "" (ground arith);
              named = good;
              has_email = filled;
              token = token;
              is_token = is_token;
              listed = listed;
            },
            cc (rw (← same) at h3),
          )

      resolved :
          IsAuthorized
          → resolve a authorization tenant_selector user_email true trace_id
            ≡ ok (record {
              tenant_id = trim_space tenant_selector;
              tenant_digest =
                  compute_tenant_digest a.hmac_hex a.namespace (trim_space tenant_selector);
            })
      resolved h = rw (
        eq_false_of_ne (trim_space authorization) "" h.has_bearer,
        h.named,
        consult-ok h.has_email (h.token, h.is_token, h.listed),
      )
