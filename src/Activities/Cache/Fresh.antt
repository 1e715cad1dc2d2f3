-- ===== src/Activities/Cache/Fresh.antt =====
-- No list is served from the cache after its scope has been invalidated.
use native.Mathlib.Nat.{le_refl, le_trans}
use mathlib.Core.Path.{ap₂}
use bff_api_go_collection_ac.Base.{
  ℕ, suc, ◌≤◌, ◌<◌, String, ◌≡◌, ◌≢◌, refl, inl, inr, Bool-cases, Option-cases, Bool, true, false,
  List, [], ◌∷◌, All, All-map, Option, none, some, ◌==◌, eq_iff, eq_refl, arith, if◌then◌else◌,
}
use bff_api_go_collection_ac.Base.Maps.{Map, find, find-store, Keys-store, Keys-find}
use bff_api_go_collection_ac.Base.Texts.{trim_space, join, join_inj, IsFree}
use bff_api_go_collection_ac.Base.Texts.Numerals.{itoa-injective, itoa-IsFree}
use bff_api_go_collection_ac.Json.{Fields}
use bff_api_go_collection_ac.Activities.Cache.{
  CacheQuery, normalize_email, MemoryReadCache, new_memory_read_cache, scope_key, version, bump,
  count_of, is_blank, key_at, key, get_list, set_list, invalidate_scopes, is_cacheable,
}

-- A query whose tenant, user and loan hold no '|', so that its key shows where they end.
pub record IsPlain (q : CacheQuery) : Type 0 where
  pub tenant : IsFree b'|' q.tenant_id
  pub email : IsFree b'|' (normalize_email q.user_email)
  pub loan : IsFree b'|' q.loan_id

count_of-if :
    (b : Bool) (n : ℕ) (o : Option ℕ)
    → count_of (if b then some n else o) ≡ (if b then n else count_of o)
count_of-if true n o = refl
count_of-if false n o = refl

-- A version after an invalidation.
version-bump_if :
    (t i t' i' : String) (m : Map ℕ)
    → version (bump t' i' m) t i ≡ (
        if is_blank i'
        then version m t i
        else if scope_key t' i' == scope_key t i
        then suc (version m t' i')
        else version m t i)
unfolding bump version
version-bump_if t i t' i' m = elim (Bool-cases (is_blank i')) [
  | inl blank ↦ rw blank
  | inr filled ↦ rw (filled, find-store) (count_of-if (scope_key t' i' == scope_key t i) _ _)
]

-- Versions only grow, and grow where a scope is invalidated.
version-bump_le : (t i t' i' : String) (m : Map ℕ) → version m t i ≤ version (bump t' i' m) t i
unfolding version
version-bump_le t i t' i' m =
    ground (arith, version-bump_if t i t' i' m, eq_iff (scope_key t' i') (scope_key t i))

version-bump :
    (t i t' i' : String) (m : Map ℕ)
    → scope_key t' i' ≡ scope_key t i
    → trim_space i' ≢ ""
    → version (bump t' i' m) t i ≡ suc (version m t i)
unfolding version
version-bump t i t' i' m e h = ground (
  arith,
  version-bump_if t i t' i' m,
  eq_iff (scope_key t' i') (scope_key t i),
  eq_iff (trim_space i') "",
)

module _ (fp : List String → String) where
  -- Two keys that are equal have equal versions of the loan, and equal tenants and loans.
  key_at-inj :
      (v w v' w' : ℕ) (q q' : CacheQuery)
      → IsPlain q
      → IsPlain q'
      → key_at fp v w q ≡ key_at fp v' w' q'
      → (v ≡ v') × (q.tenant_id ≡ q'.tenant_id) × (q.loan_id ≡ q'.loan_id)
  unfolding key_at
  key_at-inj v w v' w' q q' p p' e =
      let free = itoa-IsFree b'|' (omega arith) in
      let (same_v, e1) = join_inj "|" _ _ _ _ _ _ (free v) (free v') e in
      let (same_w, e2) = join_inj "|" _ _ _ _ _ _ (free w) (free w') e1 in
      let (same_tenant, e3) = join_inj "|" _ _ _ _ _ _ p.tenant p'.tenant e2 in
      let (same_email, e4) = join_inj "|" _ _ _ _ _ _ p.email p'.email e3 in
      let (same_loan, e5) = join_inj "|" _ _ _ _ _ _ p.loan p'.loan e4 in
      (itoa-injective v v' same_v, same_tenant, same_loan)

  -- A key that was made for some query, at a version that its scope has reached.
  abbrev pub Made : Map ℕ → String → Type 0
  Made loan_v k =
      (q : CacheQuery) × (v : ℕ) × (w : ℕ) × IsPlain q
      × (k ≡ key_at fp v w q)
      × (v ≤ version loan_v q.tenant_id q.loan_id)

  abbrev pub IsSound : MemoryReadCache → Type 0
  IsSound c = All (λ e. Made c.loan_v e.0) c.lists

  set_list-IsSound :
      (c : MemoryReadCache) (q : CacheQuery) (payload : Option Fields)
      → IsPlain q
      → IsSound c
      → IsSound (set_list fp c q payload)
  unfolding set_list
  set_list-IsSound c q none p s = elim (Bool-cases (is_cacheable fp q)) [
    | inl e ↦ rw e s
    | inr e ↦ rw e s
  ]
  set_list-IsSound c q (some payload) p s = elim (Bool-cases (is_cacheable fp q)) [
    | inl e ↦ rw e (
        Keys-store (Made c.loan_v) (key fp c q) payload c.lists
          (q, version c.loan_v q.tenant_id q.loan_id, _, p, refl, le_refl _) s)
    | inr e ↦ rw e s
  ]

  invalidate_scopes-IsSound :
      (c : MemoryReadCache) (t l k : String) → IsSound c → IsSound (invalidate_scopes c t l k)
  unfolding invalidate_scopes
  invalidate_scopes-IsSound c t l k s =
      All-map
        (λ e (q, v, w, p, is, le).
          (q, v, w, p, is, le_trans le (version-bump_le q.tenant_id q.loan_id t l c.loan_v)))
        c.lists s

  -- No key was made at a version that its scope has not reached.
  unreached :
      (loan_v : Map ℕ) (q : CacheQuery) (v w : ℕ)
      → IsPlain q
      → version loan_v q.tenant_id q.loan_id < v
      → ¬ Made loan_v (key_at fp v w q)
  unreached loan_v q v w p above (q', v', w', p', is, le) =
      let (same_v, same_tenant, same_loan) = key_at-inj v w v' w' q q' p p' is in
      let same : version loan_v q.tenant_id q.loan_id ≡ version loan_v q'.tenant_id q'.loan_id =
        ap₂ (version loan_v) same_tenant same_loan in
      absurd (omega arith)

  find_unreached :
      (loan_v : Map ℕ) (lists : Map Fields) (k : String)
      → All (λ e. Made loan_v e.0) lists
      → ¬ Made loan_v k
      → find k lists ≡ none
  find_unreached loan_v lists k s not_made = elim (Option-cases (find k lists)) [
    | inl missing ↦ missing
    | inr (payload, found) ↦ absurd (not_made (Keys-find (Made loan_v) k lists s found))
  ]

  pub get_list-invalidate_scopes :
      (c : MemoryReadCache) (t l k : String) (q : CacheQuery)
      → IsSound c
      → IsPlain q
      → scope_key t l ≡ scope_key q.tenant_id q.loan_id
      → trim_space l ≢ ""
      → get_list fp (invalidate_scopes c t l k) q ≡ none
  unfolding get_list invalidate_scopes
  get_list-invalidate_scopes c t l k q s p same filled =
      let grown = version-bump q.tenant_id q.loan_id t l c.loan_v same filled in
      let missing =
        find_unreached c.loan_v c.lists (key fp (invalidate_scopes c t l k) q) s
          (unreached c.loan_v q _ _ p (omega arith)) in
      elim (Bool-cases (is_cacheable fp q)) [ inl e ↦ rw e missing | inr e ↦ rw e ]

-- What happens to a cache: a list is stored, or a scope is invalidated. A look-up changes nothing.
pub data Event : Type 0 where
  set : CacheQuery → Option Fields → Event
  invalidate : (tenant_id loan_id client_id : String) → Event

abbrev pub PlainEvent : Event → Type 0
PlainEvent (set q payload) = IsPlain q
PlainEvent (invalidate t l k) = Unit

module _ (fp : List String → String) where
  unfoldable pub run : MemoryReadCache → List Event → MemoryReadCache
  run c [] = c
  run c (set q payload ∷ events) = run (set_list fp c q payload) events
  run c (invalidate t l k ∷ events) = run (invalidate_scopes c t l k) events

  run-IsSound :
      (c : MemoryReadCache) (events : List Event)
      → All PlainEvent events
      → IsSound fp c
      → IsSound fp (run c events)
  unfolding run
  run-IsSound c [] h s = s
  run-IsSound c (set q payload ∷ events) (p, h) s =
      run-IsSound (set_list fp c q payload) events h (set_list-IsSound fp c q payload p s)
  run-IsSound c (invalidate t l k ∷ events) (p, h) s =
      run-IsSound (invalidate_scopes c t l k) events h (invalidate_scopes-IsSound fp c t l k s)

  -- After any history of stores and invalidations, a list of a loan that is invalidated is not
  -- served: the look-up right after `invalidate_scopes` misses, for each query of that tenant and
  -- loan (a loan id that is not blank). The texts of the queries hold no '|' in their tenant,
  -- their user and their loan.
  pub get_list-invalidate_scopes-run :
      (events : List Event) (t l k : String) (q : CacheQuery)
      → All PlainEvent events
      → IsPlain q
      → trim_space t ≡ trim_space q.tenant_id
      → trim_space l ≡ trim_space q.loan_id
      → trim_space l ≢ ""
      → get_list fp (invalidate_scopes (run new_memory_read_cache events) t l k) q ≡ none
  get_list-invalidate_scopes-run events t l k q h p same_t same_l filled =
      get_list-invalidate_scopes fp (run new_memory_read_cache events) t l k q
        (run-IsSound new_memory_read_cache events h tt) p
        (ap₂ (λ a b. join "|" (a ∷ b ∷ [])) same_t same_l) filled

  -- A list that was stored is served for the same query, if the query may be cached.
  pub get_list-set_list :
      (c : MemoryReadCache) (q : CacheQuery) (payload : Fields)
      → is_cacheable fp q ≡ true
      → get_list fp (set_list fp c q (some payload)) q ≡ some payload
  unfolding get_list set_list
  get_list-set_list c q payload e = rw (e, find-store, eq_refl (key fp c q))
