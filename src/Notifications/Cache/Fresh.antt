-- ===== src/Notifications/Cache/Fresh.antt =====
-- Nothing of a user is served from the cache after the user's version has gone up.
use native.Mathlib.Nat.{le_refl, le_trans}
use bff_api_go_collection_ac.Base.{
  ℕ, suc, ◌≤◌, ◌<◌, String, ◌≡◌, refl, ap, inl, inr, Bool-cases, Option-cases, Bool, true, false,
  List, [], ◌∷◌, All, All-map, Option, none, some, ◌==◌, eq_iff, arith, if◌then◌else◌,
}
use bff_api_go_collection_ac.Base.Ints.{ℤ}
use bff_api_go_collection_ac.Base.Maps.{Map, find, find-store, Keys-store, Keys-find}
use bff_api_go_collection_ac.Base.Texts.{trim_space, join_inj, IsFree}
use bff_api_go_collection_ac.Base.Texts.Numerals.{itoa-injective, itoa-IsFree}
use bff_api_go_collection_ac.Json.{Fields}
use bff_api_go_collection_ac.Notifications.Cache.{
  normalize_email, MemoryReadCache, new_memory_read_cache, user_key, version, count_of, key_at,
  unread_key, list_key, get_unread_count, set_unread_count, get_list, set_list, invalidate_user,
}

-- A user whose tenant and address hold no '|'.
pub record IsPlain (tenant_id user_email : String) : Type 0 where
  pub tenant : IsFree b'|' (trim_space tenant_id)
  pub email : IsFree b'|' (normalize_email user_email)

count_of-if :
    (b : Bool) (n : ℕ) (o : Option ℕ)
    → count_of (if b then some n else o) ≡ (if b then n else count_of o)
count_of-if true n o = refl
count_of-if false n o = refl

-- A version after an invalidation.
version-invalidate_user :
    (c : MemoryReadCache) (t e t' e' : String)
    → version (invalidate_user c t' e').ver t e
      ≡ (if user_key t' e' == user_key t e then suc (version c.ver t' e') else version c.ver t e)
unfolding version invalidate_user
version-invalidate_user c t e t' e' =
    rw find-store (count_of-if (user_key t' e' == user_key t e) _ _)

version_of_key :
    (m : Map ℕ) (t e t' e' : String)
    → user_key t e ≡ user_key t' e'
    → version m t e ≡ version m t' e'
unfolding version
version_of_key m t e t' e' same = ap (λ k. count_of (find k m)) same

version-invalidate_user_le :
    (c : MemoryReadCache) (t e t' e' : String)
    → version c.ver t e ≤ version (invalidate_user c t' e').ver t e
version-invalidate_user_le c t e t' e' = elim (Bool-cases (user_key t' e' == user_key t e)) [
  | inl same ↦
      let k = version_of_key c.ver t' e' t e ((eq_iff (user_key t' e') (user_key t e)).0 same) in
      rw (version-invalidate_user c t e t' e', same) (omega (arith, k))
  | inr other ↦ rw (version-invalidate_user c t e t' e', other) (le_refl _)
]

version-invalidate_user_same :
    (c : MemoryReadCache) (t e t' e' : String)
    → user_key t' e' ≡ user_key t e
    → version (invalidate_user c t' e').ver t e ≡ suc (version c.ver t e)
version-invalidate_user_same c t e t' e' same =
    rw (version-invalidate_user c t e t' e', (eq_iff (user_key t' e') (user_key t e)).1 same)
      (ap suc (version_of_key c.ver t' e' t e same))

-- Two keys that are equal have equal versions and users.
key_at-inj :
    (v v' : ℕ) (t e t' e' p p' : String) (ps ps' : List String)
    → IsPlain t e
    → IsPlain t' e'
    → key_at v t e p ps ≡ key_at v' t' e' p' ps'
    → (v ≡ v') × (user_key t e ≡ user_key t' e')
unfolding key_at
key_at-inj v v' t e t' e' p p' ps ps' h h' same =
    let free = itoa-IsFree b'|' (omega arith) in
    let (same_v, e1) = join_inj "|" _ _ _ _ _ _ (free v) (free v') same in
    let (same_t, e2) = join_inj "|" _ _ _ _ _ _ h.tenant h'.tenant e1 in
    let (same_e, e3) = join_inj "|" _ _ _ _ _ _ h.email h'.email e2 in
    (itoa-injective v v' same_v, rw (same_t, same_e))

-- A key that was made for a user, at a version that the user has reached.
abbrev pub Made : Map ℕ → String → Type 0
Made ver k =
    (v : ℕ) × (t : String) × (e : String) × (p : String) × (ps : List String) × IsPlain t e
    × (k ≡ key_at v t e p ps)
    × (v ≤ version ver t e)

pub record IsSound (c : MemoryReadCache) : Type 0 where
  pub unread_made : All (λ e. Made c.ver e.0) c.unread
  pub lists_made : All (λ e. Made c.ver e.0) c.lists

Made-invalidate_user :
    (c : MemoryReadCache) (t e : String) (k : String)
    → Made c.ver k
    → Made (invalidate_user c t e).ver k
Made-invalidate_user c t e k (v, t', e', p, ps, plain, is, le) =
    (v, t', e', p, ps, plain, is, le_trans le (version-invalidate_user_le c t' e' t e))

invalidate_user-IsSound :
    (c : MemoryReadCache) (t e : String) → IsSound c → IsSound (invalidate_user c t e)
unfolding invalidate_user
invalidate_user-IsSound c t e s = record {
  unread_made = All-map (λ x. Made-invalidate_user c t e x.0) c.unread s.unread_made;
  lists_made = All-map (λ x. Made-invalidate_user c t e x.0) c.lists s.lists_made;
}

set_unread_count-IsSound :
    (c : MemoryReadCache) (t e : String) (n : ℤ)
    → IsPlain t e
    → IsSound c
    → IsSound (set_unread_count c t e n)
unfolding set_unread_count
set_unread_count-IsSound c t e n p s = record {
  unread_made =
      Keys-store (Made c.ver) (unread_key c.ver t e) n c.unread
        (version c.ver t e, t, e, "unread", [], p, refl, le_refl _) s.unread_made;
  lists_made = s.lists_made;
}

set_list-IsSound :
    (c : MemoryReadCache) (t e state severity : String) (limit : ℤ) (payload : Option Fields)
    → IsPlain t e
    → IsSound c
    → IsSound (set_list c t e state severity limit payload)
unfolding set_list
set_list-IsSound c t e state severity limit payload p s = record {
  unread_made = s.unread_made;
  lists_made =
      Keys-store (Made c.ver) (list_key c.ver t e state severity limit) payload c.lists
        (version c.ver t e, t, e, "list", _, p, refl, le_refl _) s.lists_made;
}

-- No key was made at a version that its user has not reached.
unreached :
    (ver : Map ℕ) (v : ℕ) (t e p : String) (ps : List String)
    → IsPlain t e
    → version ver t e < v
    → ¬ Made ver (key_at v t e p ps)
unreached ver v t e p ps h above (v', t', e', p', ps', h', is, le) =
    let (same_v, same) = key_at-inj v v' t e t' e' p p' ps ps' h h' is in
    let same_version = version_of_key ver t e t' e' same in absurd (omega arith)

find_unreached {ℓ} :
    {V : Type ℓ} (ver : Map ℕ) (m : Map V) (k : String)
    → All (λ e. Made ver e.0) m
    → ¬ Made ver k
    → find k m ≡ none
find_unreached ver m k s not_made = elim (Option-cases (find k m)) [
  | inl missing ↦ missing
  | inr (payload, found) ↦ absurd (not_made (Keys-find (Made ver) k m s found))
]

-- What happens to a cache. A look-up changes nothing.
pub data Event : Type 0 where
  set_unread : (tenant_id user_email : String) → ℤ → Event
  set_page : (tenant_id user_email state severity : String) → (limit : ℤ) → Option Fields → Event
  invalidate : (tenant_id user_email : String) → Event

abbrev pub PlainEvent : Event → Type 0
PlainEvent (set_unread t e n) = IsPlain t e
PlainEvent (set_page t e state severity limit payload) = IsPlain t e
PlainEvent (invalidate t e) = Unit

unfoldable pub run : MemoryReadCache → List Event → MemoryReadCache
run c [] = c
run c (set_unread t e n ∷ events) = run (set_unread_count c t e n) events
run c (set_page t e state severity limit payload ∷ events) =
    run (set_list c t e state severity limit payload) events
run c (invalidate t e ∷ events) = run (invalidate_user c t e) events

run-IsSound :
    (c : MemoryReadCache) (events : List Event)
    → All PlainEvent events
    → IsSound c
    → IsSound (run c events)
unfolding run
run-IsSound c [] h s = s
run-IsSound c (set_unread t e n ∷ events) (p, h) s =
    run-IsSound (set_unread_count c t e n) events h (set_unread_count-IsSound c t e n p s)
run-IsSound c (set_page t e state severity limit payload ∷ events) (p, h) s =
    run-IsSound (set_list c t e state severity limit payload) events h
      (set_list-IsSound c t e state severity limit payload p s)
run-IsSound c (invalidate t e ∷ events) (p, h) s =
    run-IsSound (invalidate_user c t e) events h (invalidate_user-IsSound c t e s)

-- The cache of an empty start after a history.
abbrev pub cache_after : List Event → MemoryReadCache
cache_after events = run new_memory_read_cache events

module _ (events : List Event) (plain : All PlainEvent events) (t e t' e' : String)
    (p : IsPlain t e) (same : user_key t' e' ≡ user_key t e) where
  sound : IsSound (cache_after events)
  sound =
      run-IsSound new_memory_read_cache events plain (record { unread_made = tt; lists_made = tt })

  pub get_unread_count-invalidate_user :
      get_unread_count (invalidate_user (cache_after events) t' e') t e ≡ none
  unfolding get_unread_count invalidate_user
  get_unread_count-invalidate_user = find_unreached (cache_after events).ver _ _ sound.unread_made (
      unreached (cache_after events).ver _ t e _ _ p
        (omega (arith, version-invalidate_user_same (cache_after events) t e t' e' same)))

  pub get_list-invalidate_user :
      (state severity : String) (limit : ℤ)
      → get_list (invalidate_user (cache_after events) t' e') t e state severity limit ≡ none
  unfolding get_list invalidate_user
  get_list-invalidate_user state severity limit =
      find_unreached (cache_after events).ver _ _ sound.lists_made (
        unreached (cache_after events).ver _ t e _ _ p
          (omega (arith, version-invalidate_user_same (cache_after events) t e t' e' same)))
