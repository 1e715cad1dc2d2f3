-- ===== src/Activities/Usecase/Reads.antt =====
-- What a reader sees of the writes that went through this service.
use bff_api_go_collection_ac.Base.{
  String, ◌≡◌, ◌≢◌, refl, sym, ap, true, List, All, Option, none, some, arith, Bool-cases, inl, inr,
}
use bff_api_go_collection_ac.Base.Results.{ok}
use bff_api_go_collection_ac.Base.Texts.{
  trim_space, trim_space_idem, trim_left, trim_right, eq_false_of_ne,
}
use bff_api_go_collection_ac.Json.{Json, str, texts, arr, obj, Fields, get}
use bff_api_go_collection_ac.Activities.Cache.{
  CacheQuery, cacheable_list, MemoryReadCache, new_memory_read_cache, get_list, invalidate_scopes,
  string_field, scope_ids_from_payload, bump, ids_of,
}
use bff_api_go_collection_ac.Activities.Cache.Fresh.{
  IsPlain, Event, PlainEvent, run, get_list-invalidate_scopes-run, get_list-set_list,
}
use bff_api_go_collection_ac.Activities.Usecase.{
  memory, Answer, list_activities, create_activity, create_activity_batch, invalidate_from_payload,
  invalidate_loans,
}

-- The loan of a payload that names it.
loan_of_payload :
    (m : Fields) (l : String)
    → get "loan_id" m ≡ some (str l)
    → trim_space l ≢ ""
    → (scope_ids_from_payload (some m)).0 ≡ trim_space l
unfolding scope_ids_from_payload string_field
loan_of_payload m l e h =
    rw (e, eq_false_of_ne (trim_space l) "" h, eq_false_of_ne (trim_space l) "" h) refl

-- The state of the cache after a history of stores and invalidations.
abbrev pub state : (List String → String) → List Event → Option MemoryReadCache
state fp events = some (run fp new_memory_read_cache events)

-- After the core has accepted an activity of a loan, the next list of the loan is what the core
-- answers, not a page of the cache, whatever was stored and invalidated before. The loan's id is
-- not blank, the tenant is the same, and no tenant, user and loan of a cached query holds a '|'.
pub list_activities-create_activity :
    (fp : List String → String) (events : List Event) (tenant loan : String) (m : Fields)
    (q : CacheQuery) (created listed : Option Fields)
    → All PlainEvent events
    → IsPlain q
    → q.tenant_id ≡ tenant
    → get "loan_id" m ≡ some (str loan)
    → trim_space loan ≡ trim_space q.loan_id
    → trim_space loan ≢ ""
    → (let after = (create_activity (memory fp) (state fp events) tenant (some m) (ok created)).0 in
        (list_activities (memory fp) after q (ok listed)).1 ≡ ok listed)
unfolding list_activities create_activity invalidate_from_payload
list_activities-create_activity fp events tenant loan m q created listed h p same_t named same_l
      filled =
    let miss =
      get_list-invalidate_scopes-run fp events tenant (scope_ids_from_payload (some m)).0
        (scope_ids_from_payload (some m)).1 q h p (ap trim_space (sym same_t))
        (rw (loan_of_payload m loan named filled, trim_space_idem loan) same_l)
        (rw (loan_of_payload m loan named filled, trim_space_idem loan) filled) in
    elim (Bool-cases (cacheable_list q.loan_id q.client_id q.offset)) [
      | inl e ↦ rw (e, miss)
      | inr e ↦ rw e
    ]

-- A page that the core has given is given again to the same query, without another answer of the
-- core, if the query is of a loan or a client and starts at offset 0.
pub list_activities-again :
    (fp : List String → String) (c : MemoryReadCache) (q : CacheQuery) (page : Fields)
    (later : Answer)
    → cacheable_list q.loan_id q.client_id q.offset ≡ true
    → get_list fp c q ≡ none
    → (let after = (list_activities (memory fp) (some c) q (ok (some page))).0 in
        list_activities (memory fp) after q later ≡ (after, ok (some page)))
unfolding list_activities
list_activities-again fp c q page later e miss = rw (e, miss, e, get_list-set_list fp c q page e, e)

-- A map that names no loan and no client by a key of its own.
abbrev pub NamesNoScope : Fields → Type 0
NamesNoScope m =
    (get "loan_id" m ≡ none)
    × (get "loanId" m ≡ none)
    × (get "client_id" m ≡ none)
    × (get "clientId" m ≡ none)

-- The value under a key is no list of values of type `any`.
abbrev pub NoItems : Option Json → Type 0
NoItems (some (arr vs)) = ⊥
NoItems o = Unit

no_list : (o : Option Json) → NoItems o → ◌≡◌ {A = String × String} (ids_of o, "") ("", "")
no_list o n = ground arith

no_scope :
    (m : Fields)
    → NamesNoScope m
    → NoItems (get "loan_ids" m)
    → scope_ids_from_payload (some m) ≡ ("", "")
unfolding scope_ids_from_payload string_field
no_scope m (l, l', k, k') n = rw (l, l', k, k') (no_list (get "loan_ids" m) n)

-- An invalidation without a loan and a client does nothing.
invalidate_nothing :
    (fp : List String → String) (c : MemoryReadCache) (t : String) (m : Fields)
    → scope_ids_from_payload (some m) ≡ ("", "")
    → invalidate_from_payload (memory fp) (some c) t (some m) ≡ some c
unfolding invalidate_from_payload invalidate_scopes bump trim_space trim_left trim_right
invalidate_nothing fp c t m e = rw e refl

-- A batch with the slice of texts that the batch endpoint puts under `loan_ids`, and with no loan
-- or client named elsewhere, leaves the cache as it was: no page of its loans is invalidated.
pub create_activity_batch_slice :
    (fp : List String → String) (c : MemoryReadCache) (tenant : String) (m activity : Fields)
    (ids : List String) (result : Option Fields)
    → get "loan_ids" m ≡ some (texts ids)
    → get "activity" m ≡ some (obj activity)
    → NamesNoScope m
    → NamesNoScope activity
    → get "loan_ids" activity ≡ none
    → create_activity_batch (memory fp) (some c) tenant (some m) (ok result) ≡ (some c, ok result)
unfolding create_activity_batch invalidate_loans
create_activity_batch_slice fp c tenant m activity ids result e a free afree none_there = rw (
  e,
  a,
  invalidate_nothing fp c tenant m (no_scope m free (rw e tt)),
  invalidate_nothing fp c tenant activity (no_scope activity afree (rw none_there tt)),
)
