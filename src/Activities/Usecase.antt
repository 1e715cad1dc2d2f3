-- ===== src/Activities/Usecase.antt =====
-- internal/application/usecases/activities.go and activity_pii.go: the use case of the activities.
-- An operation takes the state of the cache and what the core would answer to its call, and gives
-- the new state of the cache and the answer. The cache is known by its interface alone.
pub mod Reads
use bff_api_go_collection_ac.Base.{
  String, Bool, true, false, List, [], ◌∷◌, Option, none, some, ◌==◌, if◌then◌else◌,
}
use bff_api_go_collection_ac.Base.Results.{Result, ok, err, ◌>>=◌}
use bff_api_go_collection_ac.Domain.Errors.{Error}
use bff_api_go_collection_ac.Json.{
  Json, str, arr, obj, Items, nil, cons, Fields, end, field, get, put,
}
use bff_api_go_collection_ac.Escalations.Payload.{string_field}
use bff_api_go_collection_ac.Activities.Cache.{
  CacheQuery, cacheable_list, scope_ids_from_payload, MemoryReadCache, get_list, set_list,
  invalidate_scopes,
}

-- activityReadCache: the operations of a cache whose states are of type C.
pub record ActivityReadCache (C : Type 0) : Type 0 where
  pub get_list : C → CacheQuery → Option Fields
  pub set_list : C → CacheQuery → Option Fields → C
  pub invalidate_scopes : C → (tenant_id loan_id client_id : String) → C

-- MemoryReadCache has these operations.
abbrev pub memory : (List String → String) → ActivityReadCache MemoryReadCache
memory fp = record {
  get_list = get_list fp;
  set_list = set_list fp;
  invalidate_scopes = invalidate_scopes;
}

abbrev pub Answer : Type 0
Answer = Result Error (Option Fields)

-- The fields that a map has, with the nil map as the empty one.
abbrev pub fields_or_nil : Option Fields → Fields
fields_or_nil none = end
fields_or_nil (some m) = m

abbrev pub object_under : Option Json → Option Fields
object_under (some (obj m)) = some m
object_under _ = none

abbrev pub items_under : Option Json → Items
items_under (some (arr vs)) = vs
items_under _ = nil

module _ {C : Type 0} (ops : ActivityReadCache C) where
  -- The cached answer, if there is a cache, the query may be cached, and the cache has it.
  abbrev pub cached : Option C → CacheQuery → Option Fields
  cached none q = none
  cached (some c) q =
      if cacheable_list q.loan_id q.client_id q.offset then ops.get_list c q else none

  abbrev pub remember : Option C → CacheQuery → Option Fields → Option C
  remember none q result = none
  remember (some c) q result =
      if cacheable_list q.loan_id q.client_id q.offset
      then some (ops.set_list c q result)
      else some c

  -- What follows when the cache had nothing, for an answer of the core.
  abbrev pub ask : Option C → CacheQuery → Answer → Option C × Answer
  ask cache q (err e) = (cache, err e)
  ask cache q (ok result) = (remember cache q result, ok result)

  abbrev pub serve : Option Fields → Option C → CacheQuery → Answer → Option C × Answer
  serve (some page) cache q core = (cache, ok (some page))
  serve none cache q core = ask cache q core

  -- ListActivities
  unfoldable pub list_activities : Option C → CacheQuery → Answer → Option C × Answer
  list_activities cache q core = serve (cached cache q) cache q core

  -- invalidateScopes
  abbrev pub invalidate_in : Option C → (tenant_id loan_id client_id : String) → Option C
  invalidate_in none tenant_id loan_id client_id = none
  invalidate_in (some c) tenant_id loan_id client_id =
      some (ops.invalidate_scopes c tenant_id loan_id client_id)

  unfoldable pub invalidate_from_payload : Option C → String → Option Fields → Option C
  invalidate_from_payload cache tenant_id payload =
      let scopes = scope_ids_from_payload payload in invalidate_in cache tenant_id scopes.0 scopes.1

  -- CreateActivity
  unfoldable pub create_activity : Option C → String → Option Fields → Answer → Option C × Answer
  create_activity cache tenant_id payload (err e) = (cache, err e)
  create_activity cache tenant_id payload (ok result) =
      (invalidate_from_payload cache tenant_id payload, ok result)

  abbrev pub invalidate_activity : Option C → String → Option Fields → Option C
  invalidate_activity cache tenant_id none = cache
  invalidate_activity cache tenant_id (some activity) =
      invalidate_from_payload cache tenant_id (some activity)

  -- The loop over the loans, which are the texts among the items.
  unfoldable pub invalidate_loans : Option C → String → Items → Option C
  invalidate_loans cache tenant_id nil = cache
  invalidate_loans cache tenant_id (cons (str id) vs) =
      invalidate_loans (invalidate_in cache tenant_id id "") tenant_id vs
  invalidate_loans cache tenant_id (cons v vs) = invalidate_loans cache tenant_id vs

  -- CreateActivityBatch
  unfoldable pub create_activity_batch :
      Option C → String → Option Fields → Answer → Option C × Answer
  create_activity_batch cache tenant_id payload (err e) = (cache, err e)
  create_activity_batch cache tenant_id payload (ok result) =
      let m = fields_or_nil payload in
      let cache1 = invalidate_from_payload cache tenant_id payload in
      let cache2 = invalidate_activity cache1 tenant_id (object_under (get "activity" m)) in
      (invalidate_loans cache2 tenant_id (items_under (get "loan_ids" m)), ok result)

-- EncryptFields of the crypto service's client, for the fields of one request.
module _ (encrypt_fields : Fields → Result Error (List (String × Json))) where
  unfoldable pub put_all : List (String × Json) → Fields → Fields
  put_all [] m = m
  put_all ((k, v) ∷ es) m = put_all es (put k v m)

  abbrev pub with_comment : Option String → Option Fields → Result Error (Option Fields)
  with_comment none payload = ok payload
  with_comment (some comment) payload = if comment == "" then ok payload else do
    encrypted ← encrypt_fields (field "comment" (str comment) end)
    ok (some (put_all encrypted (fields_or_nil payload)))

  -- EncryptActivityPII. A payload with a comment is not nil.
  unfoldable pub encrypt_activity_pii : Option Fields → Result Error (Option Fields)
  unfolding put_all
  encrypt_activity_pii payload = with_comment (string_field payload "comment") payload
