-- ===== src/Tests/Usecase.antt =====
-- The use case of the activities at concrete inputs.
use bff_api_go_collection_ac.Base.{◌≡◌, refl, [], ◌∷◌, none, some}
use bff_api_go_collection_ac.Base.Maps.{find}
use bff_api_go_collection_ac.Base.Results.{ok}
use bff_api_go_collection_ac.Base.Texts.{
  trim_space, trim_left, trim_right, is_space, ne_of_eq_false,
}
use bff_api_go_collection_ac.Json.{str, texts, obj, Fields, end, field, get}
use bff_api_go_collection_ac.Activities.Cache.{new_memory_read_cache, get_list, cacheable_list}
use bff_api_go_collection_ac.Activities.Cache.Fresh.{set}
use bff_api_go_collection_ac.Activities.Usecase.{
  memory, list_activities, create_activity, create_activity_batch,
}
use bff_api_go_collection_ac.Activities.Usecase.Reads.{
  state, list_activities-create_activity, create_activity_batch_slice, NamesNoScope,
}
use bff_api_go_collection_ac.Tests.Activities.{
  of_loan, of_loan-IsPlain, fingerprint, forty_one, call,
}

abbrev visit : Fields
visit = field "loan_id" (str "L1") end

loan_of_visit : get "loan_id" visit ≡ some (str "L1")
unfolding get
loan_of_visit = refl

trimmed : trim_space "L1" ≡ "L1"
unfolding trim_space trim_left trim_right is_space
trimmed = refl

list_activities-create_activity_example :
    (list_activities
      (memory fingerprint)
      (create_activity
        (memory fingerprint)
        (state fingerprint (set of_loan (some forty_one) ∷ []))
        "t"
        (some visit)
        (ok none)).0
      of_loan
      (ok (some visit))).1
    ≡ ok (some visit)
list_activities-create_activity_example =
    list_activities-create_activity fingerprint (set of_loan (some forty_one) ∷ []) "t" "L1" visit
      of_loan none (some visit) (of_loan-IsPlain, tt) of_loan-IsPlain refl loan_of_visit refl
      (rw trimmed (ne_of_eq_false "L1" "" refl))

nothing_cached : get_list fingerprint new_memory_read_cache of_loan ≡ none
unfolding get_list cacheable_list trim_space trim_left trim_right is_space find
nothing_cached = refl

abbrev batch : Fields
batch = field "loan_ids" (texts ("L1" ∷ "L2" ∷ [])) (field "activity" (obj call) end)

keys_of_batch :
    (get "loan_ids" batch ≡ some (texts ("L1" ∷ "L2" ∷ [])))
    × (get "activity" batch ≡ some (obj call))
unfolding get
keys_of_batch = (refl, refl)

batch_bare : NamesNoScope batch
unfolding get
batch_bare = (refl, refl, refl, refl)

call_bare : NamesNoScope call × (get "loan_ids" call ≡ none)
unfolding get
call_bare = ((refl, refl, refl, refl), refl)

create_activity_batch_slice_example :
    create_activity_batch
      (memory fingerprint)
      (some new_memory_read_cache)
      "t"
      (some batch)
      (ok none)
    ≡ (some new_memory_read_cache, ok none)
create_activity_batch_slice_example =
    create_activity_batch_slice fingerprint new_memory_read_cache "t" batch call ("L1" ∷ "L2" ∷ [])
      none keys_of_batch.0 keys_of_batch.1 batch_bare call_bare.0 call_bare.1
