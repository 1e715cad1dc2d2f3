-- ===== src/Tests/Activities.antt =====
-- The activity endpoints at concrete inputs.
use bff_api_go_collection_ac.Base.{
  ℕ, ◌*◌, ◌<◌, String, ◌≡◌, ◌≢◌, ◌↔◌, refl, true, List, [], ◌∷◌, none, some, map, arith,
}
use bff_api_go_collection_ac.Base.Ints.{pos}
use bff_api_go_collection_ac.Base.Results.{ok}
use bff_api_go_collection_ac.Base.Texts.{
  join, trim_space, trim_left, trim_right, is_space, ne_of_eq_false, to_lower, lower_char,
  IsFree-of,
}
use bff_api_go_collection_ac.Json.{num, str, arr, nil, cons, obj, Fields, end, field, get, bool}
use bff_api_go_collection_ac.Activities.Page.Coverage.{answer, paginate_activities-covers}
use bff_api_go_collection_ac.Activities.Batch.{normalize_activity_batch_payload, batch_of}
use bff_api_go_collection_ac.Activities.Batch.Accepted.{
  IsBatch, normalize_activity_batch_payload_iff,
}
use bff_api_go_collection_ac.Activities.Cache.{
  CacheQuery, cacheable_list, normalize_email, new_memory_read_cache, get_list, invalidate_scopes,
  is_cacheable,
}
use bff_api_go_collection_ac.Activities.Cache.Fresh.{
  IsPlain, set, run, get_list-invalidate_scopes-run,
}

abbrev pub forty_one : Fields
forty_one = field "total" (num (pos 41)) end

total_of_forty_one : get "total" forty_one ≡ some (num (pos 41))
unfolding get
total_of_forty_one = refl

paginate_activities-covers_example :
    (pages : ℕ) × (get "total_pages" (answer forty_one 1 20) ≡ some (num (pos pages)))
    × ((p : ℕ) → (p < pages) ↔ (p * 20 < 41))
    × ((get "has_next" (answer forty_one 1 20) ≡ some (bool true)) ↔ (2 * 20 < 41))
paginate_activities-covers_example =
    paginate_activities-covers forty_one 41 20 1 total_of_forty_one (omega arith) (omega arith)

abbrev pub call : Fields
call = field "result" (str "CONTACTED") (field "comment" (str "paid") end)

abbrev two_loans : Fields
two_loans =
    field "loan_ids" (arr (cons (str " L2 ") (cons (str "L1") nil)))
      (field "activity" (obj call) end)

normalize_activity_batch_payload_iff_example :
    (normalize_activity_batch_payload (some two_loans) ≡ ok (batch_of ("L2" ∷ "L1" ∷ []) call)) ↔ (
      (ids : List String) × (activity : Fields) × IsBatch two_loans ids activity
      × (batch_of ("L2" ∷ "L1" ∷ []) call ≡ batch_of (map trim_space ids) activity))
normalize_activity_batch_payload_iff_example =
    normalize_activity_batch_payload_iff two_loans (batch_of ("L2" ∷ "L1" ∷ []) call)

abbrev pub fingerprint : List String → String
fingerprint ids = join "," ids

abbrev pub of_loan : CacheQuery
of_loan = record {
  tenant_id = "t";
  user_email = "Ana@x.pe";
  loan_id = "L1";
  loan_ids = [];
  client_id = "";
  agent_id = "";
  agent_name = "";
  activity_type = "";
  limit = pos 20;
  offset = pos 0;
}

pub is_cacheable-of_loan : is_cacheable fingerprint of_loan ≡ true
unfolding cacheable_list trim_space trim_left trim_right is_space
is_cacheable-of_loan = refl

email_of_loan : normalize_email "Ana@x.pe" ≡ "ana@x.pe"
unfolding trim_space trim_left trim_right is_space to_lower lower_char
email_of_loan = refl

pub of_loan-IsPlain : IsPlain of_loan
of_loan-IsPlain = record {
  tenant = IsFree-of b'|' "t" refl;
  email = rw email_of_loan (IsFree-of b'|' "ana@x.pe" refl);
  loan = IsFree-of b'|' "L1" refl;
}

trimmed : trim_space "L1 " ≡ trim_space "L1"
unfolding trim_space trim_left trim_right is_space
trimmed = refl

trimmed_text : trim_space "L1 " ≡ "L1"
unfolding trim_space trim_left trim_right is_space
trimmed_text = refl

filled : trim_space "L1 " ≢ ""
filled = rw trimmed_text (ne_of_eq_false "L1" "" refl)

get_list-invalidate_scopes-run_example :
    get_list fingerprint
      (invalidate_scopes
        (run fingerprint new_memory_read_cache (set of_loan (some forty_one) ∷ []))
        "t"
        "L1 "
        "")
      of_loan
    ≡ none
get_list-invalidate_scopes-run_example =
    get_list-invalidate_scopes-run fingerprint (set of_loan (some forty_one) ∷ []) "t" "L1 " ""
      of_loan (of_loan-IsPlain, tt) of_loan-IsPlain refl trimmed filled
