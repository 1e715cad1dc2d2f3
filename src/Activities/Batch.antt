-- ===== src/Activities/Batch.antt =====
-- internal/interface/api/handler/activity_batch.go: the payload of a batch of activities.
pub mod Accepted
use bff_api_go_collection_ac.Base.{
  ℕ, String, Bool, true, false, not, List, [], ◌∷◌, map, length, Option, none, some, leb, ◌&&◌,
  ◌||◌, ◌==◌, if◌then◌else◌,
}
use bff_api_go_collection_ac.Base.Results.{Result, ok, err, ◌>>=◌, ◌>>◌, guard}
use bff_api_go_collection_ac.Base.Sort.{sort_strings}
use bff_api_go_collection_ac.Base.Texts.{trim_space}
use bff_api_go_collection_ac.Domain.Errors.{BusinessError, new_http_business_error}
use bff_api_go_collection_ac.Json.{
  Json, null, str, texts, arr, obj, Items, nil, cons, Fields, end, field, get, del, is_null,
}

abbrev pub invalid : String → BusinessError
invalid message = new_http_business_error 422 90005 message

abbrev pub require {ℓ} : {A : Type ℓ} → Option A → String → Result BusinessError A
require none message = err (invalid message)
require (some a) message = ok a

abbrev cons_text : Json → Option (List String) → Option (List String)
cons_text (str s) (some l) = some (s ∷ l)
cons_text _ _ = none

texts_of_items : Items → Option (List String)
texts_of_items nil = some []
texts_of_items (cons v vs) = cons_text v (texts_of_items vs)

-- coerceStringSlice
unfoldable pub coerce_string_slice : Json → Option (List String)
unfolding texts_of_items
coerce_string_slice (texts l) = some l
coerce_string_slice (arr vs) = texts_of_items vs
coerce_string_slice _ = none

-- seen[id]
unfoldable pub contains : List String → String → Bool
contains [] id = false
contains (s ∷ seen) id = s == id || contains seen id

abbrev pub bad_ids : BusinessError
bad_ids = invalid "loan_ids must be unique and non-blank"

-- The loop over the ids: trims each, and stops at a blank one and at one that was seen before.
unfoldable pub normalize_ids : List String → List String → Result BusinessError (List String)
unfolding contains
normalize_ids seen [] = ok []
normalize_ids seen (id ∷ ids) =
    let rest = normalize_ids (trim_space id ∷ seen) ids in
    if trim_space id == ""
    then err bad_ids
    else if contains seen (trim_space id)
    then err bad_ids
    else rest >>= λ out. ok (trim_space id ∷ out)

-- stringField: the text under a key, "" where there is none.
abbrev text_of : Option Json → String
text_of (some (str s)) = s
text_of _ = ""

unfoldable pub string_field : Fields → String → String
unfolding get
string_field m key = text_of (get key m)

-- A value that is there and not nil.
abbrev pub present : Option Json → Option Json
present none = none
present (some null) = none
present (some v) = some v

abbrev pub has_value : Option Json → Bool
has_value none = false
has_value (some v) = not (is_null v)

abbrev pub as_object : Json → Option Fields
as_object (obj m) = some m
as_object _ = none

abbrev is_missing : Fields → String → Bool
is_missing activity key = trim_space (string_field activity key) == ""

abbrev missing_fields : Bool → Bool → String
missing_fields true true = "required field(s) missing: result, comment"
missing_fields true false = "required field(s) missing: result"
missing_fields false _ = "required field(s) missing: comment"

-- The normalized payload, which has just these two keys.
abbrev pub batch_of : List String → Fields → Fields
batch_of ids activity =
    field "loan_ids" (texts (sort_strings ids))
      (field "activity" (obj (del "loan_id" activity)) end)

unfoldable pub check_activity : Fields → Result BusinessError (Unit {0})
check_activity activity = do
  guard (not (has_value (get "loan_id" activity)))
      (invalid "activity.loan_id is not allowed for batch management")
  let no_result = is_missing activity "result"
  let no_comment = is_missing activity "comment"
  guard (not (no_result || no_comment)) (invalid (missing_fields no_result no_comment))

-- normalizeActivityBatchPayload; `none` is the nil map.
unfoldable pub normalize_activity_batch_payload : Option Fields → Result BusinessError Fields
normalize_activity_batch_payload none = err (invalid "Validacion fallida.")
normalize_activity_batch_payload (some payload) = do
  raw_ids ← require (get "loan_ids" payload) "loan_ids es requerido."
  loan_ids ← require (coerce_string_slice raw_ids) "loan_ids debe ser una lista de textos."
  normalized ← normalize_ids [] loan_ids
  guard (leb 2 (length normalized) && leb (length normalized) 500)
      (invalid "loan_ids must contain between 2 and 500 items")
  activity_raw ← require (present (get "activity" payload)) "activity es requerido."
  activity ← require (as_object activity_raw) "activity debe ser un objeto."
  check_activity activity
  ok (batch_of normalized activity)
