-- ===== src/Escalations/Management/Required.antt =====
-- No escalation without an earlier management activity, and where the check lets one through.
use bff_api_go_collection_ac.Base.{
  String, ◌≡◌, ◌≢◌, refl, sym, ap, ◌∙◌, ◌⊎◌, inl, inr, Bool-cases, true, false, List, [], ◌∷◌, ◌++◌,
  All, Option, none, some, ◌==◌, eq_iff, arith,
}
use bff_api_go_collection_ac.Base.Results.{Result, ok, err, >>=-eq-ok}
use bff_api_go_collection_ac.Base.Texts.{ne_of_eq_false, eq_false_of_ne, trim_space}
use bff_api_go_collection_ac.Domain.Errors.{Error}
use bff_api_go_collection_ac.CoreClient.Queries.{ListQuery}
use bff_api_go_collection_ac.Json.{str, Fields, get, put}
use bff_api_go_collection_ac.Json.Print.{sprint}
use bff_api_go_collection_ac.Escalations.Payload.{string_field, map_create_escalation_payload}
use bff_api_go_collection_ac.Escalations.Payload.Create.{
  map_create_escalation_payload_lem, string_field-eq-some, string_field-eq-none,
  string_field-of_str,
}
use bff_api_go_collection_ac.Escalations.Management.{
  activity_items, activity_id, is_management_activity, last_management, no_management, or_fail,
  loan_query, require_last_management, prepare_create_payload, find_management,
}

-- An item that cannot be referred to: it is no management activity, or it has an empty id.
abbrev pub Skipped : Fields → Type 0
Skipped item = (is_management_activity item ≡ false) ⊎ (activity_id item ≡ "")

-- The item that is chosen: the first one that can be referred to.
pub record IsLastManagement (items : List Fields) (id : String) : Type 0 where
  pub newer : List Fields
  pub item : Fields
  pub older : List Fields
  pub split : items ≡ newer ++ item ∷ older
  pub skipped : All Skipped newer
  pub managed : is_management_activity item ≡ true
  pub id_of : activity_id item ≡ id
  pub filled : id ≢ ""

abbrev at_head :
    (item : Fields) (items : List Fields) {id : String}
    → is_management_activity item ≡ true
    → activity_id item ≡ id
    → id ≢ ""
    → IsLastManagement (item ∷ items) id
at_head item items m e f = record {
  newer = [];
  item = item;
  older = items;
  split = refl;
  skipped = tt;
  managed = m;
  id_of = e;
  filled = f;
}

later :
    (item : Fields) (items : List Fields) {id : String}
    → Skipped item
    → IsLastManagement items id
    → IsLastManagement (item ∷ items) id
later item items s l = record {
  newer = item ∷ l.newer;
  item = l.item;
  older = l.older;
  split = ap (λ r. item ∷ r) l.split;
  skipped = (s, l.skipped);
  managed = l.managed;
  id_of = l.id_of;
  filled = l.filled;
}

last_management_sound :
    (items : List Fields) {id : String}
    → last_management items ≡ some id
    → IsLastManagement items id
unfolding last_management
last_management_sound [] h = cc
last_management_sound (item ∷ items) {id = id} h = elim (Bool-cases (is_management_activity item)) [
  | inr other ↦ later item items (inl other) (last_management_sound items (rw other at h))
  | inl managed ↦
      let h' = rw managed at h in
      elim (Bool-cases (activity_id item == "")) [
        | inl blank ↦
            later item items (inr ((eq_iff (activity_id item) "").0 blank))
              (last_management_sound items (rw blank at h'))
        | inr filled ↦
            let h'' = rw filled at h' in
            let same : activity_id item ≡ id = cc in
            at_head item items managed same (ne_of_eq_false id "" (rw same at filled))
      ]
]

last_management-none : (items : List Fields) → All Skipped items → last_management items ≡ none
unfolding last_management
last_management-none [] h = refl
last_management-none (item ∷ items) (h, hs) =
    ground (arith, h, eq_iff (activity_id item) "", last_management-none items hs)

or_fail-eq-ok : (o : Option String) {id : String} → or_fail o ≡ ok id → o ≡ some id
or_fail-eq-ok none h = cc
or_fail-eq-ok (some s) h = cc

string_field_same :
    (m out : Fields) (key : String)
    → get key out ≡ get key m
    → string_field (some out) key ≡ string_field (some m) key
unfolding string_field
string_field_same m out key h = rw h

module _ (list_activities : ListQuery → Result Error (Option Fields)) where
  require_last_management_none :
      (m : Fields) (loan : String) (page : Option Fields)
      → get "loan_id" m ≡ some (str loan)
      → loan ≢ ""
      → list_activities (loan_query loan) ≡ ok page
      → All Skipped (activity_items page)
      → require_last_management list_activities (some m) ≡ err no_management
  unfolding require_last_management string_field
  require_last_management_none m loan page e f listed skipped =
      rw e
        (rw (eq_false_of_ne loan "" f, listed, last_management-none (activity_items page) skipped))

  find_management_sound :
      (o : Option String) {id : String}
      → find_management list_activities o ≡ ok id
      → (loan : String) × (page : Option Fields) × (o ≡ some loan)
        × (list_activities (loan_query loan) ≡ ok page)
        × IsLastManagement (activity_items page) id
  find_management_sound none h = cc
  find_management_sound (some loan) {id = id} h = elim (Bool-cases (loan == "")) [
    | inl blank ↦ let h' = rw blank at h in cc
    | inr filled ↦
        let (page, listed, h') =
          >>=-eq-ok (list_activities (loan_query loan)) _ {b = id} (rw filled at h) in
        (loan, page, refl, listed, last_management_sound (activity_items page) (or_fail-eq-ok _ h'))
  ]

  management_sound :
      (m : Fields) {id : String}
      → require_last_management list_activities (some m) ≡ ok id
      → (loan : String) × (page : Option Fields) × (get "loan_id" m ≡ some (str loan))
        × (list_activities (loan_query loan) ≡ ok page)
        × IsLastManagement (activity_items page) id
  unfolding require_last_management
  management_sound m h =
      let (loan, page, given, listed, last) =
        find_management_sound (string_field (some m) "loan_id") h in
      (loan, page, string_field-eq-some m "loan_id" given, listed, last)

  -- An escalation with no `last_effective_activity_id` is prepared only with the id of the first
  -- activity, in the order in which the core lists those of the loan, that is a management activity
  -- and of which `activity_id` is not empty. `activity_id` is the text under `id`, or else what is
  -- printed of the value under `ID`, which is "<nil>" where there is none.
  pub prepare_create_payload_sound :
      (m : Fields) (out : Option Fields)
      → get "last_effective_activity_id" m ≡ none
      → prepare_create_payload list_activities (some m) ≡ ok out
      → (mapped : Fields) × (loan : String) × (page : Option Fields) × (id : String)
        × (map_create_escalation_payload (some m) ≡ some mapped)
        × (get "loan_id" m ≡ some (str loan))
        × (list_activities (loan_query loan) ≡ ok page)
        × IsLastManagement (activity_items page) id
        × (out ≡ some (put "last_effective_activity_id" (str id) mapped))
  unfolding prepare_create_payload
  prepare_create_payload_sound m out bare h =
      let (mapped, is, notes, reason, same) = map_create_escalation_payload_lem m in
      let key : String = "last_effective_activity_id" in
      let absent =
        string_field-eq-none mapped key
          (same key (ne_of_eq_false key "notes" refl) (ne_of_eq_false key "reason" refl) ∙ bare) in
      let (id, found, sent) =
        >>=-eq-ok (require_last_management list_activities (some mapped)) _ {b = out}
          (rw (is, absent) at h) in
      let (loan, page, given, listed, last) = management_sound mapped found in
      (
        mapped,
        loan,
        page,
        id,
        is,
        sym (
              same "loan_id" (ne_of_eq_false "loan_id" "notes" refl)
                (ne_of_eq_false "loan_id" "reason" refl))
            ∙ given,
        listed,
        last,
        cc,
      )

  -- An escalation with no text under `last_effective_activity_id`, for a loan of which the core lists
  -- no management activity with an `activity_id` that is not empty, is refused with 5015.
  pub prepare_create_payload_refused :
      (m : Fields) (loan : String) (page : Option Fields)
      → string_field (some m) "last_effective_activity_id" ≡ none
      → get "loan_id" m ≡ some (str loan)
      → loan ≢ ""
      → list_activities (loan_query loan) ≡ ok page
      → All Skipped (activity_items page)
      → prepare_create_payload list_activities (some m) ≡ err no_management
  unfolding prepare_create_payload
  prepare_create_payload_refused m loan page bare e f listed skipped =
      let (mapped, is, notes, reason, same) = map_create_escalation_payload_lem m in
      let key : String = "last_effective_activity_id" in
      let unchanged =
        string_field_same m mapped key
          (same key (ne_of_eq_false key "notes" refl) (ne_of_eq_false key "reason" refl)) in
      let loan_kept =
        same "loan_id" (ne_of_eq_false "loan_id" "notes" refl)
          (ne_of_eq_false "loan_id" "reason" refl) in
      rw (
        is,
        unchanged,
        bare,
        require_last_management_none mapped loan page (loan_kept ∙ e) f listed skipped,
      )

  -- A text under `last_effective_activity_id` in the request is sent as it is, and the core is not
  -- asked for a management activity, whatever the text is: also for the empty one.
  pub prepare_create_payload_given :
      (m : Fields) (id : String)
      → get "last_effective_activity_id" m ≡ some (str id)
      → prepare_create_payload list_activities (some m)
        ≡ ok (map_create_escalation_payload (some m))
  unfolding prepare_create_payload
  prepare_create_payload_given m id e =
      let (mapped, is, notes, reason, same) = map_create_escalation_payload_lem m in
      let key : String = "last_effective_activity_id" in
      rw (
        is,
        string_field-of_str mapped key
            (same key (ne_of_eq_false key "notes" refl) (ne_of_eq_false key "reason" refl) ∙ e),
      )

-- A management activity without an id is chosen all the same, under the id "<nil>".
pub last_management_nil :
    (item : Fields) (items : List Fields)
    → is_management_activity item ≡ true
    → get "id" item ≡ none
    → get "ID" item ≡ none
    → last_management (item ∷ items) ≡ some "<nil>"
unfolding last_management activity_id sprint trim_space string_field
last_management_nil item items managed e f = rw (managed, e, f)
