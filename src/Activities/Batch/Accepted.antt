-- ===== src/Activities/Batch/Accepted.antt =====
-- Which payloads the batch endpoint accepts, and what it makes of them.
use bff_api_go_collection_ac.Base.{
  String, ◌≡◌, ◌≢◌, refl, ap, ◌∙◌, sym, ◌⊎◌, inl, inr, Bool-cases, ◌↔◌, ◌≤◌, false, List, [], ◌∷◌,
  map, length, Option, none, some, All, All-zip, All-unzip, All-of, AreDistinct, ◌==◌, eq_iff,
  arith, leb, leb→le, le→leb, ◌&&◌,
}
use bff_api_go_collection_ac.Base.Results.{Result, ok, >>=-eq-ok, guard->>-eq-ok}
use bff_api_go_collection_ac.Base.Texts.{trim_space}
use bff_api_go_collection_ac.Domain.Errors.{BusinessError}
use bff_api_go_collection_ac.Json.{Json, null, obj, Fields, get}
use bff_api_go_collection_ac.Activities.Batch.{
  require, coerce_string_slice, contains, normalize_ids, string_field, present, as_object, batch_of,
  check_activity, normalize_activity_batch_payload,
}

abbrev NotIn : List String → String → Type 0
NotIn seen id = All (λ s. s ≢ id) seen

contains_sound : (seen : List String) (id : String) → contains seen id ≡ false → NotIn seen id
unfolding contains
contains_sound [] id h = tt
contains_sound (s ∷ seen) id h =
    (ground (arith, eq_iff s id), contains_sound seen id (ground arith))

contains_complete : (seen : List String) (id : String) → NotIn seen id → contains seen id ≡ false
unfolding contains
contains_complete [] id h = refl
contains_complete (s ∷ seen) id (ne, h) = ground (arith, eq_iff s id, contains_complete seen id h)

abbrev NonBlank : List String → Type 0
NonBlank ids = All (λ id. id ≢ "") ids

-- What the loop over the ids has checked when it ends.
abbrev Checked : List String → List String → Type 0
Checked seen ids = NonBlank ids × AreDistinct ids × All (NotIn seen) ids

normalize_ids_sound :
    (seen ids : List String) {out : List String}
    → normalize_ids seen ids ≡ ok out
    → (out ≡ map trim_space ids) × Checked seen (map trim_space ids)
unfolding normalize_ids
normalize_ids_sound seen [] h = (cc, (tt, tt, tt))
normalize_ids_sound seen (id ∷ ids) {out = out} h =
    let t : String = trim_space id in
    elim (Bool-cases (t == "")) [
      | inl e ↦ let h' = rw e at h in cc
      | inr filled ↦ elim (Bool-cases (contains seen t)) [
        | inl e ↦ let h' = rw (filled, e) at h in cc
        | inr new ↦
            let (rest, ran, out_eq) =
              >>=-eq-ok (normalize_ids (t ∷ seen) ids) _ {b = out} (rw (filled, new) at h) in
            let (same, checked) = normalize_ids_sound (t ∷ seen) ids ran in
            let (first, later) =
              All-unzip (λ y. t ≢ y) (NotIn seen) (map trim_space ids) checked.2 in
            (
              cc,
              (
                (ground (arith, eq_iff t ""), checked.0),
                (first, checked.1),
                (contains_sound seen t new, later),
              ),
            )
      ]
    ]

normalize_ids_complete :
    (seen ids : List String)
    → Checked seen (map trim_space ids)
    → normalize_ids seen ids ≡ ok (map trim_space ids)
unfolding normalize_ids
normalize_ids_complete seen [] h = refl
normalize_ids_complete seen (id ∷ ids) ((filled, fs), (first, ds), (new, ns)) =
    let ih =
      normalize_ids_complete (trim_space id ∷ seen) ids
        (fs, ds, All-zip (λ y. trim_space id ≢ y) (NotIn seen) (map trim_space ids) first ns) in
    rw (ih, contains_complete seen (trim_space id) new) (ground (arith, eq_iff (trim_space id) ""))

-- What a batch must be: a list of 2 to 500 texts that are distinct and not blank once trimmed, and
-- an activity that is an object, names no loan, and has a result and a comment.
pub record IsBatch (payload : Fields) (ids : List String) (activity : Fields) : Type 0 where
  pub loan_ids :
      (raw : Json) × (get "loan_ids" payload ≡ some raw) × (coerce_string_slice raw ≡ some ids)
  pub non_blank : All (λ id. id ≢ "") (map trim_space ids)
  pub distinct : AreDistinct (map trim_space ids)
  pub at_least : 2 ≤ length (map trim_space ids)
  pub at_most : length (map trim_space ids) ≤ 500
  pub activity_is : get "activity" payload ≡ some (obj activity)
  pub no_loan : (get "loan_id" activity ≡ none) ⊎ (get "loan_id" activity ≡ some null)
  pub has_result : trim_space (string_field activity "result") ≢ ""
  pub has_comment : trim_space (string_field activity "comment") ≢ ""

check_activity_sound :
    (activity : Fields)
    → check_activity activity ≡ ok tt
    → ((get "loan_id" activity ≡ none) ⊎ (get "loan_id" activity ≡ some null))
      × (trim_space (string_field activity "result") ≢ "")
      × (trim_space (string_field activity "comment") ≢ "")
unfolding check_activity
check_activity_sound activity h =
    let r = eq_iff (trim_space (string_field activity "result")) "" in
    let c = eq_iff (trim_space (string_field activity "comment")) "" in
    (ground arith, ground (arith, r), ground (arith, c))

module _ (payload : Fields) (ids : List String) (activity : Fields) where
  check_activity_complete : IsBatch payload ids activity → check_activity activity ≡ ok tt
  unfolding check_activity
  check_activity_complete b =
      let r = eq_iff (trim_space (string_field activity "result")) "" in
      let c = eq_iff (trim_space (string_field activity "comment")) "" in
      ground (arith, r, c, b.no_loan, b.has_result, b.has_comment)

  complete :
      IsBatch payload ids activity
      → normalize_activity_batch_payload (some payload)
        ≡ ok (batch_of (map trim_space ids) activity)
  unfolding normalize_activity_batch_payload
  complete b =
      let (raw, found, coerced) = b.loan_ids in
      let loop =
        normalize_ids_complete [] ids
          (b.non_blank, b.distinct, All-of (NotIn []) (λ id. tt) (map trim_space ids)) in
      rw (
        found,
        coerced,
        loop,
        le→leb _ _ b.at_least,
        le→leb _ _ b.at_most,
        b.activity_is,
        check_activity_complete b,
      )

require-eq-ok {ℓ} :
    {A : Type ℓ} (o : Option A) (message : String) {a : A} → require o message ≡ ok a → o ≡ some a
require-eq-ok none message h = cc
require-eq-ok (some a) message h = cc

object_of_present :
    (o : Option Json) (v : Json) (m : Fields)
    → present o ≡ some v
    → as_object v ≡ some m
    → o ≡ some (obj m)
object_of_present o v m h k = ground arith

ok_inj : {a b : Fields} → ◌≡◌ {A = Result BusinessError Fields} (ok a) (ok b) → b ≡ a
ok_inj h = cc

sound :
    (payload out : Fields)
    → normalize_activity_batch_payload (some payload) ≡ ok out
    → (ids : List String) × (activity : Fields) × IsBatch payload ids activity
      × (out ≡ batch_of (map trim_space ids) activity)
unfolding normalize_activity_batch_payload
sound payload out h =
    let (raw, found, h1) = >>=-eq-ok (require (get "loan_ids" payload) _) _ {b = out} h in
    let (ids, coerced, h2) = >>=-eq-ok (require (coerce_string_slice raw) _) _ {b = out} h1 in
    let (normalized, ran, h3) = >>=-eq-ok (normalize_ids [] ids) _ {b = out} h2 in
    let (counted, h4) =
      guard->>-eq-ok (leb 2 (length normalized) && leb (length normalized) 500) _ _ h3 in
    let (value, there, h5) =
      >>=-eq-ok (require (present (get "activity" payload)) _) _ {b = out} h4 in
    let (activity, object, h6) = >>=-eq-ok (require (as_object value) _) _ {b = out} h5 in
    let (unit, checked, h7) = >>=-eq-ok (check_activity activity) _ {b = out} h6 in
    let (same, loop) = normalize_ids_sound [] ids ran in
    let allowed = check_activity_sound activity checked in
    (
      ids,
      activity,
      record {
        loan_ids = (raw, require-eq-ok _ _ found, require-eq-ok _ _ coerced);
        non_blank = loop.0;
        distinct = loop.1;
        at_least = rw same at (leb→le 2 (length normalized) (ground arith));
        at_most = rw same at (leb→le (length normalized) 500 (ground arith));
        activity_is =
            object_of_present _ value activity (require-eq-ok _ _ there) (require-eq-ok _ _ object);
        no_loan = allowed.0;
        has_result = allowed.1;
        has_comment = allowed.2;
      },
      ok_inj h7 ∙ ap (λ l. batch_of l activity) same,
    )

-- The batch endpoint accepts a payload exactly if it is a batch, and then hands on its trimmed ids
-- in sorted order, and its activity without a loan.
pub normalize_activity_batch_payload_iff :
    (payload out : Fields)
    → (normalize_activity_batch_payload (some payload) ≡ ok out) ↔ (
        (ids : List String) × (activity : Fields) × IsBatch payload ids activity
        × (out ≡ batch_of (map trim_space ids) activity))
normalize_activity_batch_payload_iff payload out =
    (sound payload out, λ (ids, activity, b, e). complete payload ids activity b ∙ ap ok (sym e))
