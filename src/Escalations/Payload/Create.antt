-- ===== src/Escalations/Payload/Create.antt =====
-- What the mapped payloads hold.
use bff_api_go_collection_ac.Base.{
  String, ◌≡◌, ◌≢◌, refl, Option, none, some, ◌==◌, eq_iff, arith, if◌then◌else◌, Bool-cases, inl,
  inr,
}
use bff_api_go_collection_ac.Base.Texts.{ne_of_eq_false}
use bff_api_go_collection_ac.Json.{Json, str, Fields, get}
use bff_api_go_collection_ac.Json.Lookup.{get-put, get-del}
use bff_api_go_collection_ac.Escalations.Payload.{
  text_of, reason_from, string_field, map_create_escalation_payload,
}

text_of-eq-some : (o : Option Json) {s : String} → text_of o ≡ some s → o ≡ some (str s)
text_of-eq-some o h = ground arith

pub string_field-eq-some :
    (m : Fields) (key : String) {s : String}
    → string_field (some m) key ≡ some s
    → get key m ≡ some (str s)
unfolding string_field
string_field-eq-some m key h = text_of-eq-some (get key m) h

pub string_field-eq-none :
    (m : Fields) (key : String) → get key m ≡ none → string_field (some m) key ≡ none
unfolding string_field
string_field-eq-none m key h = rw h

pub string_field-of_str :
    (m : Fields) (key : String) {s : String}
    → get key m ≡ some (str s)
    → string_field (some m) key ≡ some s
unfolding string_field
string_field-of_str m key h = rw h

-- The reason that is sent: the reason if that is a text, else the notes if those are a text that
-- is not empty.
abbrev pub reason_of : Option Json → Option Json → Option Json
reason_of (some (str r)) notes = some (str r)
reason_of reason (some (str n)) = if n == "" then reason else some (str n)
reason_of reason notes = reason

reason_lem :
    (r n : Option Json) (m : Fields)
    → get "reason" m ≡ r
    → get "reason" (reason_from (text_of n) (text_of r) m) ≡ reason_of r n
reason_lem r (some (str s)) m h = ground (arith, get-put "reason" "reason" (str s) m)
reason_lem r n m h = ground arith

other_lem :
    (key : String) (r n : Option Json) (m : Fields)
    → key ≢ "notes"
    → key ≢ "reason"
    → (if "notes" == key then none else get key (reason_from (text_of n) (text_of r) m)) ≡ get key m
other_lem key r (some (str s)) m h k =
    ground (arith, get-put "reason" key (str s) m, eq_iff "notes" key, eq_iff "reason" key)
other_lem key r n m h k = ground (arith, eq_iff "notes" key)

pub map_create_escalation_payload_lem :
    (m : Fields)
    → (out : Fields) × (map_create_escalation_payload (some m) ≡ some out)
      × (get "notes" out ≡ none)
      × (get "reason" out ≡ reason_of (get "reason" m) (get "notes" m))
      × ((key : String) → key ≢ "notes" → key ≢ "reason" → get key out ≡ get key m)
unfolding map_create_escalation_payload string_field
map_create_escalation_payload_lem m = (
  _,
  refl,
  rw get-del,
  rw get-del (reason_lem (get "reason" m) (get "notes" m) m refl),
  λ key h k. rw get-del (other_lem key (get "reason" m) (get "notes" m) m h k),
)

-- The payload that a new escalation is mapped to has no notes, the reason of `reason_of`, and under
-- each other key what came: before the id of a management activity is added to it.
pub get-map_create_escalation_payload :
    (m : Fields)
    → (out : Fields) × (map_create_escalation_payload (some m) ≡ some out)
      × ((key : String)
          → get key out ≡ (
              if key == "notes"
              then none
              else if key == "reason"
              then reason_of (get "reason" m) (get "notes" m)
              else get key m))
get-map_create_escalation_payload m =
    let (out, is, notes, reason, same) = map_create_escalation_payload_lem m in
    (
      out,
      is,
      λ key. elim (Bool-cases (key == "notes")) [
        | inl n ↦ rw (n, (eq_iff key "notes").0 n) notes
        | inr n ↦ elim (Bool-cases (key == "reason")) [
          | inl r ↦ rw (n, r, (eq_iff key "reason").0 r) reason
          | inr r ↦
              rw (n, r) (same key (ne_of_eq_false key "notes" n) (ne_of_eq_false key "reason" r))
        ]
      ],
    )
