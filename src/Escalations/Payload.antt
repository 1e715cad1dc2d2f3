-- ===== src/Escalations/Payload.antt =====
-- internal/application/usecases/escalation_payload.go. `none` is the nil map. `copyAnyMap` makes a
-- copy of a map, so that the caller's map is not written; here a map is a value.
pub mod Status
pub mod Create
use bff_api_go_collection_ac.Base.{
  String, Bool, true, false, not, List, [], ◌∷◌, Option, none, some, ◌==◌, ◌&&◌, if◌then◌else◌,
  is_some,
}
use bff_api_go_collection_ac.Base.Texts.{trim_space, to_lower, to_upper, replace_char}
use bff_api_go_collection_ac.Json.{Json, null, str, Fields, get, put, del}

-- stringField: a text under the key.
abbrev text_of : Option Json → Option String
text_of (some (str s)) = some s
text_of _ = none

unfoldable pub string_field : Option Fields → String → Option String
string_field none key = none
string_field (some m) key = text_of (get key m)

abbrev pub escalation_status_aliases : List (String × String)
escalation_status_aliases =
    ("pending", "PENDING")
    ∷ ("pendiente", "PENDING")
    ∷ ("reviewed", "REVIEWED")
    ∷ ("in_progress", "REVIEWED")
    ∷ ("en_proceso", "REVIEWED")
    ∷ ("closed", "CLOSED")
    ∷ ("resolved", "CLOSED")
    ∷ ("resuelto", "CLOSED")
    ∷ ("approved", "APPROVED")
    ∷ ("approve", "APPROVED")
    ∷ ("aprobado", "APPROVED")
    ∷ ("rejected", "REJECTED")
    ∷ ("reject", "REJECTED")
    ∷ ("rechazado", "REJECTED")
    ∷ ("changes_requested", "CHANGES_REQUESTED")
    ∷ ("request_changes", "CHANGES_REQUESTED")
    ∷ ("pedir_cambios", "CHANGES_REQUESTED")
    ∷ []

unfoldable pub lookup : String → List (String × String) → Option String
lookup key [] = none
lookup key ((k, v) ∷ rest) = if k == key then some v else lookup key rest

abbrev or_default : Option String → String → String
or_default none s = s
or_default (some t) s = t

-- The key under which an alias is looked up: lower case, with underscores.
unfoldable pub alias_key : String → String
alias_key value = replace_char b' ' "_" (replace_char b'-' "_" (to_lower (trim_space value)))

unfoldable pub normalize_escalation_status : String → String
normalize_escalation_status value =
    or_default (lookup (alias_key value) escalation_status_aliases) (to_upper (trim_space value))

-- The reason of an escalation is its reason, else its notes.
abbrev reason_from : Option String → Option String → Fields → Fields
reason_from (some notes) none m = if notes == "" then m else put "reason" (str notes) m
reason_from _ _ m = m

unfoldable pub map_create_escalation_payload : Option Fields → Option Fields
map_create_escalation_payload none = none
map_create_escalation_payload (some m) =
    some
      (del "notes" (reason_from (string_field (some m) "notes") (string_field (some m) "reason") m))

-- The status that was given, under its long name or its short one.
abbrev given_status : Option String → Option String → String
given_status long short = let s = or_default long "" in if s == "" then or_default short "" else s

unfoldable pub map_escalation_status_payload : Option Fields → Option Fields
map_escalation_status_payload none = none
map_escalation_status_payload (some m) =
    let raw =
      given_status (string_field (some m) "escalation_status") (string_field (some m) "status") in
    some (
      del "escalation_status"
        (if raw == "" then m else put "status" (str (normalize_escalation_status raw)) m))

abbrev trimmed_reason : String → Json
trimmed_reason reason = if trim_space reason == "" then null else str (trim_space reason)

abbrev put_status : Option String → Fields → Fields
put_status none m = m
put_status (some raw) m = put "status" (str (normalize_escalation_status raw)) m

abbrev put_reason : Option String → Fields → Fields
put_reason none m = m
put_reason (some reason) m = put "reason" (trimmed_reason reason) m

unfoldable pub map_escalation_decision_payload : Option Fields → Option Fields
map_escalation_decision_payload none = none
map_escalation_decision_payload (some m) =
    let with_status = put_status (string_field (some m) "status") m in
    some (put_reason (string_field (some with_status) "reason") with_status)
