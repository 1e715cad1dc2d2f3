-- ===== src/CoreClient/Errors.antt =====
-- internal/infrastructure/coreclient/errors.go. A response body is empty, a text that
-- `json.Unmarshal` refuses to read into a map, or a JSON object.
pub mod Answers
use bff_api_go_collection_ac.Base.{
  ℕ, String, Bool, Option, none, some, not, eqb, ◌||◌, ◌==◌, if◌then◌else◌,
}
use bff_api_go_collection_ac.Base.Ints.{ℤ, pos}
use bff_api_go_collection_ac.Json.{Json, str, num, obj, Fields, get}
use bff_api_go_collection_ac.Domain.Errors.{BusinessError}

pub data Body : Type 0 where
  empty : Body
  malformed : String → Body
  object : Fields → Body

-- result[key].(string), if that is a string and not empty
abbrev text_of : Option Json → Option String
text_of (some (str s)) = if s == "" then none else some s
text_of _ = none

abbrev number_of : Option Json → Option ℤ
number_of (some (num n)) = some n
number_of _ = none

abbrev fields_of : Option Json → Option Fields
fields_of (some (obj m)) = some m
fields_of _ = none

-- The first that is there: the chain of early returns.
infixr 30 ◌or_else◌
abbrev ◌or_else◌ {ℓ} : {A : Type ℓ} → Option A → Option A → Option A
none or_else o = o
some a or_else o = some a

abbrev inside {ℓ} : {A : Type ℓ} → Option Fields → (Fields → Option A) → Option A
inside none f = none
inside (some m) f = f m

abbrev or_default {ℓ} : {A : Type ℓ} → Option A → A → A
or_default none a = a
or_default (some b) a = b

abbrev pub default_message : String
default_message = "No se pudo completar la solicitud."

unfoldable pub parse_core_error_message : Body → String
unfolding get
parse_core_error_message empty = default_message
parse_core_error_message (malformed text) = text
parse_core_error_message (object result) =
    or_default
      (text_of (get "detail" result)
        or_else text_of (get "message" result)
        or_else inside (fields_of (get "error" result))
            (λ nested. text_of (get "message" nested) or_else text_of (get "detail" nested)))
      default_message

unfoldable pub parse_core_error_code : Body → ℤ
unfolding get
parse_core_error_code empty = pos 5060
parse_core_error_code (malformed text) = pos 5060
parse_core_error_code (object result) =
    or_default
      (number_of (get "error_code" result)
        or_else number_of (get "code" result)
        or_else inside (fields_of (get "error" result)) (λ nested. number_of (get "code" nested))
        or_else inside (fields_of (get "extensions" result))
            (λ extensions. number_of (get "code" extensions)))
      (pos 5060)

abbrev error_with : ℤ → String → ℕ → BusinessError
error_with code message http_status = record {
  code = code;
  message = message;
  http_status = http_status;
}

unfoldable pub translate_core_error : ℕ → Body → BusinessError
translate_core_error status_code body =
    let detail = parse_core_error_message body in
    let code = parse_core_error_code body in
    if eqb status_code 504
    then error_with (pos 5060) detail 504
    else if eqb status_code 404
    then error_with code detail 404
    else if eqb status_code 409
    then error_with code detail 409
    else if eqb status_code 403
    then error_with (pos 5072) "No tiene permisos para realizar esta acción." 403
    else if eqb status_code 401
    then error_with (pos 5071) "El token de acceso no es válido." 401
    else if eqb status_code 400 || eqb status_code 422
    then error_with code detail status_code
    else error_with (pos 5060) detail 502
