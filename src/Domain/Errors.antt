-- ===== src/Domain/Errors.antt =====
-- internal/domain/errors.go, and writeErr of internal/interface/api/handler/respond.go.
-- An HTTP status is a natural number, since no status of the program is negative.
pub mod Status
use bff_api_go_collection_ac.Base.{
  ℕ, String, Bool, Option, none, some, ltb, leb, eqb, ◌&&◌, ◌||◌, if◌then◌else◌,
}
use bff_api_go_collection_ac.Base.Ints.{ℤ, pos, ltb_ℤ, eqb_ℤ}

pub record BusinessError : Type 0 where
  pub code : ℤ
  pub message : String
  pub http_status : ℕ

-- NewBusinessError; no status is given, so `Status` chooses one by the code.
abbrev pub new_business_error : ℕ → String → BusinessError
new_business_error code message = record { code = pos code; message = message; http_status = 0 }

abbrev pub new_http_business_error : ℕ → ℕ → String → BusinessError
new_http_business_error http_status code message = record {
  code = pos code;
  message = message;
  http_status = http_status;
}

abbrev one_of : ℤ → ℕ → ℕ → Bool
one_of code a b = eqb_ℤ code (pos a) || eqb_ℤ code (pos b)

-- The switch on the code, for an error that names no status.
status_by_code : ℤ → ℕ
status_by_code code =
    if one_of code 5070 5071
    then 401
    else if eqb_ℤ code (pos 5072)
    then 403
    else if one_of code 5004 5012
    then 404
    else if eqb_ℤ code (pos 90005)
    then 422
    else if one_of code 90020 90021
    then 400
    else if one_of code 90022 90023
    then 409
    else if ltb_ℤ (pos 5000) code && ltb_ℤ code (pos 5090)
    then 400
    else 502

-- (e *BusinessError) Status(); `none` is the nil error.
unfoldable pub status : Option BusinessError → ℕ
unfolding status_by_code
status none = 502
status (some e) = if ltb 0 e.http_status then e.http_status else status_by_code e.code

-- An `error` is a business error or some other one, of which only its text is known.
pub data Error : Type 0 where
  business : BusinessError → Error
  other : String → Error

pub record ApiError : Type 0 where
  pub http_status : ℕ
  pub code : ℤ
  pub message : String

-- writeErr: what is written to the client.
unfoldable pub write_err : Error → ℕ → String → ApiError
unfolding status
write_err (business e) fallback_code fallback_message =
    let s = status (some e) in
    record { http_status = (if eqb s 200 then 502 else s); code = e.code; message = e.message }
write_err (other text) fallback_code fallback_message = record {
  http_status = 502;
  code = pos fallback_code;
  message = fallback_message;
}
