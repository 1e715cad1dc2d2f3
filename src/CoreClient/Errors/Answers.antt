-- ===== src/CoreClient/Errors/Answers.antt =====
-- How an error status of the core reaches the client of this service.
use bff_api_go_collection_ac.Base.{
  ℕ, String, ◌≡◌, refl, ◌∙◌, ◌<◌, ◌⊎◌, inl, inr, Bool, eqb, ◌||◌, arith, if◌then◌else◌,
}
use bff_api_go_collection_ac.Domain.Errors.{BusinessError, ApiError, business, write_err}
use bff_api_go_collection_ac.CoreClient.Errors.{Body, translate_core_error}

-- The answer to the client, for the core's answer.
abbrev pub answer : ℕ → Body → ℕ → String → ApiError
answer status_code body fallback_code fallback_message =
    write_err (business (translate_core_error status_code body)) fallback_code fallback_message

-- The statuses that are passed on.
abbrev pub is_passed_on : ℕ → Bool
is_passed_on s =
    eqb s 504 || eqb s 404 || eqb s 409 || eqb s 403 || eqb s 401 || eqb s 400 || eqb s 422

-- A status above 200 is written as it is.
http_status-write_err :
    (e : BusinessError) (c : ℕ) (m : String)
    → 200 < e.http_status
    → (write_err (business e) c m).http_status ≡ e.http_status
unfolding write_err
http_status-write_err e c m h = ground arith

http_status-translate_core_error :
    (s : ℕ) (body : Body)
    → (translate_core_error s body).http_status ≡ (if is_passed_on s then s else 502)
unfolding translate_core_error
http_status-translate_core_error s body = ground arith

passed_on_bound : (s : ℕ) → 200 < (if is_passed_on s then s else 502)
passed_on_bound s = ground arith

-- The client sees the status of the core if it is 400, 401, 403, 404, 409, 422 or 504, and 502
-- otherwise, whatever the handler's fallback is.
pub translate_core_error-write_err :
    (status_code : ℕ) (body : Body) (fallback_code : ℕ) (fallback_message : String)
    → (answer status_code body fallback_code fallback_message).http_status
      ≡ (if is_passed_on status_code then status_code else 502)
translate_core_error-write_err s b c m =
    http_status-write_err (translate_core_error s b) c m
      (rw (http_status-translate_core_error s b) (passed_on_bound s))
    ∙ http_status-translate_core_error s b

-- At the statuses 401 and 403 nothing of the core's body is passed on: the answers for any two
-- bodies are the same.
pub translate_core_error_hidden :
    (status_code : ℕ) (body other_body : Body) (fallback_code : ℕ) (fallback_message : String)
    → (status_code ≡ 401) ⊎ (status_code ≡ 403)
    → answer status_code body fallback_code fallback_message
      ≡ answer status_code other_body fallback_code fallback_message
unfolding translate_core_error write_err
translate_core_error_hidden s b b' c m = elim [ inl e ↦ rw e refl | inr e ↦ rw e refl ]
