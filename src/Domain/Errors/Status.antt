-- ===== src/Domain/Errors/Status.antt =====
-- An error is never answered as a success.
use bff_api_go_collection_ac.Base.{ℕ, String, ◌⊎◌, ◌≤◌, ◌≡◌, arith}
use bff_api_go_collection_ac.Base.Ints.{ℤ}
use bff_api_go_collection_ac.Domain.Errors.{BusinessError, business, status_by_code, write_err}

status_by_code-ge : (c : ℤ) → 400 ≤ status_by_code c
unfolding status_by_code
status_by_code-ge c = ground arith

-- A business error that names no status, or an error status, is answered with a status of at
-- least 400, whatever its code is.
pub write_err-ge :
    (e : BusinessError) (fallback_code : ℕ) (fallback_message : String)
    → (e.http_status ≡ 0) ⊎ (400 ≤ e.http_status)
    → 400 ≤ (write_err (business e) fallback_code fallback_message).http_status
unfolding write_err
write_err-ge e c m h = ground (arith, status_by_code-ge e.code)
