-- ===== src/Tests/Errors.antt =====
-- The errors at concrete inputs.
use bff_api_go_collection_ac.Base.{◌≡◌}
use bff_api_go_collection_ac.Base.Ints.{pos}
use bff_api_go_collection_ac.Domain.Errors.{BusinessError}
use bff_api_go_collection_ac.CoreClient.Errors.{Body}
use bff_api_go_collection_ac.CoreClient.Errors.Answers.{answer, translate_core_error-write_err}

abbrev missing_loan : BusinessError
missing_loan = record { code = pos 5004; message = "loan_id is required"; http_status = 0 }

translate_core_error-write_err_example :
    (answer 503 (Body.malformed "no route") 5020 "failed").http_status ≡ 502
translate_core_error-write_err_example =
    translate_core_error-write_err 503 (Body.malformed "no route") 5020 "failed"
