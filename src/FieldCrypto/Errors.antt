-- ===== src/FieldCrypto/Errors.antt =====
-- internal/infrastructure/fieldcrypto/errors.go and public_codes.go.
use bff_api_go_collection_ac.Base.{
  ℕ, String, ◌==◌, List, [], ◌∷◌, ◌≡◌, ◌↔◌, refl, sym, ap, ◌∙◌, eqb, if◌then◌else◌,
}

-- The error types, one constructor for each; `crypto_error` is a bare FieldCryptoError of the
-- middleware, and `unknown_error` any other error.
pub data FieldCryptoError : Type 0 where
  invalid_envelope : FieldCryptoError
  unsupported_version : FieldCryptoError
  unknown_kid : FieldCryptoError
  invalid_tag : FieldCryptoError
  plaintext_rejected : FieldCryptoError
  unsupported_type : FieldCryptoError
  payload_too_large : FieldCryptoError
  encryption_failed : FieldCryptoError
  session_invalid : FieldCryptoError
  session_store_unavailable : FieldCryptoError
  tenant_authority_unavailable : FieldCryptoError
  crypto_error : FieldCryptoError
  unknown_error : FieldCryptoError

unfoldable pub safe_code : FieldCryptoError → String
safe_code invalid_envelope = "CRYPTO_INVALID_FORMAT"
safe_code unsupported_version = "CRYPTO_UNSUPPORTED_VERSION"
safe_code unknown_kid = "CRYPTO_UNKNOWN_KID"
safe_code invalid_tag = "CRYPTO_INVALID_TAG"
safe_code plaintext_rejected = "CRYPTO_PLAINTEXT_REJECTED"
safe_code unsupported_type = "CRYPTO_UNSUPPORTED_TYPE"
safe_code payload_too_large = "CRYPTO_PAYLOAD_TOO_LARGE"
safe_code encryption_failed = "CRYPTO_RESPONSE_ENCRYPTION_FAILED"
safe_code session_invalid = "CRYPTO_SESSION_INVALID"
safe_code session_store_unavailable = "SERVICE_UNAVAILABLE"
safe_code tenant_authority_unavailable = "SERVICE_UNAVAILABLE"
safe_code crypto_error = "CRYPTO_ERROR"
safe_code unknown_error = "CRYPTO_ERROR"

unfoldable pub http_status : FieldCryptoError → ℕ
http_status payload_too_large = 413
http_status encryption_failed = 500
http_status session_invalid = 401
http_status session_store_unavailable = 503
http_status tenant_authority_unavailable = 503
http_status e = 400

abbrev pub public_error_codes : List (String × ℕ)
public_error_codes =
    ("CRYPTO_ERROR", 90100)
    ∷ ("CRYPTO_INVALID_FORMAT", 90101)
    ∷ ("CRYPTO_UNSUPPORTED_VERSION", 90102)
    ∷ ("CRYPTO_UNKNOWN_KID", 90103)
    ∷ ("CRYPTO_INVALID_TAG", 90104)
    ∷ ("CRYPTO_PLAINTEXT_REJECTED", 90105)
    ∷ ("CRYPTO_UNSUPPORTED_TYPE", 90106)
    ∷ ("CRYPTO_PAYLOAD_TOO_LARGE", 90107)
    ∷ ("CRYPTO_RESPONSE_ENCRYPTION_FAILED", 90108)
    ∷ ("CRYPTO_SESSION_INVALID", 90109)
    ∷ ("SERVICE_UNAVAILABLE", 90011)
    ∷ []

code_in : List (String × ℕ) → String → ℕ
code_in [] code = 90018
code_in ((c, n) ∷ rest) code = if c == code then n else code_in rest code

unfoldable pub public_error_code : String → ℕ
unfolding code_in
public_error_code code = code_in public_error_codes code

abbrev pub public_error_messages : List (ℕ × String)
public_error_messages =
    (90100, "No se pudo procesar la solicitud cifrada.")
    ∷ (90101, "Formato de cifrado invalido.")
    ∷ (90102, "Version de cifrado no soportada.")
    ∷ (90103, "Llave de cifrado no reconocida.")
    ∷ (90104, "No se pudo validar la integridad de la solicitud cifrada.")
    ∷ (90105, "La solicitud debe enviarse cifrada.")
    ∷ (90106, "Tipo de dato cifrado no soportado.")
    ∷ (90107, "La solicitud cifrada supera el tamano permitido.")
    ∷ (90108, "No se pudo proteger la respuesta.")
    ∷ (90109, "Sesion de cifrado invalida.")
    ∷ (90011, "Servicio no disponible.")
    ∷ []

message_in : List (ℕ × String) → ℕ → String
message_in [] code = "No se pudo procesar la solicitud."
message_in ((n, m) ∷ rest) code = if eqb n code then m else message_in rest code

unfoldable pub catalog_error_message : ℕ → String
unfolding message_in
catalog_error_message code = message_in public_error_messages code

-- What a client is told.
pub record ErrorEnvelope : Type 0 where
  pub status : ℕ
  pub code : ℕ
  pub message : String

unfoldable pub public_error_envelope : FieldCryptoError → ErrorEnvelope
unfolding safe_code http_status public_error_code catalog_error_message
public_error_envelope e =
    let code = public_error_code (safe_code e) in
    record { status = http_status e; code = code; message = catalog_error_message code }

-- The errors that a client cannot tell apart: a client learns which kind of fault there was, but
-- not which service is down, nor anything of an error that is none of the package's own.
abbrev pub kind : FieldCryptoError → FieldCryptoError
kind tenant_authority_unavailable = session_store_unavailable
kind unknown_error = crypto_error
kind e = e

-- The kind whose public code this is.
kind_of_code : ℕ → FieldCryptoError
kind_of_code n =
    if eqb n 90101
    then invalid_envelope
    else if eqb n 90102
    then unsupported_version
    else if eqb n 90103
    then unknown_kid
    else if eqb n 90104
    then invalid_tag
    else if eqb n 90105
    then plaintext_rejected
    else if eqb n 90106
    then unsupported_type
    else if eqb n 90107
    then payload_too_large
    else if eqb n 90108
    then encryption_failed
    else if eqb n 90109
    then session_invalid
    else if eqb n 90011
    then session_store_unavailable
    else crypto_error

kind_of_code-code : (e : FieldCryptoError) → kind_of_code (public_error_envelope e).code ≡ kind e
unfolding public_error_envelope kind_of_code
kind_of_code-code invalid_envelope = refl
kind_of_code-code e = refl

-- Two errors have one public code exactly if they are of one kind: the code of an answer says what
-- the fault was, and no more.
pub public_error_envelope_iff :
    (e f : FieldCryptoError)
    → ((public_error_envelope e).code ≡ (public_error_envelope f).code) ↔ (kind e ≡ kind f)
unfolding public_error_envelope
public_error_envelope_iff e f = (
  λ h. sym (kind_of_code-code e) ∙ ap kind_of_code h ∙ kind_of_code-code f,
  λ h. code-kind e ∙ ap (λ k. (public_error_envelope k).code) h ∙ sym (code-kind f),
)
  where
    code-kind :
        (d : FieldCryptoError)
        → (public_error_envelope d).code ≡ (public_error_envelope (kind d)).code
    code-kind invalid_envelope = refl
    code-kind d = refl
