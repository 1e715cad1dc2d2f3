-- ===== src/FieldCrypto/Store.antt =====
-- internal/infrastructure/fieldcrypto: session.go, the sessions that are kept in memory and their
-- manager, and the key providers of keys.go for sessions. Times are nanoseconds of Unix time, where
-- a token's are seconds. The random values and the packages are those of `Externals`.
pub mod Expiry
use bff_api_go_collection_ac.Base.{
  ℕ, ◌/◌, String, Bool, false, ◌==◌, List, [], Option, none, some, length, eqb, if◌then◌else◌,
}
use bff_api_go_collection_ac.Base.Ints.{ℤ, pos, wrap, ltb_ℤ, ◌+ℤ◌, ◌*ℤ◌}
use bff_api_go_collection_ac.Base.Maps.{Map, find, store, remove}
use bff_api_go_collection_ac.Base.Results.{Result, ok, err, guard, ◌>>=◌, ◌>>◌}
use bff_api_go_collection_ac.Json.{num, str, Fields, end, field}
use bff_api_go_collection_ac.FieldCrypto.Errors.{
  FieldCryptoError, session_invalid, unknown_kid, unknown_error,
}
use bff_api_go_collection_ac.FieldCrypto.Service.{FieldCryptoService}
use bff_api_go_collection_ac.FieldCrypto.Stateless.{
  Externals, ParserOptions, Exchange, HandshakeResult, VerifiedSession, claim_text,
}

pub record SessionEntry (Byte : Type 0) : Type 0 where
  pub key : List Byte
  pub expiry : ℤ

pub record MemorySessionStore (Byte : Type 0) : Type 0 where
  pub ttl : ℤ
  pub keys : Map (SessionEntry Byte)

abbrev pub or_default_ttl : ℤ → ℤ
or_default_ttl ttl_seconds = if ltb_ℤ (pos 0) ttl_seconds then ttl_seconds else pos 900

-- A duration is an int64 of nanoseconds.
unfoldable pub new_memory_session_store : {Byte : Type 0} → ℤ → MemorySessionStore Byte
new_memory_session_store ttl_seconds = record {
  ttl = wrap (or_default_ttl ttl_seconds *ℤ pos 1_000_000_000);
  keys = [];
}

module _ {Byte : Type 0} where
  unfoldable pub put :
      MemorySessionStore Byte
      → String
      → List Byte
      → (now : ℕ) → Result FieldCryptoError (MemorySessionStore Byte)
  put s session_id key now =
      if eqb (length key) 32
      then ok (record s {
        keys = store session_id (record { key = key; expiry = pos now +ℤ s.ttl }) s.keys;
      })
      else err unknown_error

  unfoldable pub delete : MemorySessionStore Byte → String → MemorySessionStore Byte
  delete s session_id = record s { keys = remove session_id s.keys }

  unfoldable pub revoke : MemorySessionStore Byte → String → MemorySessionStore Byte
  unfolding delete
  revoke s session_id = delete s session_id

  abbrev get_entry :
      MemorySessionStore Byte
      → String
      → (now : ℕ) → Option (SessionEntry Byte)
      → MemorySessionStore Byte × Option (List Byte)
  get_entry s session_id now none = (s, none)
  get_entry s session_id now (some entry) =
      if ltb_ℤ entry.expiry (pos now) then (delete s session_id, none) else (s, some entry.key)

  -- A session that has run out is deleted when it is asked for.
  unfoldable pub get :
      MemorySessionStore Byte → String → (now : ℕ) → MemorySessionStore Byte × Option (List Byte)
  get s session_id now = get_entry s session_id now (find session_id s.keys)

  -- SessionKeyProvider: the keys are those of the sessions at a time.
  abbrev pub known_key : Option (List Byte) → Result FieldCryptoError (List Byte)
  known_key none = err unknown_kid
  known_key (some key) = ok key

  abbrev pub session_key_provider :
      MemorySessionStore Byte → (now : ℕ) → FieldCryptoService Byte → FieldCryptoService Byte
  session_key_provider s now service = record service {
    active_kid = "";
    key_for = λ kid. known_key (get s kid now).1;
  }

  -- NewFixedSessionKeyProvider, as the service that is built on it.
  unfoldable pub fixed_session_key_provider :
      FieldCryptoService Byte
      → VerifiedSession Byte
      → Result FieldCryptoError (FieldCryptoService Byte)
  fixed_session_key_provider service v =
      if eqb (length v.session_key) 32
      then ok (record service {
        active_kid = v.session_id;
        key_for = λ kid. if kid == v.session_id then ok v.session_key else err unknown_kid;
      })
      else err session_invalid

-- CryptoSessionManager
pub record CryptoSessionManager (Byte : Type 0) : Type 0 where
  pub sessions : MemorySessionStore Byte
  pub secret : String
  pub issuer : String
  pub ttl_seconds : ℤ

abbrev pub new_crypto_session_manager :
    {Byte : Type 0}
    → MemorySessionStore Byte
    → (secret issuer : String) → ℤ
    → CryptoSessionManager Byte
new_crypto_session_manager s secret issuer ttl_seconds = record {
  sessions = s;
  secret = secret;
  issuer = issuer;
  ttl_seconds = or_default_ttl ttl_seconds;
}

module _ {Byte Token : Type 0} (x : Externals Byte Token) where
  abbrev pub decoded_key : Option (List Byte) → Result FieldCryptoError (List Byte)
  decoded_key none = err unknown_error
  decoded_key (some raw) = ok raw

  abbrev pub stored_claims :
      CryptoSessionManager Byte → (session_id subject scope : String) (seconds : ℕ) → Fields
  stored_claims m session_id subject scope seconds = field "iss" (str m.issuer) (
      field "aud" (str "crypto-session") (
        field "sub" (str subject) (
          field "scope" (str scope) (
            field "crypto_session_id" (str session_id) (
              field "iat" (num (pos seconds))
                (field "exp" (num (wrap (pos seconds +ℤ m.ttl_seconds))) end))))))

  -- Handshake, with the random id of the session. The exchange has the salt and the key in it.
  unfoldable pub handshake :
      (m : CryptoSessionManager Byte) (client_public subject scope session_id : String) (now : ℕ)
      → Result FieldCryptoError (CryptoSessionManager Byte × HandshakeResult Token)
  handshake m client_public subject scope session_id now = do
    raw ← decoded_key (x.b64.decode client_public)
    agreed ← x.exchange raw
    sessions ← put m.sessions session_id agreed.session_key now
    ok (
      record m { sessions = sessions },
      record {
        server_public_key = x.b64.encode agreed.server_public_key;
        salt = x.b64.encode agreed.salt;
        crypto_session_id = session_id;
        crypto_access_token =
            x.sign m.secret (stored_claims m session_id subject scope (now / 1_000_000_000));
        expires_in = m.ttl_seconds;
      },
    )

  abbrev names_session : Option Fields → String → Bool
  names_session none session_id = false
  names_session (some claims) session_id = claim_text claims "crypto_session_id" == session_id

  -- The options of VerifyAccessToken: no issuer and no leeway.
  abbrev pub parser_of_stored : CryptoSessionManager Byte → ParserOptions
  parser_of_stored m = record {
    secret = m.secret;
    only_hs256 = false;
    audience = "crypto-session";
    issuer = none;
    leeway = 0;
  }

  unfoldable pub verify_access_token : CryptoSessionManager Byte → Token → String → (now : ℕ) → Bool
  verify_access_token m token session_id now =
      names_session (x.parse (parser_of_stored m) (now / 1_000_000_000) token) session_id

  unfoldable pub session_key :
      CryptoSessionManager Byte
      → String
      → (now : ℕ) → CryptoSessionManager Byte × Option (List Byte)
  session_key m session_id now =
      let (sessions, key) = get m.sessions session_id now in (record m { sessions = sessions }, key)
