-- ===== src/Auth/Jwks.antt =====
-- internal/infrastructure/auth/jwks.go. What a fetch gives is the keys of a document, none if the
-- fetch or its reading fails; base64.RawURLEncoding, which gives bytes, is a parameter. A call reads the clock once;
-- times are nanoseconds, none for the zero time.
pub mod Rotated
use bff_api_go_collection_ac.Base.{
  ℕ, ◌+◌, ◌-◌, ◌*◌, String, Bool, true, false, not, ◌&&◌, ◌||◌, ◌==◌, List, [], ◌∷◌, Option, none,
  some, ltb, if◌then◌else◌,
}
use bff_api_go_collection_ac.Base.Ints.{ℤ, pos, ltb_ℤ, wrap, ◌+ℤ◌, ◌*ℤ◌}
use bff_api_go_collection_ac.Base.Maps.{Map, find, store}

abbrev pub jwks_cache_ttl : ℕ
jwks_cache_ttl = 3600 * 1000000000

pub record JwkKey : Type 0 where
  pub kid : String
  pub kty : String
  pub n : String
  pub e : String

-- rsa.PublicKey
pub record PublicKey : Type 0 where
  pub modulus : ℕ
  pub exponent : ℤ

pub record JwksCache : Type 0 where
  pub url : String
  pub keys : Map PublicKey
  pub fetched_at : Option ℕ

abbrev pub is_empty : {A : Type 0} → List A → Bool
is_empty [] = true
is_empty (x ∷ xs) = false

-- big.Int.SetBytes, behind a number.
unfoldable pub set_bytes : ℕ → List ℕ → ℕ
set_bytes n [] = n
set_bytes n (b ∷ bs) = set_bytes (n * 256 + b) bs

unfoldable pub exponent_onto : ℤ → List ℕ → ℤ
exponent_onto e [] = e
exponent_onto e (b ∷ bs) = exponent_onto (wrap (wrap (e *ℤ pos 256) +ℤ pos b)) bs

abbrev pub public_key_of : Option (List ℕ) → Option (List ℕ) → Option PublicKey
public_key_of none e_bytes = none
public_key_of (some n_bytes) none = none
public_key_of (some n_bytes) (some e_bytes) =
    let e = exponent_onto (pos 0) e_bytes in
    if ltb_ℤ (pos 0) e then some (record { modulus = set_bytes 0 n_bytes; exponent = e }) else none

abbrev pub new_jwks_cache : (url : String) → JwksCache
new_jwks_cache url = record { url = url; keys = []; fetched_at = none }

abbrev pub is_expired : (now : ℕ) → Option ℕ → Bool
is_expired now none = true
is_expired now (some fetched_at) = ltb jwks_cache_ttl (now - fetched_at)

module _ (decode_string : String → Option (List ℕ)) where
  abbrev pub rsa_public_key_from_jwk : (n e : String) → Option PublicKey
  rsa_public_key_from_jwk n e = public_key_of (decode_string n) (decode_string e)

  abbrev put_key : String → Option PublicKey → Map PublicKey → Map PublicKey
  put_key kid none next = next
  put_key kid (some pub_key) next = store kid pub_key next

  -- The keys of a document: of two with one name the later counts.
  unfoldable pub keys_onto : Map PublicKey → List JwkKey → Map PublicKey
  keys_onto next [] = next
  keys_onto next (key ∷ keys) =
      let other = not (key.kty == "RSA") || key.kid == "" in
      let with_key = put_key key.kid (rsa_public_key_from_jwk key.n key.e) next in
      keys_onto (if other then next else with_key) keys

  -- refreshLocked, and whether it succeeds.
  unfoldable pub refresh_locked :
      JwksCache → (now : ℕ) → (fetched : Option (List JwkKey)) → JwksCache × Bool
  refresh_locked c now none = (c, false)
  refresh_locked c now (some keys) =
      let next = keys_onto [] keys in
      if is_empty next then (c, false) else (record c { keys = next; fetched_at = some now }, true)

  abbrev pub first_refresh :
      JwksCache → (now : ℕ) → (first : Option (List JwkKey)) → JwksCache × Bool
  first_refresh c now first =
      if is_expired now c.fetched_at || is_empty c.keys
      then refresh_locked c now first
      else (c, true)

  abbrev pub found_or_none : (kid : String) → JwksCache × Bool → JwksCache × Option PublicKey
  found_or_none kid (c, succeeded) = (c, if succeeded then find kid c.keys else none)

  abbrev pub found_or_refresh :
      (kid : String)
      → (now : ℕ) → (second : Option (List JwkKey)) → JwksCache
      → Option PublicKey
      → JwksCache × Option PublicKey
  found_or_refresh kid now second c (some k) = (c, some k)
  found_or_refresh kid now second c none = found_or_none kid (refresh_locked c now second)

  abbrev pub look_up :
      (kid : String)
      → (now : ℕ) → (second : Option (List JwkKey)) → JwksCache × Bool
      → JwksCache × Option PublicKey
  look_up kid now second (c, succeeded) =
      if not succeeded && is_empty c.keys
      then (c, none)
      else found_or_refresh kid now second c (find kid c.keys)

  -- key, with what up to two fetches give.
  unfoldable pub key :
      JwksCache
      → (kid : String) → (now : ℕ) → (first second : Option (List JwkKey))
      → JwksCache × Option PublicKey
  key c kid now first second =
      if c.url == "" then (c, none) else look_up kid now second (first_refresh c now first)
