-- ===== src/Auth/Jwks/Rotated.antt =====
-- The keys of an identity provider that rotates them, or that is down.
use bff_api_go_collection_ac.Base.{
  ℕ, String, ◌≡◌, refl, true, false, ◌||◌, ◌==◌, List, [], ◌∷◌, Option, none, some, Bool-cases, inl,
  inr,
}
use bff_api_go_collection_ac.Base.Maps.{find}
use bff_api_go_collection_ac.Auth.Jwks.{
  JwkKey, PublicKey, JwksCache, is_empty, keys_onto, refresh_locked, is_expired, key,
}

not_empty_of_find :
    {A : Type 0} (kid : String) (m : List (String × A)) (k : A)
    → find kid m ≡ some k
    → is_empty m ≡ false
unfolding find
not_empty_of_find kid [] k h = absurd cc
not_empty_of_find kid (e ∷ m) k h = refl

module _ (decode_string : String → Option (List ℕ)) where
  refresh_locked-found :
      (c : JwksCache) (now : ℕ) (doc : List JwkKey) (kid : String) (k : PublicKey)
      → find kid (keys_onto decode_string [] doc) ≡ some k
      → refresh_locked decode_string c now (some doc)
        ≡ (record c { keys = keys_onto decode_string [] doc; fetched_at = some now }, true)
  unfolding refresh_locked
  refresh_locked-found c now doc kid k h =
      rw (not_empty_of_find kid (keys_onto decode_string [] doc) k h) refl

  -- A name that the cache does not know is found as soon as the document has it: with the document
  -- in each fetch of the call, the call gives the key of the document and keeps its keys.
  pub key-rotated :
      (c : JwksCache) (kid : String) (now : ℕ) (doc : List JwkKey) (k : PublicKey)
      → (c.url == "") ≡ false
      → find kid c.keys ≡ none
      → find kid (keys_onto decode_string [] doc) ≡ some k
      → key decode_string c kid now (some doc) (some doc)
        ≡ (record c { keys = keys_onto decode_string [] doc; fetched_at = some now }, some k)
  unfolding key
  key-rotated c kid now doc k url_given unknown h =
      let refreshed = refresh_locked-found c now doc kid k h in
      elim (Bool-cases (is_expired now c.fetched_at || is_empty c.keys)) [
        | inl due ↦ rw (url_given, due, refreshed, h) refl
        | inr fresh ↦ rw (url_given, fresh, unknown, refreshed, h) refl
      ]

  -- A key that the cache has is served while the provider is down, however old it is, and the
  -- cache stays as it is.
  pub key-stale :
      (c : JwksCache) (kid : String) (now : ℕ) (k : PublicKey)
      → (c.url == "") ≡ false
      → find kid c.keys ≡ some k
      → key decode_string c kid now none none ≡ (c, some k)
  unfolding key refresh_locked
  key-stale c kid now k url_given known =
      let some_keys = not_empty_of_find kid c.keys k known in
      elim (Bool-cases (is_expired now c.fetched_at)) [
        | inl due ↦ rw (url_given, due, some_keys, known) refl
        | inr fresh ↦ rw (url_given, fresh, some_keys, known) refl
      ]
