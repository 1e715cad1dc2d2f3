-- ===== src/Config/Kept.antt =====
-- What the guard of the settings holds off, and what it does not look at.
use bff_api_go_collection_ac.Base.{
  String, ◌≡◌, ◌≢◌, refl, Bool, false, ◌==◌, List, [], ◌∷◌, ◌++◌, none, map, keep, All, Bool-cases,
  inl, inr, if◌then◌else◌,
}
use bff_api_go_collection_ac.Base.Texts.{
  trim_space, trim_left, trim_right, ne_of_eq_false, eq_false_of_ne,
}
use bff_api_go_collection_ac.Config.{Environment, get_env_or_default, load}
use bff_api_go_collection_ac.Config.Guards.{
  is_blank, is_insecure, is_no_https, is_development, violations, refusal_of, dev_defaults, name_of,
  enforce_production_secrets,
}

keep-none : {A : Type 0} (p : A → Bool) (xs : List A) → keep p xs ≡ [] → All (λ x. p x ≡ false) xs
keep-none p [] h = tt
keep-none p (x ∷ xs) h = elim (Bool-cases (p x)) [
  | inl e ↦ absurd (cc (rw e at h))
  | inr e ↦ (e, keep-none p xs (rw e at h))
]

append-none : {A : Type 0} (xs ys : List A) → xs ++ ys ≡ [] → xs ≡ []
append-none [] ys h = refl
append-none (x ∷ xs) ys h = absurd cc

map-none : {A B : Type 0} (f : A → B) (xs : List A) → map f xs ≡ [] → xs ≡ []
map-none f [] h = refl
map-none f (x ∷ xs) h = absurd cc

refusal_of-none :
    (env : Environment) (names : List String) → refusal_of env names ≡ none → names ≡ []
refusal_of-none env [] h = refl
refusal_of-none env (name ∷ names) h = absurd cc

-- A value that is not the one of development, and not blank.
abbrev pub IsSecret : (dev_value value : String) → Type 0
IsSecret dev_value value = (value ≢ dev_value) × (trim_space value ≢ "")

not_empty : (s : String) → trim_space s ≢ "" → s ≢ ""
unfolding trim_space trim_left trim_right
not_empty String.[] given e = given refl
not_empty (String.◌∷◌ c s) given e = cc

module _ (env : Environment) where
  is_insecure-IsSecret :
      (name dev_value : String)
      → (dev_value == "") ≡ false
      → is_insecure env (name, dev_value) ≡ false
      → IsSecret dev_value (env name)
  unfolding is_insecure
  is_insecure-IsSecret name dev_value filled h = elim (Bool-cases (is_blank env name)) [
    | inl blank ↦ absurd (cc (rw (blank, filled) at h))
    | inr given ↦ (ne_of_eq_false (env name) dev_value (rw given at h), ne_of_eq_false _ "" given)
  ]

  get_env-IsSecret :
      (name dev_value default_value : String)
      → IsSecret dev_value (env name)
      → get_env_or_default env name default_value ≡ env name
  unfolding get_env_or_default
  get_env-IsSecret name dev_value default_value (other, given) =
      rw (eq_false_of_ne (env name) "" (not_empty (env name) given)) refl

  dev_defaults-none :
      enforce_production_secrets env ≡ none
      → is_development env ≡ false
      → All (λ d. is_insecure env d ≡ false) dev_defaults
  unfolding enforce_production_secrets
  dev_defaults-none passed h =
      let names = refusal_of-none env (violations env) (rw h at passed) in
      keep-none (is_insecure env) dev_defaults (map-none name_of _ (append-none _ _ names))

  -- Where the guard lets a start pass and the environment is not that of development, the secret
  -- that signs the tokens for the core and the one that signs cursors, as Load gives them to the
  -- clients and handlers, are neither blank nor those of development.
  pub load-IsSecret :
      enforce_production_secrets env ≡ none
      → is_development env ≡ false
      → IsSecret "dev-internal-jwt-secret-32-bytes-min" (load env).internal_jwt_secret
        × IsSecret "dev-notification-cursor-secret" (load env).notification_cursor_secret
  unfolding load
  load-IsSecret passed h =
      let (jwt, (token, (cursor, rest))) = dev_defaults-none passed h in
      let signing = is_insecure-IsSecret "INTERNAL_JWT_SECRET" _ refl jwt in
      let cursors = is_insecure-IsSecret "NOTIFICATION_CURSOR_SECRET" _ refl cursor in
      (
        rw (get_env-IsSecret "INTERNAL_JWT_SECRET" _ _ signing) signing,
        rw (get_env-IsSecret "NOTIFICATION_CURSOR_SECRET" _ _ cursors) cursors,
      )

  -- The environment with the two names that Load reads first for the addresses.
  abbrev pub with_base_urls : (core crypto : String) → Environment
  with_base_urls core crypto name =
      if name == "CORE_BASE_URL"
      then core
      else if name == "CRYPTO_BFF_BASE_URL"
      then crypto
      else env name

  -- The guard does not look at CORE_BASE_URL and CRYPTO_BFF_BASE_URL: any addresses there, without
  -- https too, leave its answer as it is, and are those of the core and the crypto service.
  pub enforce_production_secrets-with_base_urls :
      (core crypto : String)
      → core ≢ ""
      → crypto ≢ ""
      → (enforce_production_secrets (with_base_urls core crypto) ≡ enforce_production_secrets env)
        × ((load (with_base_urls core crypto)).core_base_url ≡ core)
        × ((load (with_base_urls core crypto)).crypto_bff_base_url ≡ crypto)
  unfolding enforce_production_secrets is_insecure is_no_https load get_env_or_default
  enforce_production_secrets-with_base_urls core crypto core_given crypto_given = (
    refl,
    rw (eq_false_of_ne core "" core_given) refl,
    rw (eq_false_of_ne crypto "" crypto_given) refl,
  )
