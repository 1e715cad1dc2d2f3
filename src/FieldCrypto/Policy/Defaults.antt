-- ===== src/FieldCrypto/Policy/Defaults.antt =====
-- The rules of the code come before those of the configuration.
use mathlib.Core.List.{List}
use bff_api_go_collection_ac.Base.{
  String, Option, none, some, ◌++◌, ◌≡◌, refl, Bool-cases, inl, inr,
}
use bff_api_go_collection_ac.FieldCrypto.Policy.{
  CryptoRule, from_entry, from_entries, default_entries, policy, resolve_rule, rule_matches,
}

abbrev pub or_else {ℓ} : {A : Type ℓ} → Option A → Option A → Option A
or_else none o = o
or_else (some a) o = some a

resolve_rule-append :
    (rs es : List CryptoRule) (method path : String)
    → resolve_rule (from_entries (rs ++ es)) method path
      ≡ or_else
          (resolve_rule (from_entries rs) method path)
          (resolve_rule (from_entries es) method path)
unfolding resolve_rule
resolve_rule-append List.[] es method path = refl
resolve_rule-append (List.◌∷◌ r rs) es method path =
    elim (Bool-cases (rule_matches (from_entry r) method path)) [
      | inl hit ↦ rw hit
      | inr miss ↦ rw miss (resolve_rule-append rs es method path)
    ]

-- Where a rule of the code matches a request, that rule decides on it, whatever the configuration
-- says; elsewhere the first rule of the configuration that matches does.
pub resolve_rule-policy :
    (endpoints : List CryptoRule) (method path : String)
    → resolve_rule (policy endpoints) method path
      ≡ or_else
          (resolve_rule (from_entries default_entries) method path)
          (resolve_rule (from_entries endpoints) method path)
resolve_rule-policy endpoints method path =
    resolve_rule-append default_entries endpoints method path
