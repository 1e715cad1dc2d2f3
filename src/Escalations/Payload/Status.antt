-- ===== src/Escalations/Payload/Status.antt =====
-- The status of an escalation is brought into one form, once and for all.
use mathlib.Core.Path.{subst}
use bff_api_go_collection_ac.Base.{
  String, ◌≡◌, refl, ap, ◌∙◌, inl, inr, none, some, List, [], ◌∷◌, ◌==◌, Option-cases, Bool-cases,
  All,
}
use bff_api_go_collection_ac.Base.Texts.{
  trim_space, trim_space_idem, to_lower, to_upper, lower_char, upper_char, replace_char,
}
use bff_api_go_collection_ac.Base.Texts.Cases.{
  to_lower-to_upper, to_upper_idem, trim_space-to_upper,
}
use bff_api_go_collection_ac.Escalations.Payload.{
  lookup, escalation_status_aliases, alias_key, normalize_escalation_status,
}

-- Upper case and spaces around do not change the alias.
alias_key-to_upper : (v : String) → alias_key (to_upper (trim_space v)) ≡ alias_key v
unfolding alias_key
alias_key-to_upper v =
    ap (λ t. replace_char b' ' "_" (replace_char b'-' "_" (to_lower t)))
      (trim_space-to_upper (trim_space v) ∙ ap to_upper (trim_space_idem v))
    ∙ ap (λ t. replace_char b' ' "_" (replace_char b'-' "_" t)) (to_lower-to_upper (trim_space v))

module _ (P : String → Type 0) where
  lookup-All :
      (key : String) (table : List (String × String)) {v : String}
      → All (λ e. P e.1) table
      → lookup key table ≡ some v
      → P v
  unfolding lookup
  lookup-All key [] h e = cc
  lookup-All key ((k, w) ∷ rest) {v = v} (here, later) e = elim (Bool-cases (k == key)) [
    | inl hit ↦ let e' = rw hit at e in let same : w ≡ v = cc in subst P same here
    | inr miss ↦ lookup-All key rest later (rw miss at e)
  ]

abbrev IsNormal : String → Type 0
IsNormal v = normalize_escalation_status v ≡ v

-- Each status of the table is its own normal form.
aliases-IsNormal : All (λ e. IsNormal e.1) escalation_status_aliases
unfolding normalize_escalation_status lookup alias_key trim_space to_lower to_upper lower_char
    upper_char replace_char
aliases-IsNormal = (
  refl,
  (
    refl,
    (
      refl,
      (
        refl,
        (
          refl,
          (
            refl,
            (
              refl,
              (refl, (refl, (refl, (refl, (refl, (refl, (refl, (refl, (refl, (refl, tt)))))))))),
            ),
          ),
        ),
      ),
    ),
  ),
)

-- A value that no alias stands for is trimmed and put in upper case.
normalize_of_none :
    (v : String)
    → lookup (alias_key v) escalation_status_aliases ≡ none
    → normalize_escalation_status v ≡ to_upper (trim_space v)
unfolding normalize_escalation_status
normalize_of_none v h = rw h

normalize_of_some :
    (v : String) {s : String}
    → lookup (alias_key v) escalation_status_aliases ≡ some s
    → normalize_escalation_status v ≡ s
unfolding normalize_escalation_status
normalize_of_some v h = rw h

upper_again :
    (v : String) → to_upper (trim_space (to_upper (trim_space v))) ≡ to_upper (trim_space v)
upper_again v =
    ap to_upper (trim_space-to_upper (trim_space v) ∙ ap to_upper (trim_space_idem v))
    ∙ to_upper_idem (trim_space v)

-- To normalize a status twice is to normalize it once, whether an alias stands for it or not.
pub normalize_escalation_status_idem :
    (value : String)
    → normalize_escalation_status (normalize_escalation_status value)
      ≡ normalize_escalation_status value
normalize_escalation_status_idem value =
    elim (Option-cases (lookup (alias_key value) escalation_status_aliases)) [
      | inl missing ↦ rw (normalize_of_none value missing) (
          normalize_of_none (to_upper (trim_space value))
            (ap (λ k. lookup k escalation_status_aliases) (alias_key-to_upper value) ∙ missing)
          ∙ upper_again value)
      | inr (v, found) ↦
          rw (normalize_of_some value found) (lookup-All IsNormal _ _ aliases-IsNormal found)
    ]
