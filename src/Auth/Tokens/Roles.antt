-- ===== src/Auth/Tokens/Roles.antt =====
-- The role of a token.
use bff_api_go_collection_ac.Base.{
  String, ◌≡◌, ◌↔◌, ◌⊎◌, refl, ap, true, ◌==◌, List, [], ◌∷◌, ◌++◌, IsIn, All, Bool-cases, inl, inr,
  eq_iff,
}
use bff_api_go_collection_ac.Base.Texts.{ne_of_eq_false}
use bff_api_go_collection_ac.Auth.Tokens.{has, role_of, role_priority, normalize_groups}

pub has-IsIn : (s : String) (l : List String) → (has s l ≡ true) ↔ IsIn s l
has-IsIn s [] = (λ h. absurd (cc h), λ h. elim h [ ])
has-IsIn s (t ∷ l) = elim (Bool-cases (t == s)) [
  | inl e ↦ (λ h. inl ((eq_iff t s).0 e), λ h. rw e)
  | inr e ↦ (
    λ h. inr ((has-IsIn s l).0 (rw e at h)),
    λ h. rw e (elim h [
      | inl same ↦ absurd (ne_of_eq_false t s e same)
      | inr rest ↦ (has-IsIn s l).1 rest
    ]),
  )
]

-- None of the candidates is among the groups, and the role is empty; or the role is the first
-- candidate that is.
abbrev pub IsFirst : (candidates groups : List String) (role : String) → Type 0
IsFirst candidates groups role =
    (All (λ c. ¬ IsIn c groups) candidates × (role ≡ ""))
    ⊎ ((front : List String) × (back : List String) × (candidates ≡ front ++ role ∷ back)
        × All (λ c. ¬ IsIn c groups) front
        × IsIn role groups)

behind :
    (c : String) (candidates groups : List String) (role : String)
    → ¬ IsIn c groups
    → IsFirst candidates groups role
    → IsFirst (c ∷ candidates) groups role
behind c candidates groups role n (inl (none_of, e)) = inl ((n, none_of), e)
behind c candidates groups role n (inr (front, back, e, none_of, i)) =
    inr (c ∷ front, back, ap (λ l. c ∷ l) e, (n, none_of), i)

role_of-IsFirst' :
    (candidates groups : List String) → IsFirst candidates groups (role_of candidates groups)
unfolding role_of
role_of-IsFirst' [] groups = inl (tt, refl)
role_of-IsFirst' (c ∷ candidates) groups = elim (Bool-cases (has c groups)) [
  | inl e ↦ rw e (inr ([], candidates, refl, tt, (has-IsIn c groups).0 e))
  | inr e ↦ rw e (
      behind c candidates groups (role_of candidates groups)
        (λ i. absurd (cc (e, (has-IsIn c groups).1 i))) (role_of-IsFirst' candidates groups))
]

-- The role of a caller is the first in the order of the roles that is among the caller's groups,
-- as these are read without their spaces and in small letters, and none if no group is a role.
pub role_of-IsFirst :
    (raw : List String)
    → IsFirst role_priority (normalize_groups raw) (role_of role_priority (normalize_groups raw))
role_of-IsFirst raw = role_of-IsFirst' role_priority (normalize_groups raw)
