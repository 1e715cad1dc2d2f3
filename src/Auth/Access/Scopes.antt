-- ===== src/Auth/Access/Scopes.antt =====
-- What a caller may do.
use bff_api_go_collection_ac.Base.{
  ℕ, String, ◌≡◌, ◌≢◌, ◌↔◌, ◌⊎◌, refl, true, not, ◌&&◌, ◌||◌, ◌==◌, List, [], ◌∷◌, ◌++◌, IsIn, some,
  Bool-cases, Option-cases, inl, inr, eq_iff, arith,
}
use mathlib.Core.Path.{subst}
use bff_api_go_collection_ac.Base.Results.{ok}
use bff_api_go_collection_ac.Base.Texts.{
  trim_space, fields, is_space, AreWords, AreWords-of, fields-join, fields-AreWords, ne_of_eq_false,
}
use bff_api_go_collection_ac.Auth.Tokens.{
  CognitoClaims, AccessClaims, Validator, EmailCache, validate, accept, claims_of, has, role_scopes,
  role_of, role_priority, normalize_groups, group_list, valid_audience, is_empty, list_under,
  role_table, agent_scopes, supervisor_scopes, manager_scopes,
}
use bff_api_go_collection_ac.Auth.Tokens.Roles.{has-IsIn}
use bff_api_go_collection_ac.Auth.Access.{context_of, require_scope}

AreWords-append : (l k : List String) → AreWords l → AreWords k → AreWords (l ++ k)
AreWords-append [] k h j = j
AreWords-append (w ∷ l) k (p, h) j = (p, AreWords-append l k h j)

IsIn-append_iff : (s : String) (l k : List String) → IsIn s (l ++ k) ↔ (IsIn s l ⊎ IsIn s k)
IsIn-append_iff s [] k = (λ h. inr h, λ h. elim h [ inl e ↦ elim e [ ] | inr j ↦ j ])
IsIn-append_iff s (t ∷ l) k = (
  λ h. elim h [
    | inl e ↦ inl (inl e)
    | inr j ↦ elim ((IsIn-append_iff s l k).0 j) [ inl a ↦ inl (inr a) | inr b ↦ inr b ]
  ],
  λ h. elim h [
    | inl a ↦ elim a [ inl e ↦ inl e | inr j ↦ inr ((IsIn-append_iff s l k).1 (inl j)) ]
    | inr b ↦ inr ((IsIn-append_iff s l k).1 (inr b))
  ],
)

-- Every list of the table is a list of words.
abbrev RoleLists : List (String × List String) → Type 0
RoleLists [] = Unit
RoleLists ((j, l) ∷ m) = AreWords l × RoleLists m

list_under-AreWords :
    (role : String) (m : List (String × List String)) → RoleLists m → AreWords (list_under role m)
list_under-AreWords role [] h = tt
list_under-AreWords role ((j, l) ∷ m) (p, h) = elim (Bool-cases (j == role)) [
  | inl e ↦ rw e p
  | inr e ↦ rw e (list_under-AreWords role m h)
]

role_table-RoleLists : RoleLists role_table
unfolding is_space
role_table-RoleLists = (
  AreWords-of agent_scopes refl,
  (
    AreWords-of agent_scopes refl,
    (
      AreWords-of agent_scopes refl,
      (
        AreWords-of supervisor_scopes refl,
        (
          AreWords-of supervisor_scopes refl,
          (
            AreWords-of manager_scopes refl,
            (
              AreWords-of manager_scopes refl,
              (AreWords-of manager_scopes refl, (AreWords-of ("collections:read" ∷ []) refl, tt)),
            ),
          ),
        ),
      ),
    ),
  ),
)

-- The scopes of a token's claims are words.
scopes-AreWords : (scope role : String) → AreWords (fields scope ++ role_scopes role)
unfolding role_scopes
scopes-AreWords scope role =
    AreWords-append (fields scope) _ (fields-AreWords scope)
      (list_under-AreWords role role_table role_table-RoleLists)

require_scope-has :
    (claims : CognitoClaims) (required : String)
    → AreWords claims.scopes
    → (require_scope (some (context_of claims)) required ≡ ok (context_of claims))
      ↔ IsIn required claims.scopes
unfolding require_scope
require_scope-has claims required words = elim (Bool-cases (has required claims.scopes)) [
  | inl e ↦
      (λ h. (has-IsIn required claims.scopes).0 e, λ h. rw (fields-join claims.scopes words, e))
  | inr e ↦ (
    λ h. absurd (cc (rw (fields-join claims.scopes words, e) at h)),
    λ h. absurd (cc (e, (has-IsIn required claims.scopes).1 h)),
  )
]

module _ {C : Type 0} (ops : EmailCache C) (v : Validator) (cache : C) (token : String)
    (now : ℕ) where
  -- What a token that is accepted holds.
  pub record Accepted (claims : CognitoClaims) : Type 0 where
    pub read : AccessClaims
    pub parsed : v.parse now token ≡ some read
    pub access : read.token_use ≡ "access"
    pub named : trim_space read.subject ≢ ""
    pub meant : valid_audience v read ≡ true
    pub subject : claims.subject ≡ trim_space read.subject
    pub role : claims.role ≡ role_of role_priority (normalize_groups (group_list read.groups))
    pub scopes : claims.scopes ≡ fields read.scope ++ role_scopes claims.role

  accept-Accepted :
      (read : AccessClaims) (claims : CognitoClaims)
      → v.parse now token ≡ some read
      → (accept ops v cache (some read) now).1 ≡ some claims
      → Accepted claims
  accept-Accepted read claims parsed h =
      let test =
        read.token_use == "access"
        && not (trim_space read.subject == "")
        && valid_audience v read in
      elim (Bool-cases test) [
        | inr refused ↦ absurd (cc (rw refused at h))
        | inl passed ↦
            let same : (claims_of ops v cache read now).1 ≡ claims = cc (rw passed at h) in
            subst Accepted same (record {
              read = read;
              parsed = parsed;
              access = (eq_iff read.token_use "access").0 (ground arith);
              named = ne_of_eq_false (trim_space read.subject) "" (ground arith);
              meant = ground arith;
              subject = refl;
              role = refl;
              scopes = refl;
            })
      ]

  validate-Accepted :
      (claims : CognitoClaims) → (validate ops v cache token now).1 ≡ some claims → Accepted claims
  unfolding validate
  validate-Accepted claims h =
      elim (Bool-cases (v.issuer == "" || is_empty v.audiences || v.jwks_url == "")) [
        | inl off ↦ absurd (cc (rw off at h))
        | inr on ↦ elim (Option-cases (v.parse now token)) [
          | inl bad ↦ absurd (cc (rw (on, bad) at h))
          | inr (read, parsed) ↦ accept-Accepted read claims parsed (rw (on, parsed) at h)
        ]
      ]

  -- A request with a token that is accepted may do what one of the token's own scopes, or one of
  -- the scopes of its role, allows, and nothing else; the token is an access token with a subject,
  -- meant for this service, and its role is the first one in the order of the roles that its
  -- groups name.
  pub require_scope_iff :
      (claims : CognitoClaims) (required : String)
      → (validate ops v cache token now).1 ≡ some claims
      → (a : Accepted claims) × ((require_scope (some (context_of claims)) required
            ≡ ok (context_of claims))
          ↔ (IsIn required (fields a.read.scope) ⊎ IsIn required (role_scopes claims.role)))
  require_scope_iff claims required h =
      let a = validate-Accepted claims h in
      let words : AreWords claims.scopes = rw a.scopes (scopes-AreWords a.read.scope claims.role) in
      let (to, back) = require_scope-has claims required words in
      let (apart, together) =
        IsIn-append_iff required (fields a.read.scope) (role_scopes claims.role) in
      (a, (λ k. apart (rw a.scopes at (to k)), λ k. back (rw a.scopes (together k))))
