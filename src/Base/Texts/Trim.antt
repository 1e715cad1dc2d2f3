-- ===== src/Base/Texts/Trim.antt =====
-- strings.TrimSpace: the spaces are those of `unicode.IsSpace`.
use Prim.Native.Nat.{ℕ}
use Prim.Native.Char.{Char, code}
use Prim.Native.String.{String, [], ◌∷◌}
use mathlib.Core.Path.{◌≡◌, refl, ◌∙◌, ap}
use mathlib.Core.Bool.{Bool, true, false, ◌&&◌, ◌||◌}
use mathlib.Core.Logic.{inl, inr}
use native.Mathlib.Omega.{arith}
use bff_api_go_collection_ac.Base.Tests.{leb, eqb, if◌then◌else◌, Bool-cases}

unfoldable pub is_space : ℕ → Bool
is_space c =
    eqb c 32
    || leb 9 c && leb c 13
    || eqb c 0x85
    || eqb c 0xa0
    || eqb c 0x1680
    || leb 0x2000 c && leb c 0x200a
    || eqb c 0x2028
    || eqb c 0x2029
    || eqb c 0x202f
    || eqb c 0x205f
    || eqb c 0x3000

abbrev pub is_empty : String → Bool
is_empty [] = true
is_empty (c ∷ s) = false

unfoldable pub trim_left : String → String
trim_left [] = []
trim_left (c ∷ s) = if is_space (code c) then trim_left s else c ∷ s

-- A space is dropped if nothing but spaces stands behind it.
abbrev pub close : Char → String → String
close c r = if is_space (code c) && is_empty r then [] else c ∷ r

unfoldable pub trim_right : String → String
trim_right [] = []
trim_right (c ∷ s) = close c (trim_right s)

unfoldable pub trim_space : String → String
unfolding is_space trim_left trim_right
trim_space s = trim_right (trim_left s)

trim_left_idem : (s : String) → trim_left (trim_left s) ≡ trim_left s
unfolding trim_left
trim_left_idem [] = refl
trim_left_idem (c ∷ s) = ground (arith, trim_left_idem s)

close-trim_right : (c : Char) (r : String) → trim_right r ≡ r → trim_right (close c r) ≡ close c r
unfolding trim_right
close-trim_right c [] h = elim (Bool-cases (is_space (code c))) [
  | inl e ↦ rw e
  | inr e ↦ rw e (rw e)
]
close-trim_right c (d ∷ r) h = elim (Bool-cases (is_space (code c))) [
  | inl e ↦ rw (e, h) (rw e)
  | inr e ↦ rw (e, h) (rw e)
]

trim_right_idem : (s : String) → trim_right (trim_right s) ≡ trim_right s
unfolding trim_right
trim_right_idem [] = refl
trim_right_idem (c ∷ s) = close-trim_right c (trim_right s) (trim_right_idem s)

trim_left-close :
    (c : Char) (r : String)
    → trim_left (close c r) ≡ (if is_space (code c) then trim_left r else close c r)
unfolding trim_left
trim_left-close c [] = elim (Bool-cases (is_space (code c))) [ inl e ↦ rw e | inr e ↦ rw e (rw e) ]
trim_left-close c (d ∷ r) = elim (Bool-cases (is_space (code c))) [
  | inl e ↦ rw e (rw e)
  | inr e ↦ rw e (rw e)
]

trim_left-trim_right : (s : String) → trim_left (trim_right s) ≡ trim_right (trim_left s)
unfolding trim_left trim_right
trim_left-trim_right [] = refl
trim_left-trim_right (c ∷ s) = elim (Bool-cases (is_space (code c))) [
  | inl e ↦ rw (trim_left-close c (trim_right s), e) (trim_left-trim_right s)
  | inr e ↦ rw (trim_left-close c (trim_right s), e) (rw e refl)
]

pub trim_space_idem : (s : String) → trim_space (trim_space s) ≡ trim_space s
unfolding trim_space
trim_space_idem s =
    ap trim_right (trim_left-trim_right (trim_left s) ∙ ap trim_right (trim_left_idem s))
    ∙ trim_right_idem (trim_left s)
