-- ===== src/Sessions/Compare.antt =====
-- The comparison in constant time.
use Prim.Native.Char.{Char, code}
use text.Mathlib.TextEquality.{Char-path}
use text.Mathlib.TextLemmas.{head-eq_of_cons-eq, tail-eq_of_cons-eq}
use Prim.Native.String.{[], ◌∷◌}
use bff_api_go_collection_ac.Base.{String, ◌≡◌, ◌↔◌, refl, true, arith}
use bff_api_go_collection_ac.Base.Texts.{trim_space}
use bff_api_go_collection_ac.Sessions.{same_chars, constant_time_equal}

cons-eq : (c d : Char) (s t : String) → code c ≡ code d → s ≡ t → c ∷ s ≡ d ∷ t
cons-eq c d s t e f = rw (Char-path c d e, f)

same_chars_iff : (s t : String) → (same_chars s t ≡ true) ↔ (s ≡ t)
unfolding same_chars
same_chars_iff [] [] = (λ h. refl, λ h. refl)
same_chars_iff [] (c ∷ t) = (λ h. absurd (cc h), λ h. absurd (cc h))
same_chars_iff (c ∷ s) [] = (λ h. absurd (cc h), λ h. absurd (cc h))
same_chars_iff (c ∷ s) (d ∷ t) =
    let (to, back) = same_chars_iff s t in
    (
      λ h. cons-eq c d s t (ground arith) (to (ground arith)),
      λ h. rw (head-eq_of_cons-eq h, back (tail-eq_of_cons-eq h)) (ground arith),
    )

-- The comparison in constant time finds two texts equal exactly if they are, up to the spaces
-- around them.
pub constant_time_equal_iff :
    (a b : String) → (constant_time_equal a b ≡ true) ↔ (trim_space a ≡ trim_space b)
unfolding constant_time_equal
constant_time_equal_iff a b = same_chars_iff (trim_space a) (trim_space b)
