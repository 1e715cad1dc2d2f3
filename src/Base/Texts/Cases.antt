-- ===== src/Base/Texts/Cases.antt =====
-- What a change of case keeps: the spaces of a text, and its other case.
use Prim.Native.Nat.{ℕ, ◌+◌, ◌-◌, ◌<◌}
use Prim.Native.Char.{Char, code}
use Prim.Native.String.{String, [], ◌∷◌, char_at}
use mathlib.Core.Path.{◌≡◌, refl, ap, ◌∙◌, sym}
use mathlib.Core.Logic.{inl, inr}
use mathlib.Core.Bool.{Bool, true, false, not, ◌&&◌}
use native.Mathlib.Omega.{arith}
use text.Mathlib.TextEquality.{Char-path}
use bff_api_go_collection_ac.Base.Tables.{all_below, all_below_sound}
use bff_api_go_collection_ac.Base.Tests.{eqb, Bool-cases}
use bff_api_go_collection_ac.Base.Texts.Trim.{is_space, trim_left, trim_right, trim_space, close}
use bff_api_go_collection_ac.Base.Texts.Letters.{
  is_lower, lower_char, upper_char, to_lower, to_upper,
}

abbrev capital : ℕ → Char
capital k = char_at "ABCDEFGHIJKLMNOPQRSTUVWXYZ" k

-- What is checked for each letter: its other case, that it has none of its own, and no space.
abbrev letter_ok : ℕ → Bool
letter_ok k =
    eqb (code (lower_char (capital k))) (k + b'a')
    && eqb (code (upper_char (capital k))) (code (capital k))
    && not (is_space (code (capital k)))
    && not (is_space (k + b'a'))

letters_ok : all_below 26 letter_ok ≡ true
unfolding all_below lower_char upper_char is_space
letters_ok = refl

letter_facts :
    (k : ℕ)
    → k < 26
    → (code (lower_char (capital k)) ≡ k + b'a')
      × (code (upper_char (capital k)) ≡ code (capital k))
      × (is_space (code (capital k)) ≡ false)
      × (is_space (k + b'a') ≡ false)
letter_facts k h =
    let checked = all_below_sound 26 letter_ok k letters_ok h in
    (ground arith, ground arith, ground arith, ground arith)

-- The facts of a small letter, by its position in the alphabet.
module _ (c : Char) (low : is_lower (code c) ≡ true) where
  position : ℕ
  position = code c - b'a'

  position_lem : position + b'a' ≡ code c
  unfolding position
  position_lem = ground arith

  upper_char_lem : upper_char c ≡ capital position
  unfolding upper_char position
  upper_char_lem = rw low

  facts :
      (lower_char (upper_char c) ≡ c)
      × (upper_char (upper_char c) ≡ upper_char c)
      × (is_space (code (upper_char c)) ≡ false)
      × (is_space (code c) ≡ false)
  facts =
      let (back, again, plain, space) = letter_facts position (unfold position in ground arith) in
      rw upper_char_lem
        (Char-path _ c (back ∙ position_lem), Char-path _ _ again, plain, rw (← position_lem) space)

lower_char_of_low : (c : Char) → is_lower (code c) ≡ true → lower_char c ≡ c
unfolding lower_char
lower_char_of_low c low = ground arith

upper_char_of_other : (c : Char) → is_lower (code c) ≡ false → upper_char c ≡ c
unfolding upper_char
upper_char_of_other c other = rw other

lower_char-upper_char : (c : Char) → lower_char (upper_char c) ≡ lower_char c
lower_char-upper_char c = elim (Bool-cases (is_lower (code c))) [
  | inl low ↦ (facts c low).0 ∙ sym (lower_char_of_low c low)
  | inr other ↦ ap lower_char (upper_char_of_other c other)
]

upper_char_idem : (c : Char) → upper_char (upper_char c) ≡ upper_char c
upper_char_idem c = elim (Bool-cases (is_lower (code c))) [
  | inl low ↦ (facts c low).1
  | inr other ↦ ap upper_char (upper_char_of_other c other)
]

is_space-upper_char : (c : Char) → is_space (code (upper_char c)) ≡ is_space (code c)
is_space-upper_char c = elim (Bool-cases (is_lower (code c))) [
  | inl low ↦ (facts c low).2 ∙ sym (facts c low).3
  | inr other ↦ ap (λ d. is_space (code d)) (upper_char_of_other c other)
]

pub to_lower-to_upper : (s : String) → to_lower (to_upper s) ≡ to_lower s
unfolding to_lower to_upper
to_lower-to_upper [] = refl
to_lower-to_upper (c ∷ s) = cc (lower_char-upper_char c, to_lower-to_upper s)

pub to_upper_idem : (s : String) → to_upper (to_upper s) ≡ to_upper s
unfolding to_upper
to_upper_idem [] = refl
to_upper_idem (c ∷ s) = cc (upper_char_idem c, to_upper_idem s)

trim_left-to_upper : (s : String) → trim_left (to_upper s) ≡ to_upper (trim_left s)
unfolding trim_left to_upper
trim_left-to_upper [] = refl
trim_left-to_upper (c ∷ s) = elim (Bool-cases (is_space (code c))) [
  | inl e ↦ rw (is_space-upper_char c, e) (trim_left-to_upper s)
  | inr e ↦ rw (is_space-upper_char c, e) refl
]

to_upper-close : (c : Char) (r : String) → close (upper_char c) (to_upper r) ≡ to_upper (close c r)
unfolding to_upper
to_upper-close c [] = elim (Bool-cases (is_space (code c))) [
  | inl e ↦ rw (is_space-upper_char c, e)
  | inr e ↦ rw (is_space-upper_char c, e)
]
to_upper-close c (d ∷ r) = elim (Bool-cases (is_space (code c))) [
  | inl e ↦ rw (is_space-upper_char c, e)
  | inr e ↦ rw (is_space-upper_char c, e)
]

trim_right-to_upper : (s : String) → trim_right (to_upper s) ≡ to_upper (trim_right s)
unfolding trim_right to_upper
trim_right-to_upper [] = refl
trim_right-to_upper (c ∷ s) =
    ap (close (upper_char c)) (trim_right-to_upper s) ∙ to_upper-close c (trim_right s)

pub trim_space-to_upper : (s : String) → trim_space (to_upper s) ≡ to_upper (trim_space s)
unfolding trim_space
trim_space-to_upper s = ap trim_right (trim_left-to_upper s) ∙ trim_right-to_upper (trim_left s)
