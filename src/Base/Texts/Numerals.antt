-- ===== src/Base/Texts/Numerals.antt =====
-- Decimal numbers as texts: they are read back, and hold nothing but digits.
use Prim.Native.Nat.{ℕ, zero, suc, ◌+◌, ◌-◌, ◌*◌, ◌/◌, ◌%◌, ◌<◌}
use Prim.Native.Char.{code}
use Prim.Native.String.{String, [], ◌∷◌}
use mathlib.Core.Path.{◌≡◌, refl, sym, ap, ◌∙◌}
use mathlib.Core.Logic.{inl, inr}
use mathlib.Core.Bool.{true}
use native.Mathlib.Omega.{arith}
use bff_api_go_collection_ac.Base.Tables.{all_below, all_below_sound}
use bff_api_go_collection_ac.Base.Tests.{eqb, ltb, ltb→lt, Bool-cases}
use bff_api_go_collection_ac.Base.Texts.Split.{IsFree}
use bff_api_go_collection_ac.Base.Texts.Decimal.{digit, digits_of, itoa}

-- strconv.Atoi on a text of digits.
unfoldable pub value_from : ℕ → String → ℕ
value_from acc [] = acc
value_from acc (c ∷ s) = value_from (acc * 10 + (code c - b'0')) s

digit_table : all_below 10 (λ d. eqb (code (digit d)) (d + b'0')) ≡ true
unfolding all_below digit
digit_table = refl

pub code-digit : (d : ℕ) → d < 10 → code (digit d) ≡ d + b'0'
code-digit d h =
    let checked = all_below_sound 10 (λ k. eqb (code (digit k)) (k + b'0')) d digit_table h in
    ground arith

value_from-digits_of :
    (fuel n : ℕ) (acc : String) → n < fuel → value_from 0 (digits_of fuel n acc) ≡ value_from n acc
unfolding digits_of value_from
value_from-digits_of zero n acc h = absurd (omega arith)
value_from-digits_of (suc fuel) n acc h = elim (Bool-cases (ltb n 10)) [
  | inl small ↦ rw small (ap (λ k. value_from k acc) (omega (arith, code-digit n (ground arith))))
  | inr large ↦ rw large (
      value_from-digits_of fuel (n / 10) (digit (n % 10) ∷ acc) (ground arith)
      ∙ ap (λ k. value_from k acc) (omega (arith, code-digit (n % 10) (omega arith))))
]

pub itoa-injective : (a b : ℕ) → itoa a ≡ itoa b → a ≡ b
unfolding itoa value_from
itoa-injective a b h =
    sym (value_from-digits_of (suc a) a "" (omega arith))
    ∙ ap (value_from 0) h
    ∙ value_from-digits_of (suc b) b "" (omega arith)

module _ (sep : ℕ) (h : b'9' < sep) where
  digits_of-IsFree :
      (fuel n : ℕ) (acc : String) → IsFree sep acc → IsFree sep (digits_of fuel n acc)
  unfolding digits_of
  digits_of-IsFree zero n acc free = free
  digits_of-IsFree (suc fuel) n acc free = elim (Bool-cases (ltb n 10)) [
    | inl small ↦
        rw small (omega (arith, ltb→lt n 10 small, code-digit n (ltb→lt n 10 small)), free)
    | inr large ↦ rw large (
        digits_of-IsFree fuel (n / 10) (digit (n % 10) ∷ acc)
          (omega (arith, code-digit (n % 10) (omega arith)), free))
  ]

  pub itoa-IsFree : (n : ℕ) → IsFree sep (itoa n)
  unfolding itoa
  itoa-IsFree n = digits_of-IsFree (suc n) n "" tt
