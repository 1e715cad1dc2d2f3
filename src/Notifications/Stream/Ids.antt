-- ===== src/Notifications/Stream/Ids.antt =====
-- Which ids of events a stream reads.
use Prim.Native.Nat.{zero, ◌/◌, ◌%◌}
use Prim.Native.Char.{Char, code}
use Prim.Native.String
use Prim.Native.String.{[], ◌∷◌}
use text.Mathlib.TextLemmas.{nil-append, cons-append}
use bff_api_go_collection_ac.Base.{
  ℕ, suc, ◌+◌, ◌*◌, ◌<◌, ◌≡◌, ◌≢◌, refl, ◌∙◌, ap, String, Option, none, some, ltb, eqb, ltb→lt,
  if◌then◌else◌, Bool-cases, inl, inr, arith,
}
use bff_api_go_collection_ac.Base.Ints.{pos}
use bff_api_go_collection_ac.Base.Texts.Decimal.{digit, digits_of, itoa}
use bff_api_go_collection_ac.Base.Texts.Numerals.{code-digit}
use bff_api_go_collection_ac.Json.{num, Fields, get}
use bff_api_go_collection_ac.Json.Print.{sprint, sprint_number, sprint_size}
use bff_api_go_collection_ac.Notifications.Stream.{
  digits_from, digit_of, atoi_nonneg, event_id_of, in_range, unsigned,
}

digit_of-digit : (a d : ℕ) → d < 10 → digit_of (digit d) (some a) ≡ some (10 * a + d)
digit_of-digit a d h = rw (code-digit d h) (ground arith)

digits_from-digits_of :
    (fuel n : ℕ) (acc : String)
    → n < fuel
    → digits_from (digits_of fuel n acc) (some 0) ≡ digits_from acc (some n)
unfolding digits_of digits_from
digits_from-digits_of zero n acc h = absurd (omega arith)
digits_from-digits_of (suc fuel) n acc h = elim (Bool-cases (ltb n 10)) [
  | inl small ↦ rw small (
      ap (digits_from acc)
        (digit_of-digit 0 n (ltb→lt n 10 small) ∙ ap (λ (k : ℕ). some k) (omega arith)))
  | inr large ↦ rw large (
      digits_from-digits_of fuel (n / 10) (digit (n % 10) ∷ acc) (ground arith)
      ∙ ap (digits_from acc)
          (digit_of-digit (n / 10) (n % 10) (omega arith) ∙ ap (λ (k : ℕ). some k) (omega arith)))
]

digits_from-none : (s : String) → digits_from s none ≡ none
unfolding digits_from
digits_from-none [] = refl
digits_from-none (c ∷ s) = digits_from-none s

-- A text with an e in it is no number.
digits_from-exponent :
    (s t : String) (acc : Option ℕ) → digits_from (String.◌++◌ s (String.◌++◌ "e+" t)) acc ≡ none
unfolding digits_from
digits_from-exponent [] t none = digits_from-none (String.◌++◌ "" (String.◌++◌ "e+" t))
digits_from-exponent [] t (some n) =
    rw (nil-append, cons-append) (digits_from-none (String.◌++◌ "+" t))
digits_from-exponent (c ∷ s) t acc = rw cons-append (digits_from-exponent s t (digit_of c acc))

unsigned-exponent : (s t : String) → unsigned (String.◌++◌ s (String.◌++◌ "e+" t)) ≡ none
unfolding digits_from
unsigned-exponent [] t = rw (nil-append, cons-append) (digits_from-none (String.◌++◌ "+" t))
unsigned-exponent (c ∷ s) t = rw cons-append (digits_from-exponent s t (digit_of c (some 0)))

atoi_nonneg-exponent : (s t : String) → atoi_nonneg (String.◌++◌ s (String.◌++◌ "e+" t)) ≡ none
unfolding atoi_nonneg digits_from
atoi_nonneg-exponent [] t = rw (nil-append, cons-append, digits_from-none (String.◌++◌ "+" t)) refl
atoi_nonneg-exponent (c ∷ s) t =
    rw (cons-append, unsigned-exponent s t, digits_from-exponent s t _) (ground arith)

atoi_nonneg-some :
    (s : String) (n : ℕ)
    → s ≢ ""
    → digits_from s (some 0) ≡ some n
    → atoi_nonneg s ≡ in_range (some n)
unfolding atoi_nonneg digits_from
atoi_nonneg-some [] n given h = absurd (given refl)
atoi_nonneg-some (c ∷ s) n given h =
    let read : digits_from s (digit_of c (some 0)) ≡ some n = h in
    elim (Bool-cases (eqb (code c) 43)) [
      | inl plus ↦
          let bad : digit_of c (some 0) ≡ none = ground arith in
          absurd (cc (digits_from-none s, rw bad at read))
      | inr other ↦ elim (Bool-cases (eqb (code c) 45)) [
        | inl minus ↦
            let bad : digit_of c (some 0) ≡ none = ground arith in
            absurd (cc (digits_from-none s, rw bad at read))
        | inr digits ↦ rw (other, digits) (ap in_range read)
      ]
    ]

digits_of-given : (fuel n : ℕ) (c : Char) (acc : String) → digits_of fuel n (c ∷ acc) ≢ ""
unfolding digits_of
digits_of-given zero n c acc = λ e. cc
digits_of-given (suc fuel) n c acc = elim (Bool-cases (ltb n 10)) [
  | inl small ↦ rw small (λ e. cc)
  | inr large ↦ rw large (digits_of-given fuel (n / 10) (digit (n % 10)) (c ∷ acc))
]

itoa-given : (n : ℕ) → itoa n ≢ ""
unfolding itoa digits_of
itoa-given n = elim (Bool-cases (ltb n 10)) [
  | inl small ↦ rw small (λ e. cc)
  | inr large ↦ rw large (digits_of-given n (n / 10) (digit (n % 10)) "")
]

-- An event is known by a number under `event_id` that is below 10 ^ 6, and by none from there on:
-- fmt prints it with an exponent then, which strconv.Atoi does not read.
pub event_id_of-num :
    (event : Fields) (n : ℕ)
    → get "event_id" event ≡ some (num (pos n))
    → event_id_of event ≡ (if ltb n 1_000_000 then some n else none)
unfolding event_id_of sprint sprint_number sprint_size digits_from
event_id_of-num event n h = elim (Bool-cases (ltb n 1_000_000)) [
  | inl small ↦
      rw (h, small)
        (atoi_nonneg-some (itoa n) n (itoa-given n)
            (unfold itoa in digits_from-digits_of (suc n) n "" (omega arith))
          ∙ ground arith)
  | inr large ↦ rw (h, large) (atoi_nonneg-exponent _ _)
]
