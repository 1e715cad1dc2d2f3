-- ===== src/Json/Print.antt =====
-- fmt.Sprint of a value of type `any` that encoding/json has read. A number is a float64, which Go
-- prints with the fewest digits that tell it apart, and with an exponent from 10 ^ 6 on; up to
-- 2 ^ 53, from where on a float64 does not hold each whole number, those digits are its own. A map
-- prints in the order of its keys.
use Prim.Native.Char.{code}
use Prim.Native.String
use Prim.Native.String.{[], ◌∷◌, len}
use bff_api_go_collection_ac.Base.{
  ℕ, suc, ◌-◌, ◌≡◌, refl, String, true, false, ◌&&◌, ◌==◌, List, map, eqb, ltb, if◌then◌else◌,
}
use bff_api_go_collection_ac.Base.Ints.{ℤ, pos, negsuc}
use bff_api_go_collection_ac.Base.Sort.{before}
use bff_api_go_collection_ac.Base.Texts.{join}
use bff_api_go_collection_ac.Base.Texts.Decimal.{itoa, digits_of, digit}
use bff_api_go_collection_ac.Json.{
  Json, null, bool, num, str, texts, arr, obj, Items, nil, cons, Fields, end, field,
}

infixr 65 ◌+++◌
abbrev ◌+++◌ : String → String → String
s +++ t = String.◌++◌ s t

unfoldable pub insert_entry : String → String → List (String × String) → List (String × String)
insert_entry k v List.[] = List.◌∷◌ (k, v) List.[]
insert_entry k v (List.◌∷◌ (j, w) es) =
    let rest = insert_entry k v es in
    if before k j then List.◌∷◌ (k, v) (List.◌∷◌ (j, w) es) else List.◌∷◌ (j, w) rest

abbrev entry : String × String → String
entry (k, v) = k +++ ":" +++ v

-- A text of digits without the zeros at its end.
unfoldable pub trim_zeros : String → String
trim_zeros [] = []
trim_zeros (c ∷ s) =
    let rest = trim_zeros s in if eqb (code c) b'0' && rest == "" then [] else c ∷ rest

abbrev fraction : String → String
fraction s = if s == "" then "" else "." +++ s

abbrev mantissa : String → String
mantissa [] = []
mantissa (c ∷ s) = c ∷ fraction (trim_zeros s)

abbrev two_digits : ℕ → String
two_digits n = if ltb n 10 then "0" +++ itoa n else itoa n

-- The number whose digits are a text, with an exponent.
abbrev pub with_exponent : String → String
with_exponent digits = mantissa digits +++ "e+" +++ two_digits (len digits - 1)

-- %v of a float64 that is a whole number, without its sign.
unfoldable pub sprint_size : ℕ → String
sprint_size n = if ltb n 1_000_000 then itoa n else with_exponent (itoa n)

unfoldable pub sprint_number : ℤ → String
sprint_number (pos n) = sprint_size n
sprint_number (negsuc n) = "-" +++ sprint_size (suc n)

unfoldable mutual
  pub sprint : Json → String
  sprint null = "<nil>"
  sprint (bool true) = "true"
  sprint (bool false) = "false"
  sprint (num n) = sprint_number n
  sprint (str s) = s
  sprint (texts l) = "[" +++ join " " l +++ "]"
  sprint (arr vs) = "[" +++ join " " (sprint_items vs) +++ "]"
  sprint (obj m) = "map[" +++ join " " (map entry (sprint_fields m)) +++ "]"

  pub sprint_items : Items → List String
  sprint_items nil = List.[]
  sprint_items (cons v vs) = List.◌∷◌ (sprint v) (sprint_items vs)

  pub sprint_fields : Fields → List (String × String)
  sprint_fields end = List.[]
  sprint_fields (field k v m) = insert_entry k (sprint v) (sprint_fields m)

large_test : sprint (num (pos 1_230_000)) ≡ "1.23e+06"
unfolding sprint sprint_number sprint_size trim_zeros itoa digits_of digit
large_test = refl

million_test : sprint (num (negsuc 999_999)) ≡ "-1e+06"
unfolding sprint sprint_number sprint_size trim_zeros itoa digits_of digit
million_test = refl

small_test : sprint (num (pos 999_999)) ≡ "999999"
unfolding sprint sprint_number sprint_size itoa digits_of digit
small_test = refl
