-- ===== src/Base/Texts/Decimal.antt =====
-- strconv.Itoa, and fmt's %d.
use Prim.Native.Nat.{ℕ, zero, suc, ◌/◌, ◌%◌}
use Prim.Native.Char.{Char}
use Prim.Native.String
use Prim.Native.String.{String, ◌∷◌, char_at}
use mathlib.Core.Path.{◌≡◌, refl}
use bff_api_go_collection_ac.Base.Tests.{ltb, if◌then◌else◌}
use bff_api_go_collection_ac.Base.Ints.{ℤ, pos, negsuc}

unfoldable pub digit : ℕ → Char
digit d = char_at "0123456789" d

-- The digits of n in front of a text; n / 10 has fewer rounds to go than n.
unfoldable pub digits_of : ℕ → ℕ → String → String
digits_of zero n acc = acc
digits_of (suc fuel) n acc =
    let more = digits_of fuel (n / 10) (digit (n % 10) ∷ acc) in
    if ltb n 10 then digit n ∷ acc else more

unfoldable pub itoa : ℕ → String
unfolding digits_of
itoa n = digits_of (suc n) n ""

unfoldable pub itoa_ℤ : ℤ → String
unfolding itoa
itoa_ℤ (pos n) = itoa n
itoa_ℤ (negsuc n) = String.◌++◌ "-" (itoa (suc n))

itoa_test : itoa 40960 ≡ "40960"
unfolding itoa digit
itoa_test = refl
