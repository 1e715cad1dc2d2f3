-- ===== src/Base/Texts/Letters.antt =====
-- strings.ToLower, strings.ToUpper and strings.ReplaceAll of one character, on ASCII letters.
use Prim.Native.Nat.{ℕ, ◌-◌}
use Prim.Native.Char.{Char, code}
use Prim.Native.String.{String, [], ◌∷◌, char_at}
use mathlib.Core.Path.{◌≡◌, refl}
use mathlib.Core.Bool.{Bool, ◌&&◌}
use bff_api_go_collection_ac.Base.Tests.{leb, eqb, if◌then◌else◌}

abbrev pub is_upper : ℕ → Bool
is_upper c = leb b'A' c && leb c b'Z'

abbrev pub is_lower : ℕ → Bool
is_lower c = leb b'a' c && leb c b'z'

unfoldable pub lower_char : Char → Char
lower_char c = if is_upper (code c) then char_at "abcdefghijklmnopqrstuvwxyz" (code c - b'A') else c

unfoldable pub upper_char : Char → Char
upper_char c = if is_lower (code c) then char_at "ABCDEFGHIJKLMNOPQRSTUVWXYZ" (code c - b'a') else c

unfoldable pub to_lower : String → String
to_lower [] = []
to_lower (c ∷ s) = lower_char c ∷ to_lower s

unfoldable pub to_upper : String → String
to_upper [] = []
to_upper (c ∷ s) = upper_char c ∷ to_upper s

unfoldable pub replace_char : ℕ → Char → String → String
replace_char old new [] = []
replace_char old new (c ∷ s) = (if eqb (code c) old then new else c) ∷ replace_char old new s

lower_test : to_lower "Ana@X.Test" ≡ "ana@x.test"
unfolding to_lower lower_char
lower_test = refl

upper_test : to_upper "in_progress é" ≡ "IN_PROGRESS é"
unfolding to_upper upper_char
upper_test = refl
