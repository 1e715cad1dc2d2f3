-- ===== src/Base/Texts/Equal.antt =====
-- The Boolean test on texts, where it fails.
use Prim.Native.String.{String}
use mathlib.Core.Path.{◌≡◌}
use mathlib.Core.Logic.{◌≢◌}
use mathlib.Core.Bool.{false}
use native.Mathlib.Omega.{arith}
use text.Mathlib.Text.{◌==◌}
use text.Mathlib.TextEquality.{eq_iff}

pub ne_of_eq_false : (s t : String) → (s == t) ≡ false → s ≢ t
ne_of_eq_false s t h e = ground (arith, eq_iff s t)

pub eq_false_of_ne : (s t : String) → s ≢ t → (s == t) ≡ false
eq_false_of_ne s t h = ground (arith, eq_iff s t)
