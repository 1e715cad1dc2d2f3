-- ===== src/Base/Maps.antt =====
-- A Go map with text keys, as a list of entries of which the first with a key counts.
use Prim.Native.String.{String}
use mathlib.Core.Path.{◌≡◌, refl, subst}
use mathlib.Core.Logic.{inl, inr}
use mathlib.Core.Option.{Option, none, some}
use mathlib.Core.List.{List, [], ◌∷◌}
use native.Mathlib.Omega.{arith}
use text.Mathlib.Text.{◌==◌}
use text.Mathlib.TextEquality.{eq_iff}
use bff_api_go_collection_ac.Base.Tests.{if◌then◌else◌, Bool-cases}
use bff_api_go_collection_ac.Base.Lists.{All}

abbrev pub Map {ℓ} : Type ℓ → Type ℓ
Map V = List (String × V)

module _ {ℓ} {V : Type ℓ} where
  unfoldable pub find : String → Map V → Option V
  find k [] = none
  find k ((j, v) ∷ m) = if j == k then some v else find k m

  unfoldable pub store : String → V → Map V → Map V
  store k v [] = (k, v) ∷ []
  store k v ((j, w) ∷ m) = if j == k then (k, v) ∷ m else (j, w) ∷ store k v m

  unfoldable pub remove : String → Map V → Map V
  remove k [] = []
  remove k ((j, v) ∷ m) = let rest = remove k m in if j == k then rest else (j, v) ∷ rest

  pub find-store :
      (k j : String) (v : V) (m : Map V)
      → find j (store k v m) ≡ (if k == j then some v else find j m)
  unfolding find store
  find-store k j v [] = refl
  find-store k j v ((i, w) ∷ m) =
      ground (arith, eq_iff k j, eq_iff i k, eq_iff i j, find-store k j v m)

  pub find-remove :
      (k j : String) (m : Map V) → find j (remove k m) ≡ (if k == j then none else find j m)
  unfolding find remove
  find-remove k j [] = ground arith
  find-remove k j ((i, w) ∷ m) =
      ground (arith, eq_iff k j, eq_iff i k, eq_iff i j, find-remove k j m)

-- What holds of every key.
module _ {ℓ κ} {V : Type ℓ} (P : String → Type κ) where
  pub Keys-store :
      (k : String) (v : V) (m : Map V) → P k → All (λ e. P e.0) m → All (λ e. P e.0) (store k v m)
  unfolding store
  Keys-store k v [] p h = (p, tt)
  Keys-store k v ((j, w) ∷ m) p (q, h) = elim (Bool-cases (j == k)) [
    | inl e ↦ rw e (p, h)
    | inr e ↦ rw e (q, Keys-store k v m p h)
  ]

  pub Keys-find : (k : String) (m : Map V) {v : V} → All (λ e. P e.0) m → find k m ≡ some v → P k
  unfolding find
  Keys-find k [] h e = cc
  Keys-find k ((j, w) ∷ m) (q, h) e = elim (Bool-cases (j == k)) [
    | inl hit ↦ subst P ((eq_iff j k).0 hit) q
    | inr miss ↦ Keys-find k m h (rw miss at e)
  ]

pub ruleset find_laws = (find-store, find-remove)
