-- ===== src/Base/Sort.antt =====
-- sort.Strings: the texts in the order of their bytes.
use Prim.Native.Nat.{Ordering}
use Prim.Native.String.compare
use Prim.Native.String.{String, compare}
use mathlib.Core.Path.{◌≡◌}
use mathlib.Core.Bool.{Bool, true, false}
use mathlib.Core.List.{List, [], ◌∷◌, Perm}
use mathlib.Core.List.Perm
use native.Mathlib.Omega.{arith}
use bff_api_go_collection_ac.Base.Tests.{if◌then◌else◌}

abbrev pub before : String → String → Bool
before a b = elim (compare a b) [ Ordering.gt ↦ false | _ ↦ true ]

unfoldable pub insert_sorted : String → List String → List String
insert_sorted a [] = a ∷ []
insert_sorted a (b ∷ bs) =
    let rest = insert_sorted a bs in if before a b then a ∷ b ∷ bs else b ∷ rest

unfoldable pub sort_strings : List String → List String
unfolding insert_sorted
sort_strings [] = []
sort_strings (a ∷ rest) = insert_sorted a (sort_strings rest)

insert_sorted-perm : (a : String) (bs : List String) → Perm (insert_sorted a bs) (a ∷ bs)
unfolding insert_sorted
insert_sorted-perm a [] = Perm.refl _
insert_sorted-perm a (b ∷ bs) = step (before a b) (insert_sorted-perm a bs)
  where
    step :
        (t : Bool)
        → Perm (insert_sorted a bs) (a ∷ bs)
        → Perm (if t then a ∷ b ∷ bs else b ∷ insert_sorted a bs) (a ∷ b ∷ bs)
    step true p = Perm.refl _
    step false p = Perm.trans (Perm.cons b p) (Perm.swap a b bs)

pub sort_strings-perm : (xs : List String) → Perm (sort_strings xs) xs
unfolding sort_strings
sort_strings-perm [] = Perm.refl []
sort_strings-perm (a ∷ rest) =
    Perm.trans (insert_sorted-perm a (sort_strings rest)) (Perm.cons a (sort_strings-perm rest))

compare_flip : (s t : String) → compare s t ≡ Ordering.gt → compare t s ≡ Ordering.lt
compare_flip String.[] String.[] h = cc (compare.nil-nil)
compare_flip String.[] (String.◌∷◌ d t) h = cc (compare.nil-cons d t)
compare_flip (String.◌∷◌ c s) String.[] h = compare.nil-cons c s
compare_flip (String.◌∷◌ c s) (String.◌∷◌ d t) h =
    rw compare.cons-cons (ground (arith, compare_flip s t, compare.cons-cons c d s t))

before_total : (a b : String) → before a b ≡ false → before b a ≡ true
before_total a b h = ground (arith, compare_flip a b)

-- Each element comes before the next one.
abbrev pub IsSorted : List String → Type 0
IsSorted [] = Unit
IsSorted (a ∷ []) = Unit
IsSorted (a ∷ b ∷ bs) = (before a b ≡ true) × IsSorted (b ∷ bs)

insert_sorted-IsSorted :
    (a : String) (bs : List String) → IsSorted bs → IsSorted (insert_sorted a bs)
unfolding insert_sorted
insert_sorted-IsSorted a [] h = tt
insert_sorted-IsSorted a (b ∷ []) h = ground (arith, before_total a b)
insert_sorted-IsSorted a (b ∷ c ∷ bs) h =
    ground (arith, before_total a b, insert_sorted-IsSorted a (c ∷ bs))

pub sort_strings-IsSorted : (xs : List String) → IsSorted (sort_strings xs)
unfolding sort_strings
sort_strings-IsSorted [] = tt
sort_strings-IsSorted (a ∷ rest) =
    insert_sorted-IsSorted a (sort_strings rest) (sort_strings-IsSorted rest)
