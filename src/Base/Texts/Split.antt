-- ===== src/Base/Texts/Split.antt =====
-- strings.Split at one character, strings.Join and strings.Fields.
use Prim.Native.Nat.{ℕ}
use Prim.Native.Char.{Char, code}
use Prim.Native.String
use Prim.Native.String.{String, [], ◌∷◌}
use mathlib.Core.Path.{◌≡◌, refl, sym, ap, ◌∙◌}
use mathlib.Core.Logic.{◌≢◌}
use mathlib.Core.Bool.{Bool, true, false}
use mathlib.Core.List.{List, [], ◌∷◌}
use native.Mathlib.Omega.{arith}
use text.Mathlib.TextLemmas.{nil-append, cons-append, append_cancel_left, tail-eq_of_cons-eq}
use bff_api_go_collection_ac.Base.Tests.{eqb, if◌then◌else◌}
use bff_api_go_collection_ac.Base.Texts.Trim.{is_space}

abbrev pub push_front : Char → List String → List String
push_front c [] = (c ∷ []) ∷ []
push_front c (p ∷ ps) = (c ∷ p) ∷ ps

unfoldable pub split : ℕ → String → List String
split sep [] = [] ∷ []
split sep (c ∷ s) =
    let rest = split sep s in if eqb (code c) sep then [] ∷ rest else push_front c rest

unfoldable pub join : Char → List String → String
join sep [] = []
join sep (p ∷ []) = p
join sep (p ∷ q ∷ ps) = String.◌++◌ p (sep ∷ join sep (q ∷ ps))

-- The state is the field that is being read, if one is.
abbrev pub end_field : String → List String → List String
end_field [] fs = fs
end_field (c ∷ s) fs = (c ∷ s) ∷ fs

abbrev pub fields_step : Char → List String → List String
fields_step c [] = (if is_space (code c) then [] else c ∷ []) ∷ []
fields_step c (cur ∷ fs) = if is_space (code c) then [] ∷ end_field cur fs else (c ∷ cur) ∷ fs

unfoldable pub fields_from : String → List String
fields_from [] = [] ∷ []
fields_from (c ∷ s) = fields_step c (fields_from s)

abbrev pub close_fields : List String → List String
close_fields [] = []
close_fields (cur ∷ fs) = end_field cur fs

unfoldable pub fields : String → List String
unfolding fields_from is_space
fields s = close_fields (fields_from s)

abbrev pub IsFree : ℕ → String → Type 0
IsFree sep [] = Unit
IsFree sep (c ∷ s) = (code c ≢ sep) × IsFree sep s

abbrev pub AllFree : ℕ → List String → Type 0
AllFree sep [] = Unit
AllFree sep (p ∷ ps) = IsFree sep p × AllFree sep ps

pub split_free : (sep : ℕ) (p : String) → IsFree sep p → split sep p ≡ p ∷ []
unfolding split
split_free sep [] h = refl
split_free sep (c ∷ p) (ne, h) = rw (split_free sep p h) (ground arith)

split-append :
    (sep : Char) (p s : String)
    → IsFree (code sep) p
    → split (code sep) (String.◌++◌ p (sep ∷ s)) ≡ p ∷ split (code sep) s
unfolding split
split-append sep [] s h = rw nil-append (ground arith)
split-append sep (c ∷ p) s (ne, h) = rw cons-append (rw (split-append sep p s h) (ground arith))

-- Splitting undoes joining where no part holds the separator.
pub split-join :
    (sep : Char) (p : String) (ps : List String)
    → AllFree (code sep) (p ∷ ps)
    → split (code sep) (join sep (p ∷ ps)) ≡ p ∷ ps
unfolding join
split-join sep p [] h = split_free (code sep) p h.0
split-join sep p (q ∷ ps) (h, hs) =
    split-append sep p (join sep (q ∷ ps)) h ∙ ap (λ r. p ∷ r) (split-join sep q ps hs)

head_of : List String → String
head_of [] = []
head_of (p ∷ ps) = p

-- Two joined texts that are equal have equal first parts, and equal rests.
pub join_inj :
    (sep : Char) (p q : String) (ps : List String) (p' q' : String) (ps' : List String)
    → IsFree (code sep) p
    → IsFree (code sep) p'
    → join sep (p ∷ q ∷ ps) ≡ join sep (p' ∷ q' ∷ ps')
    → (p ≡ p') × (join sep (q ∷ ps) ≡ join sep (q' ∷ ps'))
unfolding join head_of
join_inj sep p q ps p' q' ps' h h' e =
    let rest = join sep (q ∷ ps) in
    let rest' = join sep (q' ∷ ps') in
    let first : p ≡ p' =
      ap head_of (
        sym (split-append sep p rest h) ∙ ap (split (code sep)) e ∙ split-append sep p' rest' h') in
    (
      first,
      tail-eq_of_cons-eq (
          append_cancel_left p' (sep ∷ rest) (sep ∷ rest')
            (sym (ap (λ t. String.◌++◌ t (sep ∷ rest)) first) ∙ e)),
    )

fields_test : fields "  a b\tcd " ≡ "a" ∷ "b" ∷ "cd" ∷ []
unfolding fields
fields_test = refl

split_test : split b',' "a,,b" ≡ "a" ∷ "" ∷ "b" ∷ []
unfolding split
split_test = refl

abbrev pub is_free : ℕ → String → Bool
is_free sep [] = true
is_free sep (c ∷ s) = if eqb (code c) sep then false else is_free sep s

-- A test by which a concrete text is seen to be free of a character.
pub IsFree-of : (sep : ℕ) (s : String) → is_free sep s ≡ true → IsFree sep s
IsFree-of sep [] h = tt
IsFree-of sep (c ∷ s) h = (ground arith, IsFree-of sep s (ground arith))
