-- ===== src/Base/Texts/Words.antt =====
-- strings.Fields undoes strings.Join at spaces.
use Prim.Native.Char.{code}
use Prim.Native.String
use Prim.Native.String.{String, [], ◌∷◌}
use mathlib.Core.Path.{◌≡◌, refl, ap}
use mathlib.Core.Logic.{inl, inr}
use mathlib.Core.Bool.{Bool, true, false}
use mathlib.Core.List.{List, [], ◌∷◌}
use native.Mathlib.Omega.{arith}
use text.Mathlib.TextLemmas.{nil-append, cons-append, append-nil}
use bff_api_go_collection_ac.Base.Tests.{if◌then◌else◌, Bool-cases}
use bff_api_go_collection_ac.Base.Texts.Trim.{is_space}
use bff_api_go_collection_ac.Base.Texts.Split.{
  join, fields, fields_from, fields_step, end_field, close_fields,
}

-- A text without spaces.
abbrev pub NoSpace : String → Type 0
NoSpace [] = Unit
NoSpace (c ∷ s) = (is_space (code c) ≡ false) × NoSpace s

abbrev pub IsWord : String → Type 0
IsWord [] = ⊥
IsWord (c ∷ s) = NoSpace (c ∷ s)

abbrev pub AreWords : List String → Type 0
AreWords [] = Unit
AreWords (w ∷ ws) = IsWord w × AreWords ws

abbrev no_space : String → Bool
no_space [] = true
no_space (c ∷ s) = if is_space (code c) then false else no_space s

abbrev is_word : String → Bool
is_word [] = false
is_word (c ∷ s) = no_space (c ∷ s)

abbrev pub are_words : List String → Bool
are_words [] = true
are_words (w ∷ ws) = if is_word w then are_words ws else false

NoSpace-of : (s : String) → no_space s ≡ true → NoSpace s
NoSpace-of [] h = tt
NoSpace-of (c ∷ s) h = (ground arith, NoSpace-of s (ground arith))

IsWord-of : (s : String) → is_word s ≡ true → IsWord s
IsWord-of [] h = absurd (cc h)
IsWord-of (c ∷ s) h = NoSpace-of (c ∷ s) h

-- A test by which concrete texts are seen to be words.
pub AreWords-of : (l : List String) → are_words l ≡ true → AreWords l
AreWords-of [] h = tt
AreWords-of (w ∷ ws) h = (IsWord-of w (ground arith), AreWords-of ws (ground arith))

end_field-AreWords :
    (s : String) (fs : List String) → NoSpace s → AreWords fs → AreWords (end_field s fs)
end_field-AreWords [] fs h k = k
end_field-AreWords (c ∷ s) fs h k = (h, k)

-- The field that is being read has no spaces, and the others are words.
abbrev IsRead : List String → Type 0
IsRead [] = ⊥
IsRead (cur ∷ fs) = NoSpace cur × AreWords fs

fields_from-IsRead : (s : String) → IsRead (fields_from s)
unfolding fields_from
fields_from-IsRead [] = (tt, tt)
fields_from-IsRead (c ∷ s) = step (fields_from s) (fields_from-IsRead s)
  where
    step : (l : List String) → IsRead l → IsRead (fields_step c l)
    step [] h = elim h [ ]
    step (cur ∷ fs) (n, w) = elim (Bool-cases (is_space (code c))) [
      | inl e ↦ rw e (tt, end_field-AreWords cur fs n w)
      | inr e ↦ rw e ((e, n), w)
    ]

pub fields-AreWords : (s : String) → AreWords (fields s)
unfolding fields
fields-AreWords s = close (fields_from s) (fields_from-IsRead s)
  where
    close : (l : List String) → IsRead l → AreWords (close_fields l)
    close [] h = tt
    close (cur ∷ fs) (n, w) = end_field-AreWords cur fs n w

-- A word in front of what is read.
abbrev in_front : String → List String → List String
in_front w [] = []
in_front w (cur ∷ fs) = String.◌++◌ w cur ∷ fs

in_front_nil : (l : List String) → in_front [] l ≡ l
in_front_nil [] = refl
in_front_nil (cur ∷ fs) = rw nil-append

step-in_front :
    (c : Prim.Native.Char.Char) (w : String) (l : List String)
    → IsRead l
    → is_space (code c) ≡ false
    → fields_step c (in_front w l) ≡ in_front (c ∷ w) l
step-in_front c w [] h e = elim h [ ]
step-in_front c w (cur ∷ fs) h e = rw (e, cons-append)

fields_from-append :
    (w t : String) → NoSpace w → fields_from (String.◌++◌ w t) ≡ in_front w (fields_from t)
unfolding fields_from
fields_from-append [] t h = rw (nil-append, in_front_nil (fields_from t))
fields_from-append (c ∷ w) t (e, h) =
    rw (cons-append, fields_from-append w t h)
      (step-in_front c w (fields_from t) (fields_from-IsRead t) e)

space_first : (l : List String) → IsRead l → fields_step " " l ≡ [] ∷ close_fields l
unfolding is_space
space_first [] h = elim h [ ]
space_first (cur ∷ fs) h = refl

end_field-word : (w : String) (fs : List String) → IsWord w → end_field w fs ≡ w ∷ fs
end_field-word [] fs h = elim h [ ]
end_field-word (c ∷ w) fs h = refl

word-NoSpace : (w : String) → IsWord w → NoSpace w
word-NoSpace [] h = elim h [ ]
word-NoSpace (c ∷ w) h = h

fields_from-NoSpace : (w : String) → NoSpace w → fields_from w ≡ w ∷ []
unfolding fields_from
fields_from-NoSpace [] h = refl
fields_from-NoSpace (c ∷ w) (e, h) = rw (fields_from-NoSpace w h, e)

-- The fields of words that are joined by spaces are these words.
pub fields-join : (ws : List String) → AreWords ws → fields (join " " ws) ≡ ws
unfolding fields join fields_from
fields-join [] h = refl
fields-join (w ∷ []) (h, k) = rw (fields_from-NoSpace w (word-NoSpace w h)) (end_field-word w [] h)
fields-join (w ∷ v ∷ ws) (h, k) =
    let rest = join " " (v ∷ ws) in
    rw
      (
        fields_from-append w (" " ∷ rest) (word-NoSpace w h),
        space_first (fields_from rest) (fields_from-IsRead rest),
        append-nil,
        end_field-word w (close_fields (fields_from rest)) h,
      )
      (ap (λ l. w ∷ l) (fields-join (v ∷ ws) k))
