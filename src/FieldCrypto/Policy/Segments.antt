-- ===== src/FieldCrypto/Policy/Segments.antt =====
-- Which paths a pattern with one token stands for.
use Prim.Native.Char.{Char, code}
use Prim.Native.String
use Prim.Native.String.{[], ◌∷◌}
use mathlib.Core.List.{List}
use text.Mathlib.TextLemmas.{nil-append, cons-append}
use text.Mathlib.TextEquality.{Char-path}
use bff_api_go_collection_ac.Base.{
  String, true, false, ◌++◌, ◌≡◌, ◌≢◌, ◌↔◌, refl, sym, ap, ◌∙◌, arith, Bool-cases, inl, inr, eqb,
  eqb_iff, not, ◌&&◌, if◌then◌else◌,
}
use bff_api_go_collection_ac.Base.Texts.{IsFree}
use bff_api_go_collection_ac.FieldCrypto.Policy.{
  Piece, lit, segment, closes, is_token, compile_from, compile_path_pattern, matches,
}

-- The pieces of a text that is taken as it stands.
lits : String → List Piece
lits [] = List.[]
lits (c ∷ s) = List.◌∷◌ (lit c) (lits s)

compile-plain :
    (pre rest : String)
    → IsFree b'{' pre
    → compile_from false (String.◌++◌ pre rest) ≡ lits pre ++ compile_from false rest
unfolding compile_from lits
compile-plain [] rest h = rw nil-append
compile-plain (c ∷ pre) rest (ne, h) =
    rw cons-append (rw (not_brace) (ap (List.◌∷◌ (lit c)) (compile-plain pre rest h)))
  where
    not_brace : eqb (code c) b'{' ≡ false
    not_brace = ground arith

closes-name :
    (name post : String)
    → IsFree b'/' name
    → IsFree b'}' name
    → closes (String.◌++◌ name ("}" ∷ post)) ≡ true
closes-name [] post h k = rw nil-append
closes-name (c ∷ name) post (h, hs) (k, ks) =
    rw cons-append (ground (arith, closes-name name post hs ks))

compile-inside :
    (name post : String)
    → IsFree b'}' name
    → compile_from true (String.◌++◌ name ("}" ∷ post)) ≡ compile_from false post
unfolding compile_from
compile-inside [] post h = rw nil-append
compile-inside (c ∷ name) post (k, ks) = rw cons-append (
    ap (λ b. compile_from (not b) (String.◌++◌ name ("}" ∷ post))) not_brace
    ∙ compile-inside name post ks)
  where
    not_brace : eqb (code c) b'}' ≡ false
    not_brace = ground arith

-- A text that is taken as it stands stands for itself.
matches-lits :
    (pre : String) (ps : List Piece) (s : String)
    → matches (lits pre ++ ps) s ≡ true
    → (rest : String) × (s ≡ String.◌++◌ pre rest) × (matches ps rest ≡ true)
unfolding lits matches
matches-lits [] ps s h = (s, sym (nil-append s), h)
matches-lits (d ∷ pre) ps [] h = absurd (cc h)
matches-lits (d ∷ pre) ps (c ∷ s) h = elim (Bool-cases (eqb (code c) (code d))) [
  | inl same ↦
      let (rest, whole, tail) = matches-lits pre ps s (rw same at h) in
      (
        rest,
        ap (λ t. c ∷ t) whole
            ∙ ap (λ e. e ∷ String.◌++◌ pre rest)
                (Char-path c d ((eqb_iff (code c) (code d)).0 same))
            ∙ sym (cons-append d pre rest),
        tail,
      )
  | inr other ↦ absurd (cc (rw other at h))
]

lits-matches :
    (pre : String) (ps : List Piece) (rest : String)
    → matches ps rest ≡ true
    → matches (lits pre ++ ps) (String.◌++◌ pre rest) ≡ true
unfolding lits matches
lits-matches [] ps rest h = rw nil-append h
lits-matches (d ∷ pre) ps rest h =
    rw cons-append (rw (lits-matches pre ps rest h) (ground (arith, eqb_iff (code d) (code d))))

matches-lits_whole : (post s : String) → matches (lits post) s ≡ true → s ≡ post
unfolding lits matches
matches-lits_whole [] [] h = refl
matches-lits_whole [] (c ∷ s) h = absurd (cc h)
matches-lits_whole (d ∷ post) [] h = absurd (cc h)
matches-lits_whole (d ∷ post) (c ∷ s) h = elim (Bool-cases (eqb (code c) (code d))) [
  | inl same ↦
      ap (λ t. c ∷ t) (matches-lits_whole post s (rw same at h))
      ∙ ap (λ e. e ∷ post) (Char-path c d ((eqb_iff (code c) (code d)).0 same))
  | inr other ↦ absurd (cc (rw other at h))
]

lits_whole-matches : (post : String) → matches (lits post) post ≡ true
unfolding lits matches
lits_whole-matches [] = refl
lits_whole-matches (d ∷ post) =
    rw (lits_whole-matches post) (ground (arith, eqb_iff (code d) (code d)))

-- A segment of a path: not empty, and without a slash.
pub record IsSegment (s : String) : Type 0 where
  pub filled : s ≢ ""
  pub free : IsFree b'/' s

cons_filled : (c : Char) (s : String) → (c ∷ s) ≢ ""
cons_filled c s e = cc

matches-segment :
    (ps : List Piece) (s : String)
    → matches (List.◌∷◌ segment ps) s ≡ true
    → (part rest : String) × (s ≡ String.◌++◌ part rest) × IsSegment part × (matches ps rest ≡ true)
unfolding matches
matches-segment ps [] h = absurd (cc h)
matches-segment ps (c ∷ s) h = elim (Bool-cases (eqb (code c) b'/')) [
  | inl slash ↦ absurd (cc (rw slash at h))
  | inr plain ↦ elim (Bool-cases (matches ps s)) [
    | inl stops ↦ (
      c ∷ [],
      s,
      ap (λ t. c ∷ t) (sym (nil-append s)) ∙ sym (cons-append c [] s),
      record { filled = cons_filled c []; free = (ground arith, tt) },
      stops,
    )
    | inr goes ↦
        let (part, rest, whole, seg, tail) = matches-segment ps s (rw goes at (rw plain at h)) in
        (
          c ∷ part,
          rest,
          ap (λ t. c ∷ t) whole ∙ sym (cons-append c part rest),
          record { filled = cons_filled c part; free = (ground arith, seg.free) },
          tail,
        )
  ]
]

segment-matches :
    (ps : List Piece) (part rest : String)
    → IsSegment part
    → matches ps rest ≡ true
    → matches (List.◌∷◌ segment ps) (String.◌++◌ part rest) ≡ true
unfolding matches
segment-matches ps [] rest seg h = absurd (seg.filled refl)
segment-matches ps (c ∷ []) rest seg h =
    rw cons-append (rw (nil-append rest, h) (ground (arith, seg.free)))
segment-matches ps (c ∷ d ∷ part) rest seg h =
    let tail : IsSegment (d ∷ part) = record { filled = cons_filled d part; free = seg.free.1 } in
    rw cons-append (rw (segment-matches ps (d ∷ part) rest tail h) (ground (arith, seg.free)))

compile-lits : (post : String) → IsFree b'{' post → compile_path_pattern post ≡ lits post
unfolding compile_from lits
compile-lits [] h = refl
compile-lits (c ∷ post) (ne, h) =
    ap (λ b. List.◌∷◌ (if b then segment else lit c) (compile_from b post)) not_token
    ∙ ap (List.◌∷◌ (lit c)) (compile-lits post h)
  where
    not_token : (eqb (code c) b'{' && is_token post) ≡ false
    not_token = ground arith

is_token-name :
    (name post : String)
    → name ≢ ""
    → IsFree b'/' name
    → IsFree b'}' name
    → is_token (String.◌++◌ name ("}" ∷ post)) ≡ true
is_token-name [] post filled h k = absurd (filled refl)
is_token-name (c ∷ name) post filled (h, hs) (k, ks) =
    rw cons-append (ground (arith, closes-name name post hs ks))

-- A pattern with one token: the text in front of it, its name, and the text behind it.
abbrev pub pattern_of : (pre name post : String) → String
pattern_of pre name post = String.◌++◌ pre ("{" ∷ String.◌++◌ name ("}" ∷ post))

module _ (pre name post : String) (open_pre : IsFree b'{' pre) (open_post : IsFree b'{' post)
    (filled : name ≢ "") (plain : IsFree b'/' name) (closed : IsFree b'}' name) where
  abbrev tail_pieces : List Piece
  tail_pieces = List.◌∷◌ segment (lits post)

  compile-token : compile_from false ("{" ∷ String.◌++◌ name ("}" ∷ post)) ≡ tail_pieces
  unfolding compile_from
  compile-token =
      ap
        (λ b.
          List.◌∷◌ (if b then segment else lit "{")
            (compile_from b (String.◌++◌ name ("}" ∷ post))))
        (is_token-name name post filled plain closed)
      ∙ ap (List.◌∷◌ segment) (compile-inside name post closed ∙ compile-lits post open_post)

  compile-pattern : compile_path_pattern (pattern_of pre name post) ≡ lits pre ++ tail_pieces
  compile-pattern = compile-plain pre _ open_pre ∙ ap (λ ps. lits pre ++ ps) compile-token

  -- The pattern of a path with one token, in which the texts around the token hold no brace,
  -- matches exactly the paths that have one segment in the token's place: a text that is not empty
  -- and holds no slash.
  pub matches-pattern_iff :
      (path : String)
      → (matches (compile_path_pattern (pattern_of pre name post)) path ≡ true)
        ↔ ((part : String) × IsSegment part × (path ≡ String.◌++◌ pre (String.◌++◌ part post)))
  matches-pattern_iff path = (
    λ h.
        let (rest, whole, tail) = matches-lits pre tail_pieces path (rw compile-pattern at h) in
        let (part, last, split, seg, end) = matches-segment (lits post) rest tail in
        (
          part,
          seg,
          whole
              ∙ ap (String.◌++◌ pre)
                  (split ∙ ap (String.◌++◌ part) (matches-lits_whole post last end)),
        ),
    λ w.
        rw (compile-pattern, w.2)
          (lits-matches pre tail_pieces _
            (segment-matches (lits post) w.0 post w.1 (lits_whole-matches post))),
  )
