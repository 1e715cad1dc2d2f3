-- ===== src/FieldCrypto/Kek/Strong.antt =====
-- A key ring from the environment holds usable keys alone.
use mathlib.Core.Path.{subst}
use bff_api_go_collection_ac.Base.{
  ◌≡◌, refl, String, Bool, true, false, not, ◌||◌, ◌&&◌, ◌==◌, List, All, Option, none, some,
  is_some, length, eqb, eqb_iff, Bool-cases, inl, inr, arith,
}
use bff_api_go_collection_ac.Base.Maps.{Map, find, store}
use bff_api_go_collection_ac.Base.Results.{ok, >>=-eq-ok, guard->>-eq-ok}
use bff_api_go_collection_ac.Base.Texts.{trim_space}
use bff_api_go_collection_ac.FieldCrypto.Envelope.{Base64}
use bff_api_go_collection_ac.FieldCrypto.Digests.{canonical_b64_url_decode}
use bff_api_go_collection_ac.FieldCrypto.Stateless.{KekRing}
use bff_api_go_collection_ac.FieldCrypto.Kek.{
  all_zero, is_bootstrap_kid, assert_session_material_not_weak, all_zero_kek_b64, material,
  with_previous, new_kek_ring, kek_ring_from_env, all_kek_length, or_not_canonical,
}

-- A key of 32 bytes, not all of them zero, under a name that is no placeholder.
pub record IsUsable {Byte : Type 0} (is_zero : Byte → Bool) (kid : String) (key : List Byte)
    : Type 0 where
  pub named : is_bootstrap_kid kid ≡ false
  pub long : length key ≡ 32
  pub random : all_zero is_zero key ≡ false

not-true : (b : Bool) → not b ≡ true → b ≡ false
not-true b h = ground arith

or_false : (a b : Bool) → (a || b) ≡ false → a ≡ false
or_false a b h = ground arith

module _ {Byte : Type 0} (is_zero : Byte → Bool) (b64 : Base64 Byte) where
  -- Every entry of a map of keys is usable.
  abbrev pub AreUsable : Map (List Byte) → Type 0
  AreUsable = All (λ e. IsUsable is_zero e.0 e.1)

  material-IsUsable :
      (kid key_b64 : String) {key : List Byte}
      → material is_zero b64 kid key_b64 ≡ ok key
      → IsUsable is_zero kid key
  unfolding material assert_session_material_not_weak
  material-IsUsable kid key_b64 h =
      let (k, e, h0) =
        >>=-eq-ok (or_not_canonical is_zero b64 (canonical_b64_url_decode b64 key_b64)) _ h in
      let (done, h1, h5) =
        >>=-eq-ok (assert_session_material_not_weak is_zero b64 kid k key_b64) _ h0 in
      let (named, h2) = guard->>-eq-ok (not (is_bootstrap_kid kid)) _ _ h1 in
      let (long, h3) = guard->>-eq-ok (eqb (length k) 32) _ _ h2 in
      let (random, h4) =
        guard->>-eq-ok (not (all_zero is_zero k || trim_space key_b64 == all_zero_kek_b64)) _ _
          h3 in
      subst (IsUsable is_zero kid) (cc) (record {
        named = not-true _ named;
        long = (eqb_iff (length k) 32).0 long;
        random = or_false _ _ (not-true _ random);
      })

  store-AreUsable :
      (kid : String) (key : List Byte) (m : Map (List Byte))
      → IsUsable is_zero kid key
      → AreUsable m
      → AreUsable (store kid key m)
  unfolding store
  store-AreUsable kid key List.[] u h = (u, tt)
  store-AreUsable kid key (List.◌∷◌ (j, k) m) u (v, h) = elim (Bool-cases (j == kid)) [
    | inl e ↦ rw e (u, h)
    | inr e ↦ rw e (v, store-AreUsable kid key m u h)
  ]

  with_previous-AreUsable :
      (m : Map (List Byte)) (kid key_b64 : String) {n : Map (List Byte)}
      → with_previous is_zero b64 m kid key_b64 ≡ ok n
      → AreUsable m
      → AreUsable n
  with_previous-AreUsable m kid key_b64 h u = elim (Bool-cases (kid == "" && key_b64 == "")) [
    | inl e ↦ subst AreUsable (cc (rw e at h)) u
    | inr e ↦
        let (both, h1) = guard->>-eq-ok (not (kid == "") && not (key_b64 == "")) _ _ (rw e at h) in
        let (key, found, h2) = >>=-eq-ok (material is_zero b64 kid key_b64) _ h1 in
        subst AreUsable (cc) (store-AreUsable kid key m (material-IsUsable kid key_b64 found) u)
  ]

  found_of : (o : Option (List Byte)) → is_some o ≡ true → (key : List Byte) × (o ≡ some key)
  found_of none h = cc
  found_of (some key) h = (key, refl)

  and_true : (a b : Bool) → (a && b) ≡ true → b ≡ true
  and_true a b h = ground arith

  -- A key ring that the environment gives has a key under its active name, and every key of it,
  -- the previous one too, has 32 bytes that are not all zero, under a name that is no placeholder.
  pub kek_ring_from_env-AreUsable :
      (env : String → String) (ring : KekRing Byte)
      → kek_ring_from_env is_zero b64 env ≡ ok ring
      → ((key : List Byte) × (find ring.active ring.keys ≡ some key)) × AreUsable ring.keys
  unfolding kek_ring_from_env new_kek_ring
  kek_ring_from_env-AreUsable env ring h =
      let kid = trim_space (env "CRYPTO_SESSION_KEK_ACTIVE_KID") in
      let b = trim_space (env "CRYPTO_SESSION_KEK_ACTIVE_B64") in
      let (given, h1) = guard->>-eq-ok (not (kid == "") && not (b == "")) _ _ h in
      let (key, e, h2) = >>=-eq-ok (material is_zero b64 kid b) _ h1 in
      let (keys, f, h3) =
        >>=-eq-ok
          (with_previous is_zero b64 (List.◌∷◌ (kid, key) List.[])
            (trim_space (env "CRYPTO_SESSION_KEK_PREVIOUS_KID"))
            (trim_space (env "CRYPTO_SESSION_KEK_PREVIOUS_B64")))
          _ h2 in
      let (there, h4) = guard->>-eq-ok (not (kid == "") && is_some (find kid keys)) _ _ h3 in
      let (long, h5) = guard->>-eq-ok (all_kek_length keys) _ _ h4 in
      let usable =
        with_previous-AreUsable (List.◌∷◌ (kid, key) List.[])
          (trim_space (env "CRYPTO_SESSION_KEK_PREVIOUS_KID"))
          (trim_space (env "CRYPTO_SESSION_KEK_PREVIOUS_B64")) f (material-IsUsable kid b e, tt) in
      subst
        (λ (r : KekRing Byte).
          ((k : List Byte) × (find r.active r.keys ≡ some k)) × AreUsable r.keys)
        (cc)
        (
          found_of (find kid keys) (and_true (not (kid == "")) (is_some (find kid keys)) there),
          usable,
        )
