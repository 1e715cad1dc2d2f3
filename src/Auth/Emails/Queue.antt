-- ===== src/Auth/Emails/Queue.antt =====
-- A map of which the queue knows every name stays within its bound.
use bff_api_go_collection_ac.Base.{
  ℕ, ◌≤◌, ◌≡◌, refl, sym, String, List, [], ◌∷◌, ◌++◌, All, All-map, IsIn, some, ◌==◌, length, ltb,
  Bool-cases, Option-cases, inl, inr, eq_iff, arith,
}
use bff_api_go_collection_ac.Base.Maps.{Map, find, store, remove}
use bff_api_go_collection_ac.Auth.Emails.{evict, put}

IsIn-append : (s : String) (l k : List String) → IsIn s l → IsIn s (l ++ k)
IsIn-append s (t ∷ l) k (inl e) = inl e
IsIn-append s (t ∷ l) k (inr h) = inr (IsIn-append s l k h)
IsIn-append s [] k h = elim h [ ]

IsIn-last : (s : String) (l : List String) → IsIn s (l ++ s ∷ [])
IsIn-last s [] = inl refl
IsIn-last s (t ∷ l) = inr (IsIn-last s l)

-- Every name of a map stands in its queue.
abbrev pub AreQueued {ℓ} : {V : Type ℓ} → Map V → List String → Type 0
AreQueued m order = All (λ e. IsIn e.0 order) m

module _ {ℓ} {V : Type ℓ} where
  remove-AreQueued :
      (k : String) (m : Map V) (order : List String)
      → AreQueued m (k ∷ order)
      → AreQueued (remove k m) order
  unfolding remove
  remove-AreQueued k [] order h = tt
  remove-AreQueued k ((j, v) ∷ m) order (inl e, h) =
      rw ((eq_iff j k).1 (sym e)) (remove-AreQueued k m order h)
  remove-AreQueued k ((j, v) ∷ m) order (inr i, h) = elim (Bool-cases (j == k)) [
    | inl e ↦ rw e (remove-AreQueued k m order h)
    | inr e ↦ rw e (i, remove-AreQueued k m order h)
  ]

  nothing_queued : (m : Map V) → AreQueued m [] → m ≡ []
  nothing_queued [] h = refl
  nothing_queued (e ∷ m) (h, hs) = elim h [ ]

  evict-le :
      (max : ℕ) (m : Map V) (order : List String)
      → AreQueued m order
      → (length (evict max m order).0 ≤ max) × AreQueued (evict max m order).0 (evict max m order).1
  unfolding evict
  evict-le max m [] h = rw (nothing_queued m h) (omega arith, tt)
  evict-le max m (oldest ∷ order) h = elim (Bool-cases (ltb max (length m))) [
    | inl large ↦
        rw large (evict-le max (remove oldest m) order (remove-AreQueued oldest m order h))
    | inr small ↦ rw small (ground arith, h)
  ]

  store-AreQueued :
      (k : String) (v : V) (m : Map V) (order : List String)
      → IsIn k order
      → AreQueued m order
      → AreQueued (store k v m) order
  unfolding store
  store-AreQueued k v [] order i h = (i, tt)
  store-AreQueued k v ((j, w) ∷ m) order i (p, h) = elim (Bool-cases (j == k)) [
    | inl e ↦ rw e (i, h)
    | inr e ↦ rw e (p, store-AreQueued k v m order i h)
  ]

  -- A name that a map has stands in its queue.
  find-AreQueued :
      (k : String) (m : Map V) (order : List String) {v : V}
      → AreQueued m order
      → find k m ≡ some v
      → IsIn k order
  unfolding find
  find-AreQueued k [] order h e = absurd (cc e)
  find-AreQueued k ((j, w) ∷ m) order (p, h) e = elim (Bool-cases (j == k)) [
    | inl same ↦ rw (← (eq_iff j k).0 same) p
    | inr other ↦ find-AreQueued k m order h (rw other at e)
  ]

  pub put-le :
      (max : ℕ) (m : Map V) (order : List String) (k : String) (v : V)
      → AreQueued m order
      → (length (put max m order k v).0 ≤ max)
        × AreQueued (put max m order k v).0 (put max m order k v).1
  unfolding put
  put-le max m order k v h = elim (Option-cases (find k m)) [
    | inl missing ↦ rw missing (
        evict-le max (store k v m) (order ++ k ∷ []) (
          store-AreQueued k v m (order ++ k ∷ []) (IsIn-last k order)
            (All-map (λ e i. IsIn-append e.0 order (k ∷ []) i) m h)))
    | inr (w, found) ↦ rw found (
        evict-le max (store k v m) order
          (store-AreQueued k v m order (find-AreQueued k m order h found) h))
  ]

  pub length-remove-le : (k : String) (m : Map V) → length (remove k m) ≤ length m
  unfolding remove
  length-remove-le k [] = omega arith
  length-remove-le k ((j, v) ∷ m) = ground (arith, length-remove-le k m)

  pub remove_fewer-AreQueued :
      (k : String) (m : Map V) (order : List String)
      → AreQueued m order
      → AreQueued (remove k m) order
  unfolding remove
  remove_fewer-AreQueued k [] order h = tt
  remove_fewer-AreQueued k ((j, v) ∷ m) order (p, h) = elim (Bool-cases (j == k)) [
    | inl e ↦ rw e (remove_fewer-AreQueued k m order h)
    | inr e ↦ rw e (p, remove_fewer-AreQueued k m order h)
  ]
