-- ===== src/Auth/Emails/Lost.antt =====
-- An entry that the cache of addresses loses.
use bff_api_go_collection_ac.Base.{
  ℕ, suc, ◌≡◌, refl, String, true, List, [], ◌∷◌, ◌++◌, none, ◌==◌, ◌||◌, length, ltb, Bool-cases,
  inl, inr, eq_refl, arith,
}
use bff_api_go_collection_ac.Base.Maps.{Map, find, find-remove, store, remove}
use bff_api_go_collection_ac.Auth.Emails.{IdentityEmailCache, evict, put, get, set}

find-evict :
    {V : Type 0} (max : ℕ) (m : Map V) (order : List String) (k : String)
    → find k m ≡ none
    → find k (evict max m order).0 ≡ none
unfolding evict
find-evict max m [] k h = h
find-evict max m (oldest ∷ order) k h = elim (Bool-cases (ltb max (length m))) [
  | inl large ↦
      rw large (find-evict max (remove oldest m) order k (rw (find-remove, h) (ground arith)))
  | inr small ↦ rw small h
]

length-store :
    {V : Type 0} (k : String) (v : V) (m : Map V)
    → find k m ≡ none
    → length (store k v m) ≡ suc (length m)
unfolding store find
length-store k v [] h = refl
length-store k v ((j, w) ∷ m) h = elim (Bool-cases (j == k)) [
  | inl e ↦ absurd (cc (rw e at h))
  | inr e ↦ rw e (ground (arith, length-store k v m (rw e at h)))
]

put_lost :
    {V : Type 0} (m : Map V) (order : List String) (k : String) (v : V)
    → find k m ≡ none
    → find k (put (length m) m (k ∷ order) k v).0 ≡ none
unfolding put evict
put_lost m order k v missing =
    let more : ltb (length m) (length (store k v m)) ≡ true =
      ground (arith, length-store k v m missing) in
    rw (missing, more)
      (find-evict (length m) (remove k (store k v m)) (order ++ k ∷ []) k
        (rw (find-remove, eq_refl k)))

get_missing :
    (c : IdentityEmailCache) (s : String) (now : ℕ) → find s c.entries ≡ none → (get c s now).1 ≡ ""
unfolding get
get_missing c s now h = rw h (ground arith)

-- An address that has just been stored is not found again, where the cache is full and the queue
-- still begins with an earlier entry of this subject, which a look-up has dropped at its end.
pub get-set_queued :
    (c : IdentityEmailCache) (subject email : String) (rest : List String) (now later : ℕ)
    → find subject c.entries ≡ none
    → c.order ≡ subject ∷ rest
    → length c.entries ≡ c.max_entries
    → (get (set c subject email now) subject later).1 ≡ ""
unfolding set
get-set_queued c subject email rest now later missing order full =
    elim (Bool-cases (subject == "" || email == "")) [
      | inl blank ↦ rw blank (get_missing c subject later missing)
      | inr filled ↦ rw filled (
          get_missing _ subject later
            (rw (← full, order) (put_lost c.entries rest subject _ missing)))
    ]
