-- ===== src/Sessions/Lifetimes.antt =====
-- How long a session is found, and that the state of a login is used at most once.
use bff_api_go_collection_ac.Base.{
  ℕ, ◌+◌, ◌^◌, ◌<◌, String, ◌≡◌, ◌≢◌, ◌∙◌, true, List, [], ◌∷◌, Option, none, some, ◌==◌,
  if◌then◌else◌, ltb, eq_refl, arith, All, Bool-cases, Option-cases, inl, inr,
}
use bff_api_go_collection_ac.Base.Ints.{ℤ, pos, wrap-pos, pos-add}
use bff_api_go_collection_ac.Base.Maps.{Map, find, find-store, find-remove}
use bff_api_go_collection_ac.Base.Texts.{eq_false_of_ne, ne_of_eq_false}
use bff_api_go_collection_ac.Sessions.{MemoryEntry, put, get, pop, remove_if_there}

module _ {ℓ} {V : Type ℓ} where
  -- A session is found for its lifetime, and not from its end on. Its id is not empty, and its end
  -- fits into an int64.
  pub get-put :
      (m : Map (MemoryEntry V)) (id : String) (v : V) (ttl now later : ℕ)
      → id ≢ ""
      → now + ttl < 2 ^ 63
      → (get (put m id v (pos ttl) now) id later).1
        ≡ (if ltb later (now + ttl) then some v else none)
  unfolding get put
  get-put m id v ttl now later h k =
      rw (eq_false_of_ne id "" h, find-store, eq_refl id, pos-add now ttl, wrap-pos (now + ttl) k)
        (ground arith)

-- The operations on the states of logins.
pub data FlowEvent {ℓ} (V : Type ℓ) : Type ℓ where
  put_event : String → V → ℤ → ℕ → FlowEvent V
  pop_event : String → ℕ → FlowEvent V

module _ {ℓ} {V : Type ℓ} where
  unfoldable pub run : Map (MemoryEntry V) → List (FlowEvent V) → Map (MemoryEntry V)
  run m [] = m
  run m (put_event id v ttl now ∷ es) = run (put m id v ttl now) es
  run m (pop_event id now ∷ es) = run (pop m id now).0 es

  -- The event does not put the state.
  abbrev pub NotPut : String → FlowEvent V → Type 0
  NotPut state (put_event id v ttl now) = id ≢ state
  NotPut state (pop_event id now) = Unit

  pub find-put_other :
      (m : Map (MemoryEntry V)) (id j : String) (v : V) (ttl : ℤ) (now : ℕ)
      → id ≢ j
      → find j (put m id v ttl now) ≡ find j m
  unfolding put
  find-put_other m id j v ttl now h = elim (Bool-cases (id == "")) [
    | inl e ↦ rw e
    | inr e ↦ rw (e, find-store, eq_false_of_ne id j h)
  ]

  find-remove_if_there :
      (o : Option (MemoryEntry V)) (id j : String) (m : Map (MemoryEntry V))
      → find j m ≡ none
      → find j (remove_if_there o id m) ≡ none
  find-remove_if_there none id j m h = h
  find-remove_if_there (some e) id j m h = rw (find-remove, h) (ground arith)

  pub find-pop :
      (m : Map (MemoryEntry V)) (id j : String) (now : ℕ)
      → find j m ≡ none
      → find j (pop m id now).0 ≡ none
  unfolding pop
  find-pop m id j now h = elim (Bool-cases (id == "")) [
    | inl e ↦ rw e h
    | inr e ↦ rw e (find-remove_if_there (find id m) id j m h)
  ]

  pub find-pop_same :
      (m : Map (MemoryEntry V)) (id : String) (now : ℕ) → id ≢ "" → find id (pop m id now).0 ≡ none
  unfolding pop
  find-pop_same m id now h = elim (Option-cases (find id m)) [
    | inl e ↦ rw (eq_false_of_ne id "" h, e) e
    | inr (v, e) ↦ rw (eq_false_of_ne id "" h, e, find-remove, eq_refl id)
  ]

  find-run :
      (m : Map (MemoryEntry V)) (state : String) (es : List (FlowEvent V))
      → All (NotPut state) es
      → find state m ≡ none
      → find state (run m es) ≡ none
  unfolding run
  find-run m state [] h e = e
  find-run m state (put_event id v ttl now ∷ es) (n, h) e =
      find-run (put m id v ttl now) state es h (find-put_other m id state v ttl now n ∙ e)
  find-run m state (pop_event id now ∷ es) (n, h) e =
      find-run (pop m id now).0 state es h (find-pop m id state now e)

  pop_blank :
      (m : Map (MemoryEntry V)) (id : String) (now : ℕ)
      → (id == "") ≡ true
      → (pop m id now).1 ≡ none
  unfolding pop
  pop_blank m id now e = rw e

  pub pop_missing :
      (m : Map (MemoryEntry V)) (id : String) (now : ℕ) → find id m ≡ none → (pop m id now).1 ≡ none
  unfolding pop
  pop_missing m id now h = rw h (ground arith)

  -- A login's state that was asked for is not given again, whatever else is put and popped,
  -- until the same state is put once more.
  pub pop-run-pop :
      (m : Map (MemoryEntry V)) (state : String) (now later : ℕ) (es : List (FlowEvent V))
      → All (NotPut state) es
      → (pop (run (pop m state now).0 es) state later).1 ≡ none
  pop-run-pop m state now later es h = elim (Bool-cases (state == "")) [
    | inl e ↦ pop_blank _ state later e
    | inr e ↦ pop_missing _ state later (
        find-run (pop m state now).0 state es h
          (find-pop_same m state now (ne_of_eq_false state "" e)))
  ]
