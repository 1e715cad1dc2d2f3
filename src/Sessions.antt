-- ===== src/Sessions.antt =====
-- internal/infrastructure/session/redis_store.go: the stores in memory. Times are the seconds of
-- Unix time, as int64; the wrap-around of the sum is written out.
pub mod Lifetimes
pub mod Compare
use bff_api_go_collection_ac.Base.{
  ℕ, String, Bool, true, false, List, [], ◌∷◌, Option, none, some, ◌==◌, if◌then◌else◌,
}
use bff_api_go_collection_ac.Base.Ints.{ℤ, pos, wrap, ltb_ℤ, ◌+ℤ◌}
use bff_api_go_collection_ac.Base.Maps.{Map, find, store, remove}
use bff_api_go_collection_ac.Base.Texts.{trim_space}
use Prim.Native.Char.{code}
use Prim.Native.String.{[], ◌∷◌}
use bff_api_go_collection_ac.Base.{eqb, ◌&&◌}

pub record SessionPayload : Type 0 where
  pub sub : String
  pub access_token : String
  pub access_expires_at : ℤ
  pub refresh_token : String
  pub refresh_expires_at : ℤ
  pub csrf_token : String
  pub id_token : Option String

pub record FlowState : Type 0 where
  pub code_verifier : String
  pub nonce : String
  pub return_to : String
  pub created_at : ℤ

-- memoryEntry and memoryFlowEntry: a value, and when it ends.
pub record MemoryEntry {ℓ} (V : Type ℓ) : Type ℓ where
  pub value : V
  pub expires_at : ℤ

module _ {ℓ} {V : Type ℓ} where
  abbrev is_live : MemoryEntry V → (now : ℕ) → Bool
  is_live e now = ltb_ℤ (pos now) e.expires_at

  -- Put: a blank key is ignored.
  unfoldable pub put :
      Map (MemoryEntry V) → String → V → (ttl_seconds : ℤ) → (now : ℕ) → Map (MemoryEntry V)
  put m id v ttl_seconds now =
      if id == ""
      then m
      else store id (record { value = v; expires_at = wrap (pos now +ℤ ttl_seconds) }) m

  abbrev value_if_live : Option (MemoryEntry V) → (now : ℕ) → Option V
  value_if_live none now = none
  value_if_live (some e) now = if is_live e now then some e.value else none

  -- An entry that has ended is deleted when it is asked for.
  abbrev pub drop_if_ended :
      Option (MemoryEntry V) → String → (now : ℕ) → Map (MemoryEntry V) → Map (MemoryEntry V)
  drop_if_ended none id now m = m
  drop_if_ended (some e) id now m = if is_live e now then m else remove id m

  -- Store.Get
  unfoldable pub get : Map (MemoryEntry V) → String → (now : ℕ) → Map (MemoryEntry V) × Option V
  get m id now =
      if id == ""
      then (m, none)
      else (drop_if_ended (find id m) id now m, value_if_live (find id m) now)

  -- Store.Delete
  unfoldable pub delete : Map (MemoryEntry V) → String → Map (MemoryEntry V)
  delete m id = if id == "" then m else remove id m

  abbrev remove_if_there :
      Option (MemoryEntry V) → String → Map (MemoryEntry V) → Map (MemoryEntry V)
  remove_if_there none id m = m
  remove_if_there (some e) id m = remove id m

  -- FlowStateStore.Pop: the entry is deleted whether it has ended or not.
  unfoldable pub pop : Map (MemoryEntry V) → String → (now : ℕ) → Map (MemoryEntry V) × Option V
  pop m id now =
      if id == ""
      then (m, none)
      else (remove_if_there (find id m) id m, value_if_live (find id m) now)

-- The loop of ConstantTimeEqual: no position differs.
same_chars : String → String → Bool
same_chars [] [] = true
same_chars (c ∷ s) (d ∷ t) = let rest = same_chars s t in eqb (code c) (code d) && rest
same_chars _ _ = false

-- ConstantTimeEqual: the exclusive or of the bytes is 0 where no position differs, and texts of
-- different lengths are different.
unfoldable pub constant_time_equal : String → String → Bool
unfolding same_chars
constant_time_equal a b = same_chars (trim_space a) (trim_space b)
