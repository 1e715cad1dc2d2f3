-- ===== src/Json.antt =====
-- Values of type `any`: those that `encoding/json` makes, the slices `[]string` that the program
-- puts beside them, and `map[string]any`. Numbers are the whole ones.
-- A map is a list of fields of which the first with a key counts; `del` drops them all.
pub mod Lookup
pub mod Print
use bff_api_go_collection_ac.Base.{
  ℕ, ◌+◌, String, Bool, List, [], ◌∷◌, Option, none, some, ◌==◌, if◌then◌else◌, true, false,
}
use bff_api_go_collection_ac.Base.Ints.{ℤ}

mutual
  pub data Json : Type 0 where
    null : Json
    bool : Bool → Json
    num : ℤ → Json
    str : String → Json
    texts : List String → Json
    arr : Items → Json
    obj : Fields → Json

  pub data Items : Type 0 where
    nil : Items
    cons : Json → Items → Items

  pub data Fields : Type 0 where
    end : Fields
    field : String → Json → Fields → Fields

abbrev pub items : Items → List Json
items nil = []
items (cons v vs) = v ∷ items vs

abbrev pub of_list : List Json → Items
of_list [] = nil
of_list (v ∷ vs) = cons v (of_list vs)

-- m[k], with `none` for a missing key.
unfoldable pub get : String → Fields → Option Json
get k end = none
get k (field j v m) = if j == k then some v else get k m

-- m[k] = v
unfoldable pub put : String → Json → Fields → Fields
put k v end = field k v end
put k v (field j w m) = if j == k then field k v m else field j w (put k v m)

-- delete(m, k)
unfoldable pub del : String → Fields → Fields
del k end = end
del k (field j v m) = let rest = del k m in if j == k then rest else field j v rest

abbrev pub keys : Fields → List String
keys end = []
keys (field k v m) = k ∷ keys m

abbrev pub is_null : Json → Bool
is_null null = true
is_null _ = false
