-- ===== src/Json/Lookup.antt =====
-- The laws of a map: what `get` finds after each write.
use bff_api_go_collection_ac.Base.{
  String, ◌≡◌, refl, none, some, arith, ◌==◌, eq_iff, if◌then◌else◌,
}
use bff_api_go_collection_ac.Json.{Json, Fields, end, field, get, put, del}

pub get-put :
    (k j : String) (v : Json) (m : Fields)
    → get j (put k v m) ≡ (if k == j then some v else get j m)
unfolding get put
get-put k j v end = refl
get-put k j v (field i w m) = ground (arith, eq_iff k j, eq_iff i k, eq_iff i j, get-put k j v m)

pub get-del : (k j : String) (m : Fields) → get j (del k m) ≡ (if k == j then none else get j m)
unfolding get del
get-del k j end = ground arith
get-del k j (field i w m) = ground (arith, eq_iff k j, eq_iff i k, eq_iff i j, get-del k j m)

pub ruleset map_laws = (get-put, get-del)
