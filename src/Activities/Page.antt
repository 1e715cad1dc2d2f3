-- ===== src/Activities/Page.antt =====
-- internal/interface/api/handler/activities.go: resolveActivityPage and paginateActivities.
-- Go's `int` is a 64-bit integer: `wrap` stands at each operation that can leave its range.
pub mod Bounds
pub mod Coverage
use bff_api_go_collection_ac.Base.{
  ℕ, ◌+◌, ◌-◌, ◌*◌, ◌/◌, Bool, true, false, not, Option, none, some, ltb, leb, ◌||◌, if◌then◌else◌,
}
use bff_api_go_collection_ac.Base.Ints.{ℤ, pos, negsuc, wrap, ltb_ℤ, ◌+ℤ◌, ◌-ℤ◌, ◌*ℤ◌, quot}
use bff_api_go_collection_ac.Json.{Json, null, bool, num, arr, nil, Fields, end, field, get}

pub record Page : Type 0 where
  pub page : ℤ
  pub page_size : ℤ
  pub offset : ℤ

clamp_page : ℤ → ℤ
clamp_page page = if ltb_ℤ page (pos 1) then pos 1 else page

-- A size outside 1 to 500 counts as 20.
clamp_size : ℤ → ℤ
clamp_size size = if ltb_ℤ size (pos 1) || ltb_ℤ (pos 500) size then pos 20 else size

clamp_offset : ℤ → ℤ
clamp_offset offset = if ltb_ℤ offset (pos 0) then pos 0 else offset

unfoldable pub resolve_activity_page : ℤ → ℤ → ℤ → ℤ → Bool → Page
unfolding clamp_page clamp_size clamp_offset
resolve_activity_page page page_size limit offset false =
    let p = clamp_page page in
    let s = clamp_size page_size in
    record { page = p; page_size = s; offset = wrap (wrap (p -ℤ pos 1) *ℤ s) }
resolve_activity_page page page_size limit offset true =
    let l = clamp_size limit in
    let o = clamp_offset offset in
    record { page = wrap (quot o l +ℤ pos 1); page_size = l; offset = o }

-- response["total"], by the number's type; anything else counts as 0.
total_of : Option Json → ℤ
total_of (some (num n)) = n
total_of _ = pos 0

items_of : Option Json → Json
items_of (some null) = arr nil
items_of (some v) = v
items_of none = arr nil

unfoldable pub total_pages_of : ℤ → ℤ → ℤ
total_pages_of total page_size =
    if ltb_ℤ (pos 0) page_size
    then quot (wrap (wrap (total +ℤ page_size) -ℤ pos 1)) page_size
    else pos 0

-- The nil map reads as the empty one.
response_of : Option Fields → Fields
response_of none = end
response_of (some m) = m

unfoldable pub paginate_activities : Option Fields → ℤ → ℤ → Fields
unfolding total_of items_of response_of total_pages_of get
paginate_activities response page page_size =
    let m = response_of response in
    let total = total_of (get "total" m) in
    let total_pages = total_pages_of total page_size in
    field "items" (items_of (get "items" m)) (
      field "page" (num page) (
        field "page_size" (num page_size) (
          field "total_items" (num total) (
            field "total_pages" (num total_pages) (
              field "has_next" (bool (ltb_ℤ page total_pages)) (
                field "has_previous" (bool (ltb_ℤ (pos 1) page))
                  (field "total" (num total) end)))))))
