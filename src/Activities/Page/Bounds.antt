-- ===== src/Activities/Page/Bounds.antt =====
-- The page that a request asks for: its bounds, its offset, and where the offset overflows.
use bff_api_go_collection_ac.Base.{
  ℕ, ◌+◌, ◌-◌, ◌*◌, ◌/◌, ◌^◌, ◌≤◌, ◌<◌, ◌≡◌, ap, ◌∙◌, true, false, arith,
}
use bff_api_go_collection_ac.Base.Ints.{
  ℤ, pos, negsuc, wrap, ◌-ℤ◌, ◌*ℤ◌, wrap-pos, pos-add, pos-sub, pos-mul, pos-quot,
}
use bff_api_go_collection_ac.Activities.Page.{
  Page, clamp_page, clamp_size, clamp_offset, resolve_activity_page,
}

clamp_page_lem : (n : ℕ) → clamp_page (pos (n + 1)) ≡ pos (n + 1)
unfolding clamp_page
clamp_page_lem n = ground arith

clamp_size_lem : (s : ℕ) → 1 ≤ s → s ≤ 500 → clamp_size (pos s) ≡ pos s
unfolding clamp_size
clamp_size_lem s h k = ground arith

clamp_offset_lem : (o : ℕ) → clamp_offset (pos o) ≡ pos o
unfolding clamp_offset
clamp_offset_lem o = ground arith

pred_pos : (n : ℕ) → pos (n + 1) -ℤ pos 1 ≡ pos n
pred_pos n = pos-sub (n + 1) 1 (omega arith) ∙ ap pos (omega arith)

-- The offset of page n + 1, before the last wrap-around.
offset_of_page : (n s : ℕ) → n < 2 ^ 63 → wrap (pos (n + 1) -ℤ pos 1) *ℤ pos s ≡ pos (n * s)
offset_of_page n s h = rw (pred_pos n, wrap-pos n h) (pos-mul n s)

-- A request by page number gets the page and the size that it asks for, if the size is from 1 to
-- 500, and the offset (page - 1) * size, if that fits into an int64.
pub resolve_by_page :
    (n s : ℕ) (limit offset : ℤ)
    → 1 ≤ s
    → s ≤ 500
    → n < 2 ^ 63
    → n * s < 2 ^ 63
    → resolve_activity_page (pos (n + 1)) (pos s) limit offset false
      ≡ record { page = pos (n + 1); page_size = pos s; offset = pos (n * s) }
unfolding resolve_activity_page
resolve_by_page n s limit offset h1 h2 h3 h4 =
    rw (clamp_page_lem n, clamp_size_lem s h1 h2, offset_of_page n s h3, wrap-pos (n * s) h4)

-- A request by limit and offset gets its limit and its offset, and the page that holds the offset.
pub resolve_by_offset :
    (page page_size : ℤ) (l o : ℕ)
    → 1 ≤ l
    → l ≤ 500
    → o + 1 < 2 ^ 63
    → resolve_activity_page page page_size (pos l) (pos o) true
      ≡ record { page = pos (o / l + 1); page_size = pos l; offset = pos o }
unfolding resolve_activity_page
resolve_by_offset page page_size l o h1 h2 h3 = rw (
  clamp_size_lem l h1 h2,
  clamp_offset_lem o,
  pos-quot o l,
  pos-add (o / l) 1,
  wrap-pos (o / l + 1) (grind arith),
)

abbrev pub by_page : ℕ → ℕ → Page
by_page n s = resolve_activity_page (pos (n + 1)) (pos s) (pos 0) (pos 0) false

mul_div_cancel : (n s : ℕ) → 1 ≤ s → n * s / s ≡ n
mul_div_cancel n s h = grind arith

-- Asking again by the limit and the offset of a page gives that page back.
pub resolve_by_offset-resolve_by_page :
    (n s : ℕ)
    → 1 ≤ s
    → s ≤ 500
    → n < 2 ^ 63
    → n * s + 1 < 2 ^ 63
    → (let p : Page = by_page n s in
        resolve_activity_page (pos 1) (pos 20) p.page_size p.offset true ≡ p)
resolve_by_offset-resolve_by_page n s h1 h2 h3 h4 =
    rw (resolve_by_page n s (pos 0) (pos 0) h1 h2 h3 (omega arith))
      (resolve_by_offset (pos 1) (pos 20) s (n * s) h1 h2 h4 ∙ rw (mul_div_cancel n s h1))

-- A page number whose offset does not fit into an int64 is answered from a negative offset.
pub offset_overflows :
    (n s : ℕ) (limit offset : ℤ)
    → 1 ≤ s
    → s ≤ 500
    → n < 2 ^ 63
    → 2 ^ 63 ≤ n * s
    → n * s < 2 ^ 64
    → (resolve_activity_page (pos (n + 1)) (pos s) limit offset false).offset
      ≡ negsuc (2 ^ 64 - n * s - 1)
unfolding resolve_activity_page wrap
offset_overflows n s limit offset h1 h2 h3 h4 h5 =
    rw (clamp_page_lem n, clamp_size_lem s h1 h2, offset_of_page n s h3) (ground arith)
