-- ===== src/Activities/Page/Coverage.antt =====
-- The pages of an answer: how many there are, and which of them holds an item.
use native.Mathlib.Nat.{le-div_iff_mul-le}
use bff_api_go_collection_ac.Base.{
  ℕ, suc, ◌+◌, ◌-◌, ◌*◌, ◌/◌, ◌^◌, ◌≤◌, ◌<◌, ◌≡◌, ◌↔◌, ap, true, some, arith,
}
use bff_api_go_collection_ac.Base.Ints.{pos, wrap-pos, pos-add, pos-sub, pos-quot, ltb_ℤ}
use bff_api_go_collection_ac.Json.{num, bool, Fields, get}
use bff_api_go_collection_ac.Activities.Page.{total_of, total_pages_of, paginate_activities}

total_pages_lem :
    (t s : ℕ) → 1 ≤ s → t + s < 2 ^ 63 → total_pages_of (pos t) (pos s) ≡ pos ((t + s - 1) / s)
unfolding total_pages_of
total_pages_lem t s h k =
    rw
      (
        pos-add t s,
        wrap-pos (t + s) k,
        pos-sub (t + s) 1 (omega arith),
        wrap-pos (t + s - 1) (omega arith),
        pos-quot (t + s - 1) s,
      )
      (ground arith)

-- Page p (from 0) holds an item exactly if it is one of the pages.
page_iff : (t s p : ℕ) → 1 ≤ s → (p < (t + s - 1) / s) ↔ (p * s < t)
page_iff t s p h =
    let fits = le-div_iff_mul-le {k = s} {x = suc p} {y = t + s - 1} h in
    (λ k. grind (arith, fits.0 k), λ k. fits.1 (grind arith))

has_next_lem : (a b : ℕ) → (some (bool (ltb_ℤ (pos a) (pos b))) ≡ some (bool true)) ↔ (a < b)
has_next_lem a b = (λ h. ground arith, λ h. ground arith)

abbrev pub answer : Fields → ℕ → ℕ → Fields
answer m n s = paginate_activities (some m) (pos (n + 1)) (pos s)

module _ (m : Fields) (t s n : ℕ) (total : get "total" m ≡ some (num (pos t))) (h : 1 ≤ s)
    (k : t + s < 2 ^ 63) where
  pages_lem : total_pages_of (total_of (get "total" m)) (pos s) ≡ pos ((t + s - 1) / s)
  unfolding total_of
  pages_lem = rw total (total_pages_lem t s h k)

  -- For an answer of t items on pages of s: the announced number of pages is the number of pages
  -- that hold an item, as page p (from 0) holds one exactly if p * s < t; and a next page is
  -- announced exactly if an item stands behind this page.
  pub paginate_activities-covers :
      (pages : ℕ) × (get "total_pages" (answer m n s) ≡ some (num (pos pages)))
      × ((p : ℕ) → (p < pages) ↔ (p * s < t))
      × ((get "has_next" (answer m n s) ≡ some (bool true)) ↔ ((n + 1) * s < t))
  unfolding paginate_activities
  paginate_activities-covers =
      let next = has_next_lem (n + 1) ((t + s - 1) / s) in
      let holds = page_iff t s (n + 1) h in
      (
        (t + s - 1) / s,
        ap (λ p. some (num p)) pages_lem,
        λ p. page_iff t s p h,
        rw pages_lem (λ e. holds.0 (next.0 e), λ l. next.1 (holds.1 l)),
      )
