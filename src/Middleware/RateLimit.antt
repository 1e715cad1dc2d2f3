-- ===== src/Middleware/RateLimit.antt =====
-- internal/interface/api/middleware/rate_limit_store.go. Times are nanoseconds; a window that the
-- multiplication wraps to a negative one counts as 0, as neither holds a time.
pub mod Window
use bff_api_go_collection_ac.Base.{
  ℕ, ◌+◌, ◌-◌, String, Bool, true, false, List, [], ◌∷◌, ◌++◌, Option, none, some, length, keep,
  ltb, leb, if◌then◌else◌,
}
use bff_api_go_collection_ac.Base.Ints.{ℤ, pos, pos_part, wrap, ltb_ℤ, ◌*ℤ◌}
use bff_api_go_collection_ac.Base.Maps.{Map, find, store}

pub record RateLimitStore : Type 0 where
  pub limit : ℕ
  pub window : ℕ
  pub entries : Map (List ℕ)

-- A limit or a window that is not positive counts as 60.
abbrev or_sixty : ℤ → ℤ
or_sixty n = if ltb_ℤ (pos 0) n then n else pos 60

unfoldable pub new_memory_rate_limit_store : ℤ → ℤ → RateLimitStore
new_memory_rate_limit_store limit window_seconds = record {
  limit = pos_part (or_sixty limit);
  window = pos_part (wrap (or_sixty window_seconds *ℤ pos 1000000000));
  entries = [];
}

-- Sub(ts) < window; a time of the future is in the window too.
abbrev pub is_active : (window now ts : ℕ) → Bool
is_active window now ts = ltb (now - ts) window

abbrev pub times_of : Option (List ℕ) → List ℕ
times_of none = []
times_of (some ts) = ts

abbrev pub times : RateLimitStore → String → List ℕ
times s key = times_of (find key s.entries)

-- Allow, at the time `now`: the new store, and whether the request is let through.
unfoldable pub allow : RateLimitStore → String → (now : ℕ) → RateLimitStore × Bool
allow s key now =
    let active = keep (is_active s.window now) (times s key) in
    if leb s.limit (length active)
    then (record s { entries = store key active s.entries }, false)
    else (record s { entries = store key (active ++ now ∷ []) s.entries }, true)
