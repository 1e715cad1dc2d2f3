-- ===== src/Middleware/RateLimit/Window.antt =====
-- The store lets through as many requests as its limit says, in any window.
use bff_api_go_collection_ac.Base.{
  ℕ, ◌≤◌, ◌≡◌, refl, sym, ap, ◌∙◌, String, Bool, true, false, List, [], ◌∷◌, ◌++◌, Option, some,
  length, keep, ltb, leb, if◌then◌else◌, keep-append, keep-keep, length-keep-le, length-append,
  arith, ltb→lt, ◌==◌, eq_iff, Bool-cases, inl, inr, ◌&&◌,
}
use mathlib.Core.List.{append-nil, append_assoc}
use bff_api_go_collection_ac.Base.Maps.{find, find-store}
use bff_api_go_collection_ac.Middleware.RateLimit.{
  RateLimitStore, is_active, times, times_of, allow,
}

-- A request: its key and its time.
abbrev pub Request : Type 0
Request = String × ℕ

-- No clock runs back: each request is no earlier than the one before it.
abbrev pub IsOrdered : ℕ → List Request → Type 0
IsOrdered now [] = Unit
IsOrdered now ((j, t) ∷ h) = (now ≤ t) × IsOrdered t h

abbrev pub last_time : ℕ → List Request → ℕ
last_time now [] = now
last_time now ((j, t) ∷ h) = last_time t h

-- The store after a history of requests.
unfoldable pub after : RateLimitStore → List Request → RateLimitStore
after s [] = s
after s ((j, t) ∷ h) = after (allow s j t).0 h

-- The times of the requests with a key that were let through in a history.
unfoldable pub passed : String → RateLimitStore → List Request → List ℕ
passed key s [] = []
passed key s ((j, t) ∷ h) =
    let rest = passed key (allow s j t).0 h in
    if (j == key) && (allow s j t).1 then t ∷ rest else rest

times_of-if :
    (b : Bool) (ts : List ℕ) (o : Option (List ℕ))
    → times_of (if b then some ts else o) ≡ (if b then ts else times_of o)
times_of-if true ts o = refl
times_of-if false ts o = refl

abbrev single_if : Bool → ℕ → List ℕ
single_if true t = t ∷ []
single_if false t = []

-- What is kept of a key after a request with any key.
times-allow :
    (s : RateLimitStore) (j key : String) (t : ℕ)
    → times (allow s j t).0 key ≡ (
        if j == key
        then keep (is_active s.window t) (times s j) ++ single_if (allow s j t).1 t
        else times s key)
unfolding allow
times-allow s j key t =
    let active = keep (is_active s.window t) (times s j) in
    elim (Bool-cases (leb s.limit (length active))) [
      | inl full ↦ rw (full, find-store, append-nil active) (times_of-if (j == key) _ _)
      | inr room ↦ rw (room, find-store) (times_of-if (j == key) _ _)
    ]

window-allow : (s : RateLimitStore) (j : String) (t : ℕ) → (allow s j t).0.window ≡ s.window
unfolding allow
window-allow s j t = ground arith

limit-allow : (s : RateLimitStore) (j : String) (t : ℕ) → (allow s j t).0.limit ≡ s.limit
unfolding allow
limit-allow s j t = ground arith

active_later : (w t t' : ℕ) → t ≤ t' → (ts : ℕ) → is_active w t' ts ≡ true → is_active w t ts ≡ true
active_later w t t' le ts h = ground arith

-- The times that are kept are, from `now` on, as good as all the times of the log.
abbrev Agree : (window now : ℕ) (log kept : List ℕ) → Type 0
Agree w now log kept = (t : ℕ) → now ≤ t → keep (is_active w t) log ≡ keep (is_active w t) kept

Agree-allow :
    (s : RateLimitStore) (j key : String) (now t : ℕ) (log : List ℕ)
    → now ≤ t
    → Agree s.window now log (times s key)
    → Agree s.window t
        (log ++ single_if ((j == key) && (allow s j t).1) t)
        (times (allow s j t).0 key)
Agree-allow s j key now t log le h u le' = elim (Bool-cases (j == key)) [
  | inr other ↦ rw (times-allow s j key t, other, append-nil log) (h u (omega arith))
  | inl same ↦
      let p = is_active s.window u in
      let new = single_if (allow s key t).1 t in
      let q = is_active s.window t in
      rw (times-allow s j key t, same, (eq_iff j key).0 same)
        (keep-append p log new
          ∙ ap (λ l. l ++ keep p new)
              (h u (omega arith)
                ∙ sym (keep-keep p q (times s key) (active_later s.window t u le')))
          ∙ sym (keep-append p (keep q (times s key)) new))
]

append_single :
    (log : List ℕ) (b : Bool) (t : ℕ) (rest : List ℕ)
    → log ++ (if b then t ∷ rest else rest) ≡ (log ++ single_if b t) ++ rest
append_single log true t rest = sym (append_assoc log (t ∷ []) rest)
append_single log false t rest = ap (λ l. l ++ rest) (sym (append-nil log))

Agree-after :
    (s : RateLimitStore) (key : String) (now : ℕ) (log : List ℕ) (h : List Request)
    → IsOrdered now h
    → Agree s.window now log (times s key)
    → Agree s.window (last_time now h) (log ++ passed key s h) (times (after s h) key)
unfolding after passed
Agree-after s key now log [] o a = rw (append-nil log) a
Agree-after s key now log ((j, t) ∷ h) (le, o) a =
    let next = Agree-allow s j key now t log le a in
    let ih =
      Agree-after (allow s j t).0 key t (log ++ single_if ((j == key) && (allow s j t).1) t) h o
        (rw (window-allow s j t) next) in
    rw (append_single log ((j == key) && (allow s j t).1) t (passed key (allow s j t).0 h))
      (rw (window-allow s j t) at ih)

limits-after :
    (s : RateLimitStore) (h : List Request)
    → ((after s h).window ≡ s.window) × ((after s h).limit ≡ s.limit)
unfolding after
limits-after s [] = (refl, refl)
limits-after s ((j, t) ∷ h) =
    let rest = limits-after (allow s j t).0 h in
    (rest.0 ∙ window-allow s j t, rest.1 ∙ limit-allow s j t)

pub allow-true :
    (s : RateLimitStore) (key : String) (t : ℕ)
    → (allow s key t).1 ≡ ltb (length (keep (is_active s.window t) (times s key))) s.limit
unfolding allow
allow-true s key t = ground arith

-- A store that starts with no times.
abbrev pub fresh : (limit window : ℕ) → RateLimitStore
fresh limit window = record { limit = limit; window = window; entries = [] }

-- After any history of requests in the order of their times, with whatever keys, a request is let
-- through exactly if fewer than `limit` requests with its key were let through within the window
-- before it. The store forgets old times, but no answer depends on what it forgets.
pub allow-after :
    (limit window : ℕ) (h : List Request) (key : String) (t : ℕ)
    → IsOrdered 0 h
    → last_time 0 h ≤ t
    → (allow (after (fresh limit window) h) key t).1
      ≡ ltb (length (keep (is_active window t) (passed key (fresh limit window) h))) limit
unfolding find
allow-after limit window h key t o le =
    let s = fresh limit window in
    let agree = Agree-after s key 0 [] h o (λ u _. refl) t le in
    let same = limits-after s h in
    allow-true (after s h) key t ∙ rw (same.0, same.1) (ap (λ l. ltb (length l) limit) (sym agree))

room_left :
    (b : Bool) (active : List ℕ) (t limit : ℕ)
    → b ≡ ltb (length active) limit
    → length active ≤ limit
    → length (active ++ single_if b t) ≤ limit
room_left true active t limit e le =
    omega (arith, length-append active (t ∷ []), ltb→lt (length active) limit (sym e))
room_left false active t limit e le = rw (append-nil active) le

times-allow-le :
    (s : RateLimitStore) (j key : String) (t : ℕ)
    → ((k : String) → length (times s k) ≤ s.limit)
    → length (times (allow s j t).0 key) ≤ s.limit
times-allow-le s j key t le = elim (Bool-cases (j == key)) [
  | inr other ↦ rw (times-allow s j key t, other) (le key)
  | inl same ↦
      let active = keep (is_active s.window t) (times s j) in
      rw (times-allow s j key t, same)
        (room_left (allow s j t).1 active t s.limit (allow-true s j t)
          (grind (arith, length-keep-le (is_active s.window t) (times s j), le j)))
]

times-after-le :
    (s : RateLimitStore) (h : List Request)
    → ((k : String) → length (times s k) ≤ s.limit)
    → (key : String) → length (times (after s h) key) ≤ s.limit
unfolding after
times-after-le s [] le key = le key
times-after-le s ((j, t) ∷ h) le key =
    let ih =
      times-after-le (allow s j t).0 h (λ k. rw (limit-allow s j t) (times-allow-le s j k t le))
        key in
    rw (limit-allow s j t) at ih

-- In any window, at any time after a history of requests, no more than `limit` requests with one
-- key were let through.
pub length-passed-le :
    (limit window : ℕ) (h : List Request) (key : String) (t : ℕ)
    → IsOrdered 0 h
    → last_time 0 h ≤ t
    → length (keep (is_active window t) (passed key (fresh limit window) h)) ≤ limit
unfolding find
length-passed-le limit window h key t o le =
    let s = fresh limit window in
    let agree = Agree-after s key 0 [] h o (λ u _. refl) t le in
    let bound = times-after-le s h (λ k. omega arith) key in
    rw agree (grind (arith, length-keep-le (is_active window t) (times (after s h) key), bound))
