-- ===== src/Auth/Login/Logout.antt =====
-- Logout ends the session of its cookie, and no other.
use bff_api_go_collection_ac.Base.{
  ℕ, String, Option, none, some, ◌≡◌, ◌≢◌, refl, sym, ap, ◌∙◌, arith, eq_refl,
}
use bff_api_go_collection_ac.Base.Maps.{Map, find, remove, find-remove}
use bff_api_go_collection_ac.Base.Texts.{eq_false_of_ne}
use bff_api_go_collection_ac.Sessions
use bff_api_go_collection_ac.Sessions.{MemoryEntry, SessionPayload, drop_if_ended}
use bff_api_go_collection_ac.Auth.Login.{AuthHandler, Stores, json, logout, me, me_body}

abbrev Entries : Type 0
Entries = Map (MemoryEntry SessionPayload)

-- What Get answers is settled by the entry of the id.
get-find :
    (m n : Entries) (id : String) (now : ℕ)
    → find id m ≡ find id n
    → (Sessions.get m id now).1 ≡ (Sessions.get n id now).1
unfolding Sessions.get
get-find m n id now e = rw e (ground arith)

find-drop_other :
    (o : Option (MemoryEntry SessionPayload)) (id j : String) (now : ℕ) (m : Entries)
    → id ≢ j
    → find j (drop_if_ended o id now m) ≡ find j m
find-drop_other none id j now m h = refl
find-drop_other (some e) id j now m h = ground (arith, find-remove id j m, eq_false_of_ne id j h)

module _ (h : AuthHandler) (st : Stores) (now : ℕ) (cookie : String) (named : cookie ≢ "") where
  abbrev after : Stores
  after = (logout h st now cookie).0

  after-sessions : after.sessions ≡ remove cookie (Sessions.get st.sessions cookie now).0
  unfolding logout Sessions.delete
  after-sessions = ground (arith, eq_false_of_ne cookie "" named)

  find-after_same : find cookie after.sessions ≡ none
  find-after_same = rw after-sessions (rw (find-remove, eq_refl cookie))

  find-get_other :
      (other : String)
      → cookie ≢ other
      → find other (Sessions.get st.sessions cookie now).0 ≡ find other st.sessions
  unfolding Sessions.get
  find-get_other other apart =
      rw (eq_false_of_ne cookie "" named)
        (find-drop_other (find cookie st.sessions) cookie other now st.sessions apart)

  find-after_other :
      (other : String) → cookie ≢ other → find other after.sessions ≡ find other st.sessions
  find-after_other other apart =
      rw after-sessions
        (rw (find-remove, eq_false_of_ne cookie other apart) (find-get_other other apart))

  me_lem :
      (s : Stores) (t : ℕ) (id : String)
      → id ≢ ""
      → (me s t id).1 ≡ json none (me_body (Sessions.get s.sessions id t).1)
  unfolding me
  me_lem s t id filled = rw (eq_false_of_ne id "" filled)

  get_missing :
      (m : Entries) (id : String) (t : ℕ) → find id m ≡ none → (Sessions.get m id t).1 ≡ none
  unfolding Sessions.get
  get_missing m id t e = rw e (ground arith)

  -- After Logout with a cookie, Me with that cookie says that nobody is logged in, at any time; with
  -- any other cookie it says what it would have said without.
  pub me-logout :
      (later : ℕ) (other : String)
      → ((me after later cookie).1 ≡ json none (me_body none))
        × (cookie ≢ other → other ≢ "" → (me after later other).1 ≡ (me st later other).1)
  me-logout later other = (
    me_lem after later cookie named
        ∙ ap (λ o. json none (me_body o)) (get_missing after.sessions cookie later find-after_same),
    λ apart filled.
        me_lem after later other filled
        ∙ ap (λ o. json none (me_body o))
            (get-find after.sessions st.sessions other later (find-after_other other apart))
        ∙ sym (me_lem st later other filled),
  )
