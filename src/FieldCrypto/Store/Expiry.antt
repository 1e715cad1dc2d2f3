-- ===== src/FieldCrypto/Store/Expiry.antt =====
-- How long the key of a session is found.
use bff_api_go_collection_ac.Base.{
  ℕ, String, List, Option, none, some, ◌==◌, length, eqb, eqb_iff, ◌≡◌, ◌≢◌, refl, ◌∙◌, arith,
  eq_refl, Bool-cases, inl, inr, if◌then◌else◌,
}
use bff_api_go_collection_ac.Base.Ints.{pos, ltb_ℤ, ◌+ℤ◌}
use bff_api_go_collection_ac.Base.Maps.{find, find-store}
use bff_api_go_collection_ac.Base.Results.{ok, >>=-eq-ok}
use bff_api_go_collection_ac.Base.Texts.{eq_false_of_ne}
use bff_api_go_collection_ac.FieldCrypto.Stateless.{Externals, HandshakeResult}
use bff_api_go_collection_ac.FieldCrypto.Store.{
  MemorySessionStore, SessionEntry, CryptoSessionManager, put, get, get_entry, decoded_key,
  handshake, session_key,
}

module _ {Byte : Type 0} (s : MemorySessionStore Byte) (id : String) (key : List Byte)
    (now : ℕ) where
  -- What a key that was put is stored as.
  put-eq-ok :
      (t : MemorySessionStore Byte)
      → put s id key now ≡ ok t
      → (length key ≡ 32)
        × ((j : String)
            → find j t.keys ≡ (
                if id == j
                then some (record { key = key; expiry = pos now +ℤ s.ttl })
                else find j s.keys))
  unfolding put
  put-eq-ok t h = elim (Bool-cases (eqb (length key) 32)) [
    | inl whole ↦
        let same : t ≡ record s { keys = _ } = cc (rw whole at h) in
        ((eqb_iff _ _).0 whole, λ j. rw same (find-store id j _ s.keys))
    | inr short ↦ absurd (cc (rw short at h))
  ]

  get-put :
      (t : MemorySessionStore Byte) (later : ℕ)
      → put s id key now ≡ ok t
      → (get t id later).1 ≡ (if ltb_ℤ (pos now +ℤ s.ttl) (pos later) then none else some key)
  unfolding get
  get-put t later h = rw ((put-eq-ok t h).1 id) (rw (eq_refl id) (ground arith))

module _ {Byte : Type 0} (s t : MemorySessionStore Byte) (id : String) (later : ℕ) where
  get-find : find id s.keys ≡ find id t.keys → (get s id later).1 ≡ (get t id later).1
  unfolding get
  get-find e = rw e (entries (find id t.keys))
    where
      entries :
          (o : Option (SessionEntry Byte)) → (get_entry s id later o).1 ≡ (get_entry t id later o).1
      entries none = refl
      entries (some entry) = ground arith

module _ {Byte Token : Type 0} (x : Externals Byte Token) (m : CryptoSessionManager Byte)
    (client_public subject scope id : String) (now : ℕ) where
  -- A handshake in store mode keeps a key of 32 bytes under the new session, which is found up to
  -- the end of the store's lifetime and not behind it; the keys of the other sessions are found as
  -- before.
  pub session_key-handshake :
      (after : CryptoSessionManager Byte) (r : HandshakeResult Token)
      → handshake x m client_public subject scope id now ≡ ok (after, r)
      → (key : List Byte) × (length key ≡ 32)
        × ((later : ℕ)
            → (session_key x after id later).1
              ≡ (if ltb_ℤ (pos now +ℤ m.sessions.ttl) (pos later) then none else some key))
        × ((other : String) (later : ℕ)
            → id ≢ other
            → (session_key x after other later).1 ≡ (session_key x m other later).1)
  unfolding handshake session_key
  session_key-handshake after r h =
      let (raw, e, h1) = >>=-eq-ok (decoded_key x (x.b64.decode client_public)) _ h in
      let (agreed, a, h2) = >>=-eq-ok (x.exchange raw) _ h1 in
      let (sessions, p, h3) = >>=-eq-ok (put m.sessions id agreed.session_key now) _ h2 in
      let same : after.sessions ≡ sessions = ground (arith, h3) in
      let (whole, found) = put-eq-ok m.sessions id agreed.session_key now sessions p in
      (
        agreed.session_key,
        whole,
        λ later. rw same (get-put m.sessions id agreed.session_key now sessions later p),
        λ other later apart. rw same (
            get-find sessions m.sessions other later
              (found other ∙ rw (eq_false_of_ne id other apart))),
      )
