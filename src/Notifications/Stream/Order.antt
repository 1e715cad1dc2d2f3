-- ===== src/Notifications/Stream/Order.antt =====
-- The order in which a stream writes its notifications.
use bff_api_go_collection_ac.Base.{
  ℕ, ◌+◌, ◌<◌, ◌≡◌, refl, Bool, true, List, [], ◌∷◌, Option, none, some, All, All-map, Bool-cases,
  inl, inr, arith,
}
use bff_api_go_collection_ac.Base.Ints.{ℤ, pos, ltb_ℤ, ◌≤ℤ◌, pos_part, neg_part}
use bff_api_go_collection_ac.Json.{Fields}
use bff_api_go_collection_ac.Notifications.Stream.{
  Frame, notification, retry, connected, keep_alive, Stream, Step, StreamError, recovery_failed,
  Recovery, no_recovery, recover_after, Incoming, lifetime_over, request_over, timeout, ignored,
  message, write, and_then, write_if_new, write_event, write_frames, recover, serve_loop, serve,
  event_id_of, write_recovered, failed_with, opened,
}

-- The ids of the notifications that were written, the newest first.
abbrev pub ids : List Frame → List ℕ
ids [] = []
ids (notification n ∷ fs) = n ∷ ids fs
ids (f ∷ fs) = ids fs

abbrev pub IsDescending : List ℕ → Type 0
IsDescending [] = Unit
IsDescending (n ∷ ns) = All (λ m. m < n) ns × IsDescending ns

-- An id that is above a last id of the client, which may be negative.
abbrev pub IsAbove : ℤ → ℕ → Type 0
IsAbove last n = pos_part last < n + neg_part last

-- The ids are in order, above where the stream started, and none is above the last id.
pub record IsSound (start : ℤ) (s : Stream) : Type 0 where
  pub descending : IsDescending (ids s.written)
  pub new : All (IsAbove start) (ids s.written)
  pub old : All (λ n. pos n ≤ℤ s.last_event_id) (ids s.written)
  pub later : start ≤ℤ s.last_event_id

opened-IsSound : (start : ℤ) → IsSound start (opened start)
opened-IsSound start = record { descending = tt; new = tt; old = tt; later = ground arith }

module _ (fails : List Frame → Frame → Bool) (start : ℤ) where
  pub write_other-IsSound :
      (s : Stream) (f : Frame)
      → ids (f ∷ s.written) ≡ ids s.written
      → IsSound start s
      → IsSound start (write fails s f).0
  unfolding write
  write_other-IsSound s f e h = elim (Bool-cases (fails s.written f)) [
    | inl failed ↦ rw failed h
    | inr written ↦ rw written (record {
      descending = rw e h.descending;
      new = rw e h.new;
      old = rw e h.old;
      later = h.later;
    })
  ]

  write_new-IsSound :
      (s : Stream) (n : ℕ)
      → ltb_ℤ s.last_event_id (pos n) ≡ true
      → IsSound start s
      → IsSound start (write fails (record s { last_event_id = pos n }) (notification n)).0
  unfolding write
  write_new-IsSound s n e h =
      let above : IsAbove s.last_event_id n = ground arith in
      let old : All (λ m. pos m ≤ℤ pos n) (ids s.written) =
        All-map (λ m k. ground arith) (ids s.written) h.old in
      let less : All (λ m. m < n) (ids s.written) =
        All-map (λ m k. ground arith) (ids s.written) h.old in
      elim (Bool-cases (fails s.written (notification n))) [
        | inl failed ↦ rw failed (record {
          descending = h.descending;
          new = h.new;
          old = old;
          later = ground (arith, h.later);
        })
        | inr written ↦ rw written (record {
          descending = (less, h.descending);
          new = (ground (arith, h.later), h.new);
          old = (ground arith, old);
          later = ground (arith, h.later);
        })
      ]

  write_if_new-IsSound :
      (id : Option ℕ) (s : Stream) → IsSound start s → IsSound start (write_if_new fails id s).0
  write_if_new-IsSound none s h = h
  write_if_new-IsSound (some n) s h = elim (Bool-cases (ltb_ℤ s.last_event_id (pos n))) [
    | inl e ↦ rw e (write_new-IsSound s n e h)
    | inr e ↦ rw e h
  ]

  and_then-IsSound :
      (m : Step) (next : Stream → Step)
      → IsSound start m.0
      → ((t : Stream) → IsSound start t → IsSound start (next t).0)
      → IsSound start (and_then fails m next).0
  and_then-IsSound (s, none) next h keep = keep s h
  and_then-IsSound (s, some e) next h keep = h

  write_frames-IsSound :
      (events : List Fields) (s : Stream)
      → IsSound start s
      → IsSound start (write_frames fails s events).0
  unfolding write_frames write_event
  write_frames-IsSound [] s h = h
  write_frames-IsSound (event ∷ events) s h =
      and_then-IsSound (write_if_new fails (event_id_of event) s) (λ t. write_frames fails t events)
        (write_if_new-IsSound (event_id_of event) s h) (write_frames-IsSound events)

  failed_with-IsSound :
      (m : Step) (e : StreamError) → IsSound start m.0 → IsSound start (failed_with fails m e).0
  failed_with-IsSound (s, none) e h = h
  failed_with-IsSound (s, some w) e h = h

  write_recovered-IsSound :
      (s : Stream) (events : Option (List Fields))
      → IsSound start s
      → IsSound start (write_recovered fails s events).0
  write_recovered-IsSound s none h =
      failed_with-IsSound (write fails s (retry "recovery_unavailable")) recovery_failed
        (write_other-IsSound s (retry "recovery_unavailable") refl h)
  write_recovered-IsSound s (some events) h = write_frames-IsSound events s h

  recover-IsSound :
      (r : Recovery) (s : Stream) → IsSound start s → IsSound start (recover fails r s).0
  unfolding recover
  recover-IsSound no_recovery s h = h
  recover-IsSound (recover_after f) s h = write_recovered-IsSound s (f s.last_event_id) h

  serve_loop-IsSound :
      (r : Recovery) (incoming : List Incoming) (s : Stream)
      → IsSound start s
      → IsSound start (serve_loop fails r s incoming).0
  unfolding serve_loop write_event
  serve_loop-IsSound r [] s h = h
  serve_loop-IsSound r (lifetime_over ∷ rest) s h = h
  serve_loop-IsSound r (request_over ∷ rest) s h = h
  serve_loop-IsSound r (timeout ∷ rest) s h =
      and_then-IsSound (recover fails r s) _ (recover-IsSound r s h) λ t k.
        and_then-IsSound (write fails t keep_alive) _ (write_other-IsSound t keep_alive refl k)
          (serve_loop-IsSound r rest)
  serve_loop-IsSound r (ignored ∷ rest) s h = serve_loop-IsSound r rest s h
  serve_loop-IsSound r (message event ∷ rest) s h =
      and_then-IsSound (write_if_new fails (event_id_of event) s) _
        (write_if_new-IsSound (event_id_of event) s h) (serve_loop-IsSound r rest)

  -- Whatever the core and Redis hand over, in whatever order and however often, and whichever
  -- write fails: the notifications that a stream has written are in the order of their ids, none
  -- of them twice, and all are above the last id that the client said it had seen.
  pub serve-IsSound :
      (r : Recovery) (recovered : List Fields) (incoming : Option (List Incoming))
      → IsSound start (serve fails r recovered (opened start) incoming).0
  unfolding serve
  serve-IsSound r recovered none =
      and_then-IsSound (write_frames fails (opened start) recovered) _
        (write_frames-IsSound recovered (opened start) (opened-IsSound start))
        λ t k. write_other-IsSound t (retry "stream_unavailable") refl k
  serve-IsSound r recovered (some incoming) =
      and_then-IsSound (write_frames fails (opened start) recovered) _
        (write_frames-IsSound recovered (opened start) (opened-IsSound start))
        λ t k. and_then-IsSound (recover fails r t) _ (recover-IsSound r t k) λ u l.
          and_then-IsSound (write fails u connected) _ (write_other-IsSound u connected refl l)
            (serve_loop-IsSound r incoming)
