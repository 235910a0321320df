-- ===== src/Timeline/Older.antt =====
-- What the store shows once older messages have come.
use mathlib.Core.Path.{subst}
use nheko_library.Base.{
  ℕ, suc, ◌-◌, [], ap, ◌∙◌, ◌+◌, ◌^◌, ◌≤◌, ◌<◌, ◌≡◌, ◌≢◌, refl, String, List, ◌∷◌, Bool, true,
  false, ◌||◌, ◌==◌, str_eq, length, if◌then◌else◌, arith, eq_iff, Bool-cases, inl, inr,
}
use nheko_library.Cache.Room.{Event, CacheEnv, Tables}
use nheko_library.Cache.Old.{save_old_messages}
use nheko_library.Cache.Reading.{previous_batch_token}
use nheko_library.Cache.Coherence.{Coherent}
use nheko_library.Cache.Loaded.{save_old_messages-below}
use nheko_library.Cache.Saving.{known}
use nheko_library.Cache.NewMessages.{new_messages, StandBefore, StandBefore-same}
use nheko_library.Cache.Added.{save_old_messages-Adds}
use nheko_library.Timeline.Store.{
  Store, Signal, emit, fetched_more, fetch_messages, no_index, fetch_more, show_older,
  old_messages_retrieved,
}
use nheko_library.Timeline.Rows.{Shows}

module _ {T : Tables} where
  pub emit-Shows :
      {lo hi : ℕ} (n : Signal) (s : Store T) → Shows T lo hi s → Shows T lo hi (emit n s)
  emit-Shows n s h = record {
    coherent = h.coherent;
    from_first = h.from_first;
    to_last = h.to_last;
    some_shown = h.some_shown;
    not_many = h.not_many;
    in_range = h.in_range;
  }

  if-Shows :
      {lo hi : ℕ} (b : Bool) (s t : Store T)
      → Shows T lo hi s
      → Shows T lo hi t
      → Shows T lo hi (if b then s else t)
  if-Shows true s t h k = h
  if-Shows false s t h k = k

  fetch_more-Shows : {lo hi : ℕ} (s : Store T) → Shows T lo hi s → Shows T lo hi (fetch_more s)
  unfolding fetch_more
  fetch_more-Shows s h =
      if-Shows s.no_more_messages (emit fetched_more s)
        (emit (fetch_messages (previous_batch_token T s.room)) s) (emit-Shows fetched_more s h)
        (emit-Shows (fetch_messages (previous_batch_token T s.room)) s h)

  show_older-Shows :
      {hi : ℕ} (new_first : ℕ) (s : Store T)
      → Coherent T new_first hi s.room
      → suc s.last ≡ hi
      → new_first < hi
      → hi < new_first + 2 ^ 31
      → hi < 2 ^ 64
      → Shows T new_first hi (show_older new_first s)
  unfolding show_older
  show_older-Shows new_first s c l m n b = record {
    coherent = c;
    from_first = refl;
    to_last = l;
    some_shown = m;
    not_many = n;
    in_range = b;
  }

  fetch_more-room : (s : Store T) → (fetch_more s).room ≡ s.room
  unfolding fetch_more
  fetch_more-room s = ground arith

  show_older-room : (new_first : ℕ) (s : Store T) → (show_older new_first s).room ≡ s.room
  unfolding show_older
  show_older-room new_first s = refl

  retrieved-Shows :
      {lo hi : ℕ} (env : CacheEnv) (end_token : String) (e : Event) (es : List Event) (s : Store T)
      → Shows T lo hi s
      → suc (length es) < lo
      → hi + suc (length es) < lo + 2 ^ 31
      → end_token ≢ ""
      → previous_batch_token T s.room ≢ end_token
      → let saved = save_old_messages T env end_token (e ∷ es) s.room in
        let s' = old_messages_retrieved env end_token (e ∷ es) s in
        Shows T saved.1 hi s' × (s'.room ≡ saved.0)
  unfolding old_messages_retrieved
  retrieved-Shows {lo} {hi} env end_token e es s h z few n d =
      let saved = save_old_messages T env end_token (e ∷ es) s.room in
      let below =
        save_old_messages-below T env end_token e es lo hi s.room h.coherent h.some_shown z
          (omega (arith, h.some_shown, h.in_range)) in
      let token = previous_batch_token T s.room in
      let go_on : (str_eq end_token "" || str_eq token end_token) ≡ false =
        ground (arith, n, d, eq_iff end_token "", eq_iff token end_token) in
      let loaded : (s.last == no_index) ≡ false = ground (arith, h.to_last, h.in_range) in
      elim (Bool-cases (saved.1 == s.first)) [
        | inl same ↦
            (let shown : Shows T saved.1 hi (record s { room = saved.0 }) = record {
              coherent = below.0;
              from_first = ground (arith, same);
              to_last = h.to_last;
              some_shown = omega (arith, below.1, h.some_shown);
              not_many = omega (arith, below.2, few);
              in_range = h.in_range;
            } in
              (
                rw (go_on, same, old_messages_retrieved)
                    (fetch_more-Shows (record s { room = saved.0 }) shown),
                rw (go_on, same, old_messages_retrieved)
                    (fetch_more-room (record s { room = saved.0 })),
              ))
        | inr other ↦ (
          rw (go_on, other, loaded, old_messages_retrieved)
              (show_older-Shows saved.1 (record s { room = saved.0 }) below.0 h.to_last
                (omega (arith, below.1, h.some_shown)) (omega (arith, below.2, few)) h.in_range),
          rw (go_on, other, loaded, old_messages_retrieved)
              (show_older-room saved.1 (record s { room = saved.0 })),
        )
      ]

  -- After a reply with events and a token that is new, to a store that shows messages: it shows in front
  -- of them those of the events that are new messages (no redaction, not in the cache before or earlier in
  -- the reply, and not hidden), the first event next to what was the first message, and each of the
  -- messages before, at any index `i` from that one on, is as it was. There must be indices left for the
  -- events, and fewer rows than an `int` counts.
  pub old_messages_retrieved-Shows :
      {lo hi : ℕ} (env : CacheEnv) (end_token : String) (e : Event) (es : List Event) (s : Store T)
      (i : ℕ)
      → Shows T lo hi s
      → suc (length es) < lo
      → hi + suc (length es) < lo + 2 ^ 31
      → end_token ≢ ""
      → previous_batch_token T s.room ≢ end_token
      → lo ≤ i
      → let s' = old_messages_retrieved env end_token (e ∷ es) s in
        let ids = new_messages env (λ id. known T id s.room) [] (e ∷ es) in
        Shows T (lo - length ids) hi s'
        × StandBefore T lo ids s'.room
        × (T.messages.get i s'.room.order2msg_db ≡ T.messages.get i s.room.order2msg_db)
  old_messages_retrieved-Shows {lo} {hi} env end_token e es s i h z few n d p =
      let (shows, same) = retrieved-Shows env end_token e es s h z few n d in
      let (at, stand, kept) =
        save_old_messages-Adds T env end_token e es lo hi s.room h.coherent h.some_shown z
          (omega (arith, h.some_shown, h.in_range)) in
      let s' = old_messages_retrieved env end_token (e ∷ es) s in
      let ids = new_messages env (λ id. known T id s.room) [] (e ∷ es) in
      (
        subst (λ k. Shows T k hi s') (omega (arith, at)) shows,
        StandBefore-same T lo ids _ s'.room (ap (λ r. r.order2msg_db) same) stand,
        ap (λ r. T.messages.get i r.order2msg_db) same ∙ kept i p,
      )
