-- ===== src/Timeline/Synced.antt =====
-- What the store shows after a sync, and which rows the view was told of.
use nheko_library.Base.{
  ℕ, ◌+◌, ◌-◌, ◌^◌, ◌<◌, ◌≡◌, ap, String, List, [], ◌∷◌, Option, none, some, Bool, true, false,
  str_eq, if◌then◌else◌, arith, Option-cases, inl, inr,
}
use nheko_library.Base.Int.{ℤ, pos}
use nheko_library.Cache.Room.{Event, Tables, Room}
use nheko_library.Cache.Reading.{related_events}
use nheko_library.Cache.Coherence.{Coherent}
use nheko_library.Timeline.Store.{
  Store, Signal, begin_insert_rows, data_changed, id_to_index, sync_range,
}
use nheko_library.Timeline.Rows.{Shows}
use nheko_library.Timeline.Ranges.{sync_range-Shows, get_timeline_range-Coherent}
use nheko_library.Timeline.Older.{emit-Shows}
use nheko_library.Timeline.Sync.{
  edited, annotated, relates_to, tell, tell_all, tell_annotated, sync_event, sync_events,
  handle_sync,
}

-- The ranges of rows that the view was told of, the latest first.
abbrev pub inserted : List Signal → List (ℤ × ℤ)
inserted [] = []
inserted (begin_insert_rows from to ∷ l) = (from, to) ∷ inserted l
inserted (_ ∷ l) = inserted l

-- The store shows these messages, and has told of these rows.
record Told (T : Tables) (lo hi : ℕ) (rows : List (ℤ × ℤ)) (s : Store T) : Type 0 where
  shows : Shows T lo hi s
  told : inserted s.log ≡ rows

module _ {T : Tables} {lo hi : ℕ} {rows : List (ℤ × ℤ)} where
  tell-Told : (id : String) (s : Store T) → Told T lo hi rows s → Told T lo hi rows (tell id s)
  unfolding tell
  tell-Told id s h = elim (Option-cases (id_to_index id s)) [
    | inl n ↦ rw (n, tell) h
    | inr (i, n) ↦
        rw (n, tell) (record { shows = emit-Shows (data_changed i i) s h.shows; told = h.told })
  ]

  tell_all-Told :
      (ids : List String) (s : Store T) → Told T lo hi rows s → Told T lo hi rows (tell_all ids s)
  unfolding tell_all
  tell_all-Told [] s h = h
  tell_all-Told (id ∷ ids) s h = tell_all-Told ids (tell id s) (tell-Told id s h)

  if-Told :
      (b : Bool) (s t : Store T)
      → Told T lo hi rows s
      → Told T lo hi rows t
      → Told T lo hi rows (if b then s else t)
  if-Told true s t h k = h
  if-Told false s t h k = k

  option-Told :
      (o : Option String) (s : Store T) (f : String → Store T)
      → Told T lo hi rows s
      → ((id : String) → Told T lo hi rows (f id))
      → Told T lo hi rows (elim o [ none ↦ s | some id ↦ f id ])
  option-Told none s f h k = h
  option-Told (some id) s f h k = k id

  tell_annotated-Told :
      (annotates : String → Option String) (e : Event) (s : Store T)
      → Told T lo hi rows s
      → Told T lo hi rows (tell_annotated annotates e s)
  unfolding tell_annotated
  tell_annotated-Told annotates e s h =
      option-Told (annotated annotates e) s (λ id. tell id s) h (λ id. tell-Told id s h)

  sync_event-Told :
      (annotates : String → Option String) (e : Event) (s : Store T)
      → Told T lo hi rows s
      → Told T lo hi rows (sync_event annotates e s)
  unfolding sync_event
  sync_event-Told annotates e s h =
      let t = tell_all (relates_to e) (tell_annotated annotates e s) in
      let a : Told T lo hi rows t =
        tell_all-Told (relates_to e) (tell_annotated annotates e s)
          (tell_annotated-Told annotates e s h) in
      let u = if str_eq e.transaction_id "" then t else tell e.event_id t in
      let b : Told T lo hi rows u =
        if-Told (str_eq e.transaction_id "") t (tell e.event_id t) a (tell-Told e.event_id t a) in
      option-Told (edited e) u _ b (λ id.
        if-Told (str_eq id "") u (tell_all (related_events T id u.room) u) b
          (tell_all-Told (related_events T id u.room) u b))

  sync_events-Told :
      (annotates : String → Option String) (es : List Event) (s : Store T)
      → Told T lo hi rows s
      → Told T lo hi rows (sync_events annotates es s)
  unfolding sync_events
  sync_events-Told annotates [] s h = h
  sync_events-Told annotates (e ∷ es) s h =
      sync_events-Told annotates es (sync_event annotates e s) (sync_event-Told annotates e s h)

module _ {T : Tables} where
  -- After a sync that is not limited and has put messages behind those that are shown, the store shows
  -- them too, whatever the events relate to, and has told the view of just their rows.
  pub handle_sync-Shows :
      {lo hi hi' : ℕ} (annotates : String → Option String) (es : List Event) (s : Store T)
      (r : Room T)
      → Shows T lo hi s
      → Coherent T lo hi' r
      → hi < hi'
      → hi' < lo + 2 ^ 31
      → hi' < 2 ^ 64
      → let t = handle_sync annotates false es (record s { room = r }) in
        Shows T lo hi' t × (inserted t.log ≡ (pos (hi - lo), pos (hi' - lo - 1)) ∷ inserted s.log)
  unfolding handle_sync
  handle_sync-Shows {lo} {hi} {hi'} annotates es s r h c b m n =
      let e = get_timeline_range-Coherent r c (omega (arith, h.some_shown, b)) in
      let shown = sync_range-Shows s r h c b m n in
      let start : Told T lo hi' ((pos (hi - lo), pos (hi' - lo - 1)) ∷ inserted s.log)
          (sync_range false (record s { room = r })) =
        record { shows = shown.0; told = ap inserted shown.1 } in
      let all = sync_events-Told annotates es (sync_range false (record s { room = r })) start in
      rw (e, handle_sync) (all.shows, all.told)
