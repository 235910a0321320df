-- ===== src/Timeline/Ranges.antt =====
-- How the store follows the cache: a sync, old messages, and the rows that the view is told of.
use nheko_library.Base.{
  ℕ, ◌+◌, ◌-◌, ◌^◌, ◌<◌, ◌≡◌, ◌≢◌, refl, ap, ◌∙◌, String, [], ◌∷◌, Option, none, some, true, false,
  ◌||◌, ltb, ◌==◌, str_eq, arith, eq_iff, Option-cases, inl, inr,
}
use nheko_library.Base.Int.{pos, negsuc}
use nheko_library.Cache.Room.{CacheEnv, Tables, Room, get_or, middle}
use nheko_library.Cache.Old.{save_old_messages}
use nheko_library.Cache.Reading.{previous_batch_token, get_timeline_range, get_timeline_event_id}
use nheko_library.Cache.Coherence.{Coherent, is_some, some_of, first-lo, last-hi}
use nheko_library.Timeline.Store.{
  Store, begin_insert_rows, end_insert_rows, fetched_more, data_changed, no_index, to_external_idx,
  to_internal_idx, index_to_id, sync_range, show_older, old_messages_retrieved,
}
use nheko_library.Timeline.Rows.{Shows, external-row}

none_of : (o : Option String) → is_some o ≡ false → o ≡ none
none_of none e = refl
none_of (some v) e = cc

module _ {T : Tables} where
  -- The range that the cache gives is that of its messages.
  pub get_timeline_range-Coherent :
      {lo hi : ℕ} (r : Room T)
      → Coherent T lo hi r
      → lo < hi
      → get_timeline_range T r ≡ some (record { first = lo; last = hi - 1 })
  unfolding get_timeline_range
  get_timeline_range-Coherent {lo} {hi} r c b =
      elim (Option-cases (T.messages.last r.order2msg_db)) [
        | inl n ↦
            (let (w, g) = some_of T lo r.order2msg_db (ground (arith, c.shown lo)) in
              ground (arith, T.messages.last-none lo r.order2msg_db n, g))
        | inr (l, n) ↦ elim (Option-cases (T.messages.first r.order2msg_db)) [
          | inl m ↦
              (let (w, g) = some_of T lo r.order2msg_db (ground (arith, c.shown lo)) in
                ground (arith, T.messages.first-none lo r.order2msg_db m, g))
          | inr (f, m) ↦
              (let p = first-lo T r c f m in
                let q : l ≡ hi - 1 = omega (arith, last-hi T r c l n) in
                rw (n, m, get_timeline_range) (ground (arith, p, q)))
        ]
      ]

  -- A sync that is not limited and has put messages behind those that are shown: the store shows them
  -- too, and has told the view of just their rows.
  pub sync_range-Shows :
      {lo hi hi' : ℕ} (s : Store T) (r : Room T)
      → Shows T lo hi s
      → Coherent T lo hi' r
      → hi < hi'
      → hi' < lo + 2 ^ 31
      → hi' < 2 ^ 64
      → let t = sync_range false (record s { room = r }) in
        Shows T lo hi' t
        × (t.log ≡ end_insert_rows ∷ begin_insert_rows (pos (hi - lo)) (pos (hi' - lo - 1)) ∷ s.log)
  unfolding sync_range
  sync_range-Shows {lo} {hi} {hi'} s r h c b m n =
      let e = get_timeline_range-Coherent r c (omega (arith, h.some_shown)) in
      let grown : ltb s.last (hi' - 1) ≡ true = ground (arith, h.to_last) in
      let f : to_external_idx (s.last + 1) (record s { room = r }) ≡ pos (hi - lo) =
        external-row (record s { room = r }) (s.last + 1)
          (omega (arith, h.from_first, h.to_last, h.some_shown))
          (omega (arith, h.from_first, h.to_last, b, m)) (omega (arith, h.to_last, b, n))
        ∙ ap pos (omega (arith, h.from_first, h.to_last)) in
      let g : to_external_idx (hi' - 1) (record s { room = r }) ≡ pos (hi' - lo - 1) =
        external-row (record s { room = r }) (hi' - 1)
          (omega (arith, h.from_first, h.some_shown, b)) (omega (arith, h.from_first, m, b))
          (omega (arith, n))
        ∙ ap pos (omega (arith, h.from_first)) in
      rw (e, grown, sync_range)
        (
          record {
            coherent = c;
            from_first = h.from_first;
            to_last = omega (arith, b);
            some_shown = omega (arith, h.some_shown, b);
            not_many = m;
            in_range = n;
          },
          rw (f, g) refl,
        )

  -- Rows for old messages are told of by negative numbers, -k to -1 for k messages more, while they are
  -- the rows from 0 on: the old first index is taken, and that is where row 0 stands.
  pub show_older-rows :
      (s : Store T) (new_first : ℕ)
      → new_first < s.first
      → s.first < new_first + 2 ^ 31
      → s.first < 2 ^ 64
      → let t = show_older new_first s in
        (t.log
          ≡ data_changed (pos (s.first - new_first)) (pos (s.first - new_first))
            ∷ fetched_more
            ∷ end_insert_rows
            ∷ begin_insert_rows (negsuc (s.first - new_first - 1)) (negsuc 0)
            ∷ s.log)
        × (t.first ≡ new_first)
        × (to_external_idx new_first t ≡ pos 0)
        × (to_external_idx (s.first - 1) t ≡ pos (s.first - new_first - 1))
  unfolding show_older to_external_idx
  show_older-rows s new_first a b c = (ground arith, refl, ground arith, ground arith)

  empty_chunk :
      (env : CacheEnv) (end_token : String) (r : Room T)
      → ((save_old_messages T env end_token [] r).1 ≡ get_or (T.order.first r.order_db) middle)
        × ((save_old_messages T env end_token [] r).0.order2msg_db ≡ r.order2msg_db)
  unfolding save_old_messages
  empty_chunk env end_token r =
      elim (Option-cases (T.order.get (get_or (T.order.first r.order_db) middle) r.order_db)) [
        | inl n ↦ rw (n, save_old_messages) (refl, refl)
        | inr (v, n) ↦ rw (n, save_old_messages) (refl, refl)
      ]

  -- A reply without events, but with a token to go on from: where an event that is not shown stands
  -- before the first message, the store takes its index of arrival for that of a message, and its
  -- first row has no event.
  pub old_messages_retrieved-empty :
      {lo hi : ℕ} (env : CacheEnv) (end_token : String) (s : Store T) (k : ℕ)
      → Shows T lo hi s
      → T.order.first s.room.order_db ≡ some k
      → k < lo
      → end_token ≢ ""
      → previous_batch_token T s.room ≢ end_token
      → let t = old_messages_retrieved env end_token [] s in
        (t.first ≡ k) × (index_to_id (pos 0) t ≡ none)
  unfolding old_messages_retrieved show_older index_to_id to_internal_idx get_timeline_event_id
  old_messages_retrieved-empty {lo} env end_token s k h f b n d =
      let c = empty_chunk env end_token s.room in
      let i : (save_old_messages T env end_token [] s.room).1 ≡ k =
        c.0 ∙ ap (λ o. get_or o middle) f in
      let token = previous_batch_token T s.room in
      let go_on : (str_eq end_token "" || str_eq token end_token) ≡ false =
        ground (arith, n, d, eq_iff end_token "", eq_iff token end_token) in
      let other : ((save_old_messages T env end_token [] s.room).1 == s.first) ≡ false =
        ground (arith, i, h.from_first, b) in
      let loaded : (s.last == no_index) ≡ false = ground (arith, h.to_last, h.in_range) in
      let bare : is_some (T.messages.get k s.room.order2msg_db) ≡ false =
        h.coherent.shown k ∙ ground (arith, b) in
      rw (go_on, other, loaded, old_messages_retrieved)
        (
          i,
          ap (λ j. T.messages.get j (save_old_messages T env end_token [] s.room).0.order2msg_db)
                (omega (arith, i, b, h.some_shown, h.in_range))
              ∙ ap (λ o. T.messages.get k o) c.1
              ∙ none_of (T.messages.get k s.room.order2msg_db) bare,
        )
