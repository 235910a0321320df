-- ===== src/Cache/Loaded.antt =====
-- Loading old events keeps the message tables in order, and goes on from the first message.
use mathlib.Core.Path.{subst}
use nheko_library.Base.{
  ◌+◌, ℕ, suc, ◌^◌, ◌≤◌, ◌<◌, ◌≡◌, refl, sym, ap, ◌∙◌, String, List, [], ◌∷◌, none, str_eq, arith,
  Bool-cases, Option-cases, inl, inr, ◌⊎◌, length,
}
use nheko_library.Cache.Room.{Event, CacheEnv, Tables, Room, prev64, middle, get_or}
use nheko_library.Cache.Saving.{put_relations, known}
use nheko_library.Cache.Old.{
  Loading, prepend_event, load_event, load_events, start_loading, finish_loading, save_old_messages,
}
use nheko_library.Cache.Coherence.{
  Coherent, empty-Coherent, not_known, first-lo, some_of, prepend-Coherent, hide-Coherent,
  other-Coherent,
}

module _ (T : Tables) where
  abbrev with_relations : T.related.Table → Room T → Room T
  with_relations d r = record r { relations_db = d }

  pub put_relations-same :
      (rels : List String) (id : String) (r : Room T)
      → (d : T.related.Table) × (put_relations T rels id r ≡ with_relations d r)
  unfolding put_relations
  put_relations-same [] id r = (r.relations_db, refl)
  put_relations-same (to ∷ rels) id r = elim (Bool-cases (str_eq to "")) [
    | inl e ↦ rw (e, put_relations) (put_relations-same rels id r)
    | inr e ↦
        rw (e, put_relations)
          (let h =
              put_relations-same rels id (with_relations (T.related.put to id r.relations_db) r) in
            (h.0, h.1))
  ]

  pub put_relations-Coherent :
      {lo hi : ℕ} (rels : List String) (id : String) (r : Room T) (events : T.events.Table)
      → Coherent T lo hi r
      → Coherent T lo hi (put_relations T rels id (record r { events_db = events }))
  put_relations-Coherent {lo} {hi} rels id r events c =
      let h = put_relations-same rels id (record r { events_db = events }) in
      subst (Coherent T lo hi) (sym h.1) (other-Coherent T r c r.order_db events h.0 r.pending_db)

  -- Where the loop stands: before the message `s.msg_index`, which is the first.
  pub record Loaded (lo hi : ℕ) (s : Loading T) : Type 0 where
    pub coherent : Coherent T lo hi s.room
    pub at : s.msg_index ≡ lo

  -- The message tables after one more event: the first index is the same, or one less.
  abbrev GoesOn : ℕ → ℕ → Loading T → Type 0
  GoesOn lo hi s = (lo' : ℕ) × (Loaded lo' hi s) × (lo' ≤ lo) × (lo ≤ suc lo')

  prepend_event-Loaded :
      (env : CacheEnv) (e : Event) (lo hi : ℕ) (s : Loading T)
      → Loaded lo hi s
      → 0 < lo
      → lo < 2 ^ 64
      → T.indices.get e.event_id s.room.ev_to_order_db ≡ none
      → GoesOn lo hi (prepend_event T env e s)
  unfolding prepend_event
  prepend_event-Loaded env e lo hi s l z b fresh = elim (Bool-cases (env.is_hidden e)) [
    | inl h ↦
        rw (h, prepend_event)
          (
            lo,
            record { coherent = hide-Coherent T s.room l.coherent e.event_id _ _; at = l.at },
            omega arith,
            omega arith,
          )
    | inr h ↦
        rw (h, prepend_event)
          (
            prev64 s.msg_index,
            record {
              coherent =
                  prepend-Coherent T s.room l.coherent e.event_id (prev64 s.msg_index) _ _ fresh
                    (omega (arith, l.at));
              at = refl;
            },
            omega (arith, l.at),
            omega (arith, l.at),
          )
  ]

  with_event-GoesOn :
      (e : Event) (events : T.events.Table) (lo hi : ℕ) (s : Loading T)
      → GoesOn lo hi s
      → GoesOn lo hi (record s {
        room = put_relations T e.relations e.event_id (record s.room { events_db = events });
      })
  with_event-GoesOn e events lo hi s (lo', l, p, q) = (
    lo',
    record {
      coherent = put_relations-Coherent e.relations e.event_id s.room events l.coherent;
      at = l.at;
    },
    p,
    q,
  )

  load_event-Loaded :
      (env : CacheEnv) (e : Event) (lo hi : ℕ) (s : Loading T)
      → Loaded lo hi s
      → 0 < lo
      → lo < 2 ^ 64
      → GoesOn lo hi (load_event T env e s)
  unfolding load_event
  load_event-Loaded env e lo hi s l z b = elim (Option-cases e.redacts) [
    | inr (to, n) ↦ rw (n, load_event) (lo, l, omega arith, omega arith)
    | inl n ↦
        (let t = record s { event_id_val = e.event_id } in
          let l' : Loaded lo hi t = record { coherent = l.coherent; at = l.at } in
          elim (Bool-cases (known T e.event_id s.room)) [
            | inl k ↦
                rw (n, k, load_event)
                  (with_event-GoesOn e _ lo hi t (lo, l', omega arith, omega arith))
            | inr k ↦
                rw (n, k, load_event)
                  (with_event-GoesOn e _ lo hi (prepend_event T env e t)
                    (prepend_event-Loaded env e lo hi t l' z b (not_known T e.event_id s.room k)))
          ])
  ]

  load_events-Loaded :
      (env : CacheEnv) (es : List Event) (lo hi : ℕ) (s : Loading T)
      → Loaded lo hi s
      → length es < lo
      → lo < 2 ^ 64
      → (lo' : ℕ) × (Loaded lo' hi (load_events T env es s)) × (lo' ≤ lo) × (lo ≤ lo' + length es)
  unfolding load_events
  load_events-Loaded env [] lo hi s l z b = (lo, l, omega arith, omega arith)
  load_events-Loaded env (e ∷ es) lo hi s l z b =
      let one = load_event-Loaded env e lo hi s l (omega arith) b in
      let rest =
        load_events-Loaded env es one.0 hi (load_event T env e s) one.1
          (omega (arith, one.2, one.3)) (omega (arith, one.2)) in
      (rest.0, rest.1, omega (arith, rest.2, one.2), omega (arith, rest.3, one.3))

  -- Where `first` stands: at the lowest message, or in the middle for a room that has none.
  start_loading-Loaded :
      (lo hi : ℕ) (r : Room T)
      → Coherent T lo hi r
      → (k : ℕ) × (j : ℕ) × (Loaded k j (start_loading T r)) × ((k ≡ lo) ⊎ (k ≡ middle))
  start_loading-Loaded lo hi r c = elim (Option-cases (T.messages.first r.order2msg_db)) [
    | inl n ↦ (
      middle,
      middle,
      record {
        coherent = empty-Coherent T r c (λ i. T.messages.first-none i r.order2msg_db n);
        at = ap (λ o. get_or o middle) n;
      },
      inr refl,
    )
    | inr (k, e) ↦ (
      lo,
      hi,
      record { coherent = c; at = ap (λ o. get_or o middle) e ∙ first-lo T r c k e },
      inl refl,
    )
  ]

  finish_loading-Coherent :
      (lo hi : ℕ) (end_token : String) (s : Loading T)
      → Loaded lo hi s
      → Coherent T lo hi (finish_loading T end_token s)
  finish_loading-Coherent lo hi end_token s l =
      other-Coherent T s.room l.coherent _ s.room.events_db s.room.relations_db s.room.pending_db

  -- Loading events before the first message keeps the message tables in order, as long as there are
  -- indices left for them below, and the index that is returned is that of the first message then (or
  -- the one after which the next would stand, if there is none). The events before have more messages.
  pub save_old_messages-Coherent :
      (env : CacheEnv) (end_token : String) (e : Event) (es : List Event) (lo hi : ℕ) (r : Room T)
      → Coherent T lo hi r
      → suc (length es) < lo
      → lo < 2 ^ 64
      → suc (length es) < middle
      → let n = save_old_messages T env end_token (e ∷ es) r in (j : ℕ) × Coherent T n.1 j n.0
  unfolding save_old_messages
  save_old_messages-Coherent env end_token e es lo hi r c z b m =
      let st = start_loading-Loaded lo hi r c in
      let l =
        load_events-Loaded env (e ∷ es) st.0 st.1 (start_loading T r) st.2 (ground (arith, st.3))
          (ground (arith, st.3)) in
      (
        st.1,
        subst
            (λ k.
              Coherent T k st.1
                (finish_loading T end_token (load_events T env (e ∷ es) (start_loading T r))))
            (sym l.1.at) (finish_loading-Coherent l.0 st.1 end_token _ l.1),
      )

  pub start_loading-first :
      (lo hi : ℕ) (r : Room T) → Coherent T lo hi r → lo < hi → Loaded lo hi (start_loading T r)
  start_loading-first lo hi r c b = elim (Option-cases (T.messages.first r.order2msg_db)) [
    | inl n ↦
        (let (w, g) = some_of T lo r.order2msg_db (ground (arith, c.shown lo)) in
          ground (arith, T.messages.first-none lo r.order2msg_db n, g))
    | inr (k, e) ↦ record { coherent = c; at = ap (λ o. get_or o middle) e ∙ first-lo T r c k e }
  ]

  -- In a room with messages the last one stays.
  pub save_old_messages-below :
      (env : CacheEnv) (end_token : String) (e : Event) (es : List Event) (lo hi : ℕ) (r : Room T)
      → Coherent T lo hi r
      → lo < hi
      → suc (length es) < lo
      → lo < 2 ^ 64
      → let n = save_old_messages T env end_token (e ∷ es) r in
        Coherent T n.1 hi n.0 × (n.1 ≤ lo) × (lo ≤ n.1 + suc (length es))
  unfolding save_old_messages
  save_old_messages-below env end_token e es lo hi r c m z b =
      let l =
        load_events-Loaded env (e ∷ es) lo hi (start_loading T r) (start_loading-first lo hi r c m)
          z b in
      let s = load_events T env (e ∷ es) (start_loading T r) in
      (
        subst (λ k. Coherent T k hi (finish_loading T end_token s)) (sym l.1.at)
            (finish_loading-Coherent l.0 hi end_token s l.1),
        omega (arith, l.1.at, l.2),
        omega (arith, l.1.at, l.3),
      )
