-- ===== src/Cache/Saved.antt =====
-- Saving new events keeps the message tables in order, and goes on from the last message.
use nheko_library.Base.{
  ℕ, suc, ◌+◌, ◌^◌, ◌≤◌, ◌<◌, ◌≡◌, ◌≢◌, refl, ap, ◌∙◌, String, List, [], ◌∷◌, none, some, Bool,
  true, false, str_eq, if◌then◌else◌, arith, Bool-cases, Option-cases, inl, inr, ◌⊎◌, length,
}
use nheko_library.Cache.Room.{OrderEntry, Event, CacheEnv, Tables, Room, next64, middle, get_or}
use nheko_library.Cache.Saving.{
  Saving, save_redaction, append_event, known, save_new, save_event, save_events, sent_as, dropped,
  start_saving, save_timeline_messages,
}
use nheko_library.Cache.Coherence.{
  Coherent, empty-Coherent, not_known, append-Coherent, hide-Coherent, other-Coherent, last-hi,
}
use nheko_library.Cache.Loaded.{put_relations-Coherent}
use nheko_library.Cache.Saving.{put_relations}
use nheko_library.Cache.Echoed.{save_sent-Coherent}

module _ (T : Tables) where
  save_redaction-Coherent :
      {lo hi : ℕ} (env : CacheEnv) (to : String) (e : Event) (r : Room T)
      → Coherent T lo hi r
      → Coherent T lo hi (save_redaction T env to e r)
  unfolding save_redaction
  save_redaction-Coherent env to e r c = elim (Bool-cases (str_eq to "")) [
    | inl b ↦ rw (b, save_redaction) c
    | inr b ↦ elim (Option-cases (T.events.get to r.events_db)) [
      | inl n ↦ rw (b, n, save_redaction) c
      | inr (old, n) ↦ elim (Option-cases (env.redacted old e)) [
        | inl p ↦ rw (b, n, p, save_redaction) c
        | inr (new, p) ↦
            rw (b, n, p, save_redaction)
              (other-Coherent T r c r.order_db _ r.relations_db r.pending_db)
      ]
    ]
  ]

  -- Where the loop stands: behind the message `s.msg_index`, which is the last.
  pub record Saved (lo hi : ℕ) (s : Saving T) : Type 0 where
    pub coherent : Coherent T lo hi s.room
    pub at : suc s.msg_index ≡ hi

  abbrev GoesOn : ℕ → ℕ → Saving T → Type 0
  GoesOn lo hi s = (hi' : ℕ) × (Saved lo hi' s) × (hi ≤ hi') × (hi' ≤ suc hi)

  append_event-Saved :
      (env : CacheEnv) (entry : OrderEntry) (e : Event) (lo hi : ℕ) (s : Saving T)
      → Saved lo hi s
      → suc hi < 2 ^ 64
      → T.indices.get e.event_id s.room.ev_to_order_db ≡ none
      → GoesOn lo hi (append_event T env entry e s)
  unfolding append_event
  append_event-Saved env entry e lo hi s l b fresh = elim (Bool-cases (env.is_hidden e)) [
    | inl h ↦
        rw (h, append_event)
          (
            hi,
            record { coherent = hide-Coherent T s.room l.coherent e.event_id _ _; at = l.at },
            omega arith,
            omega arith,
          )
    | inr h ↦
        (let q : next64 s.msg_index ≡ hi = omega (arith, l.at) in
          rw (h, q, append_event)
            (
              suc hi,
              record {
                coherent = append-Coherent T s.room l.coherent e.event_id _ _ fresh;
                at = refl;
              },
              omega arith,
              omega arith,
            ))
  ]

  finished :
      (e : Event) (lo hi : ℕ) (s : Saving T)
      → GoesOn lo hi s
      → GoesOn lo hi (record s {
        room =
            put_relations T e.relations e.event_id
              (record s.room { events_db = T.events.put e.event_id e.json s.room.events_db });
        is_first = false;
      })
  finished e lo hi s (hi', l, p, q) = (
    hi',
    record {
      coherent = put_relations-Coherent T e.relations e.event_id s.room _ l.coherent;
      at = l.at;
    },
    p,
    q,
  )

  save_new-Saved :
      (env : CacheEnv) (entry : OrderEntry) (e : Event) (lo hi : ℕ) (s : Saving T)
      → Saved lo hi s
      → suc hi < 2 ^ 64
      → GoesOn lo hi (save_new T env entry e s)
  unfolding save_new
  save_new-Saved env entry e lo hi s l b = elim (Bool-cases (known T e.event_id s.room)) [
    | inl k ↦ rw (k, save_new) (finished e lo hi s (hi, l, omega arith, omega arith))
    | inr k ↦
        rw (k, save_new)
          (finished e lo hi (append_event T env entry e s)
            (append_event-Saved env entry e lo hi s l b (not_known T e.event_id s.room k)))
  ]

  -- An event that is taken for the echo of a sent message has a new id.
  abbrev Fitting : Event → Saving T → Type 0
  Fitting e s =
      (at : ℕ)
      → sent_as T e s.room ≡ some at
      → (T.indices.get e.event_id s.room.ev_to_order_db ≡ none) × (e.transaction_id ≢ e.event_id)

  pub data AllFitting (env : CacheEnv) (prev_batch : String) : List Event → Saving T → Type 0 where
    none_left : (s : Saving T) → AllFitting env prev_batch [] s
    one_more :
        (e : Event) (es : List Event) (s : Saving T)
        → Fitting e s
        → AllFitting env prev_batch es (save_event T env prev_batch e s)
        → AllFitting env prev_batch (e ∷ es) s

  save_event-Saved :
      (env : CacheEnv) (prev_batch : String) (e : Event) (lo hi : ℕ) (s : Saving T)
      → Saved lo hi s
      → suc hi < 2 ^ 64
      → Fitting e s
      → GoesOn lo hi (save_event T env prev_batch e s)
  unfolding save_event
  save_event-Saved env prev_batch e lo hi s l b f = elim (Bool-cases (str_eq e.event_id "")) [
    | inl n ↦ rw (n, save_event) (hi, l, omega arith, omega arith)
    | inr n ↦ elim (Option-cases (sent_as T e s.room)) [
      | inr (at, a) ↦
          rw (n, a, save_event)
            (
              hi,
              record {
                coherent = save_sent-Coherent T _ at e s.room l.coherent (f at a).0 (f at a).1;
                at = l.at;
              },
              omega arith,
              omega arith,
            )
      | inl a ↦ elim (Option-cases e.redacts) [
        | inr (to, o) ↦
            rw (n, a, o, save_event)
              (
                hi,
                record { coherent = save_redaction-Coherent env to e s.room l.coherent; at = l.at },
                omega arith,
                omega arith,
              )
        | inl o ↦ rw (n, a, o, save_event) (save_new-Saved env _ e lo hi s l b)
      ]
    ]
  ]

  save_events-Saved :
      (env : CacheEnv) (prev_batch : String) (es : List Event) (lo hi : ℕ) (s : Saving T)
      → Saved lo hi s
      → suc hi + length es < 2 ^ 64
      → AllFitting env prev_batch es s
      → (hi' : ℕ) × Saved lo hi' (save_events T env prev_batch es s)
  unfolding save_events
  save_events-Saved env prev_batch [] lo hi s l b fs = (hi, l)
  save_events-Saved env prev_batch (e ∷ es) lo hi s l b (one_more _ _ _ f fs) =
      let one = save_event-Saved env prev_batch e lo hi s l (omega arith) f in
      save_events-Saved env prev_batch es lo one.0 (save_event T env prev_batch e s) one.1
        (omega (arith, one.3)) fs

  start_saving-Saved :
      (lo hi : ℕ) (r : Room T)
      → Coherent T lo hi r
      → (k : ℕ) × (j : ℕ) × (Saved k j (start_saving T r)) × ((j ≡ hi) ⊎ (j ≡ suc middle))
  start_saving-Saved lo hi r c = elim (Option-cases (T.messages.last r.order2msg_db)) [
    | inl n ↦ (
      suc middle,
      suc middle,
      record {
        coherent = empty-Coherent T r c (λ i. T.messages.last-none i r.order2msg_db n);
        at = ap (λ o. suc (get_or o middle)) n;
      },
      inr refl,
    )
    | inr (k, e) ↦ (
      lo,
      hi,
      record { coherent = c; at = ap (λ o. suc (get_or o middle)) e ∙ last-hi T r c k e },
      inl refl,
    )
  ]

  saved_all :
      (env : CacheEnv) (prev_batch : String) (es : List Event) (lo hi : ℕ) (r : Room T)
      → Coherent T lo hi r
      → suc hi + length es < 2 ^ 64
      → length es < 2 ^ 62
      → AllFitting env prev_batch es (start_saving T r)
      → (k : ℕ) × (j : ℕ) × Coherent T k j (save_events T env prev_batch es (start_saving T r)).room
  saved_all env prev_batch es lo hi r c b m fs =
      let st = start_saving-Saved lo hi r c in
      let l =
        save_events-Saved env prev_batch es st.0 st.1 (start_saving T r) st.2
          (ground (arith, st.3, m, b)) fs in
      (st.0, l.0, l.1.coherent)

  dropped-Coherent : (r : Room T) → Coherent T 0 0 (dropped T r)
  dropped-Coherent r = record {
    ordered = omega arith;
    shown = λ i. ground (arith, T.messages.get-empty i);
    forward = λ i id h. ground (arith, h, T.messages.get-empty i);
    back = λ i id h. ground (arith, h, T.indices.get-empty id);
    arrived = λ id h. T.indices.get-empty id;
  }

  -- Saving events of a sync keeps the message tables in order, also behind a gap, as long as there are
  -- indices left above, if each event that comes back to this device as its own has a new id.
  pub save_timeline_messages-Coherent :
      (env : CacheEnv) (limited : Bool) (prev_batch : String) (es : List Event) (lo hi : ℕ)
      (r : Room T)
      → Coherent T lo hi r
      → suc hi + length es < 2 ^ 64
      → length es < 2 ^ 62
      → AllFitting env prev_batch es (start_saving T (if limited then dropped T r else r))
      → (k : ℕ) × (j : ℕ) × Coherent T k j (save_timeline_messages T env limited prev_batch es r)
  unfolding save_timeline_messages
  save_timeline_messages-Coherent env limited prev_batch [] lo hi r c b m fs = (lo, hi, c)
  save_timeline_messages-Coherent env true prev_batch (e ∷ es) lo hi r c b m fs =
      saved_all env prev_batch (e ∷ es) 0 0 (dropped T r) (dropped-Coherent r) (omega arith) m fs
  save_timeline_messages-Coherent env false prev_batch (e ∷ es) lo hi r c b m fs =
      saved_all env prev_batch (e ∷ es) lo hi r c b m fs
