-- ===== src/Cache/NewMessages.antt =====
-- `saveOldMessages`: which messages it puts before the first one, and that it leaves the others.
use Prim.{tt}
use nheko_library.Base.{
  ℕ, ◌-◌, ◌≡◌, refl, ap, ◌∙◌, String, List, [], ◌∷◌, Option, none, some, Bool, true, false, ◌||◌,
  if◌then◌else◌, arith, Option-cases, inl, inr, contains,
}
use nheko_library.Cache.Room.{Event, CacheEnv, Tables, Room, prev64}
use nheko_library.Cache.Saving.{put_relations, known}
use nheko_library.Cache.Old.{Loading, prepend_event, load_event}
use nheko_library.Cache.Loaded.{put_relations-same}

abbrev pub is_redaction : Option String → Bool
is_redaction none = false
is_redaction (some _) = true

-- The ids that become messages, of events with the latest first: each that is no redaction, has not
-- arrived before and does not come earlier in the list, and is not hidden.
abbrev pub new_messages :
    CacheEnv → (arrived : String → Bool) → (seen : List String) → List Event → List String
new_messages env arrived seen [] = []
new_messages env arrived seen (e ∷ es) =
    let later = new_messages env arrived (e.event_id ∷ seen) es in
    if is_redaction e.redacts || (arrived e.event_id || contains e.event_id seen)
    then new_messages env arrived seen es
    else if env.is_hidden e
    then later
    else e.event_id ∷ later

pub not_redaction : (b : Bool) (o : Option String) → (is_redaction o || b) ≡ false → o ≡ none
not_redaction b none h = refl
not_redaction b (some to) h = absurd (ground arith)

module _ (T : Tables) where
  -- The ids stand before the message index, the first of them next to it.
  abbrev pub StandBefore : ℕ → List String → Room T → Type 0
  StandBefore lo [] r = Unit {0}
  StandBefore lo (id ∷ ids) r =
      (T.messages.get (lo - 1) r.order2msg_db ≡ some id) × StandBefore (lo - 1) ids r

  pub StandBefore-same :
      (lo : ℕ) (ids : List String) (r r' : Room T)
      → r'.order2msg_db ≡ r.order2msg_db
      → StandBefore lo ids r
      → StandBefore lo ids r'
  StandBefore-same lo [] r r' same stand = tt
  StandBefore-same lo (id ∷ ids) r r' same (at, stand) =
      (ap (T.messages.get (lo - 1)) same ∙ at, StandBefore-same (lo - 1) ids r r' same stand)

  abbrev pub Tracks : (String → Bool) → List String → Room T → Type 0
  Tracks arrived seen r = (id : String) → known T id r ≡ (arrived id || contains id seen)

  abbrev pub Becomes : T.messages.Table → T.indices.Table → ℕ → Loading T → Type 0
  Becomes messages arrivals m s =
      (s.room.order2msg_db ≡ messages) × (s.room.ev_to_order_db ≡ arrivals) × (s.msg_index ≡ m)

  with_event-Becomes :
      (e : Event) (events : T.events.Table) (messages : T.messages.Table)
      (arrivals : T.indices.Table) (m : ℕ) (s : Loading T)
      → Becomes messages arrivals m s
      → Becomes messages arrivals m (record s {
        room = put_relations T e.relations e.event_id (record s.room { events_db = events });
      })
  with_event-Becomes e events messages arrivals m s (x, y, z) =
      let same =
        put_relations-same T e.relations e.event_id (record s.room { events_db = events }) in
      (ap (λ r. r.order2msg_db) same.1 ∙ x, ap (λ r. r.ev_to_order_db) same.1 ∙ y, z)

  module _ (env : CacheEnv) (e : Event) (s : Loading T) where
    prepend_event-hidden :
        env.is_hidden e ≡ true
        → Becomes s.room.order2msg_db
            (T.indices.put e.event_id (prev64 s.index) s.room.ev_to_order_db)
            s.msg_index
            (prepend_event T env e s)
    unfolding prepend_event
    prepend_event-hidden h = rw (h, prepend_event) (refl, refl, refl)

    prepend_event-shown :
        env.is_hidden e ≡ false
        → Becomes
            (T.messages.put (prev64 s.msg_index) e.event_id s.room.order2msg_db)
            (T.indices.put e.event_id (prev64 s.index) s.room.ev_to_order_db)
            (prev64 s.msg_index)
            (prepend_event T env e s)
    unfolding prepend_event
    prepend_event-shown h = rw (h, prepend_event) (refl, refl, refl)

  module _ (env : CacheEnv) (e : Event) (s : Loading T) where
    pub load_event-passed :
        (is_redaction e.redacts || known T e.event_id s.room) ≡ true
        → Becomes s.room.order2msg_db s.room.ev_to_order_db s.msg_index (load_event T env e s)
    unfolding load_event
    load_event-passed h = elim (Option-cases e.redacts) [
      | inr (to, n) ↦ rw (n, load_event) (refl, refl, refl)
      | inl n ↦
          let k : known T e.event_id s.room ≡ true = rw n at h in
          rw (n, k, load_event)
            (with_event-Becomes e _ _ _ _ (record s { event_id_val = e.event_id })
              (refl, refl, refl))
    ]

    module _ (n : e.redacts ≡ none) (k : known T e.event_id s.room ≡ false) where
      pub load_event-hidden :
          env.is_hidden e ≡ true
          → Becomes s.room.order2msg_db
              (T.indices.put e.event_id (prev64 s.index) s.room.ev_to_order_db)
              s.msg_index
              (load_event T env e s)
      unfolding load_event
      load_event-hidden h =
          rw (n, k, load_event)
            (with_event-Becomes e _ _ _ _
              (prepend_event T env e (record s { event_id_val = e.event_id }))
              (prepend_event-hidden env e (record s { event_id_val = e.event_id }) h))

      pub load_event-shown :
          env.is_hidden e ≡ false
          → Becomes
              (T.messages.put (prev64 s.msg_index) e.event_id s.room.order2msg_db)
              (T.indices.put e.event_id (prev64 s.index) s.room.ev_to_order_db)
              (prev64 s.msg_index)
              (load_event T env e s)
      unfolding load_event
      load_event-shown h =
          rw (n, k, load_event)
            (with_event-Becomes e _ _ _ _
              (prepend_event T env e (record s { event_id_val = e.event_id }))
              (prepend_event-shown env e (record s { event_id_val = e.event_id }) h))
