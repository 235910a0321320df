-- ===== src/Cache/Added.antt =====
-- `saveOldMessages`: the messages that it puts before the first one, and those that it leaves.
use Prim.{tt}
use nheko_library.Base.{
  ℕ, suc, ◌+◌, ◌-◌, ◌^◌, ◌≤◌, ◌<◌, ◌≡◌, refl, sym, ap, ◌∙◌, String, List, [], ◌∷◌, none, Bool,
  false, ◌||◌, arith, eq_iff, Bool-cases, inl, inr, length,
}
use nheko_library.Cache.Room.{Event, CacheEnv, Tables, Room, prev64}
use nheko_library.Cache.Saving.{known}
use nheko_library.Cache.Old.{
  Loading, load_event, load_events, start_loading, finish_loading, save_old_messages,
}
use nheko_library.Cache.Coherence.{Coherent}
use nheko_library.Cache.Loaded.{start_loading-first}
use nheko_library.Cache.NewMessages.{
  new_messages, is_redaction, not_redaction, StandBefore, StandBefore-same, Tracks,
  load_event-passed, load_event-hidden, load_event-shown,
}

module _ (T : Tables) where
  -- From one state of the loop to a later one: the ids stand before the messages, which are as they were.
  pub record Adds (ids : List String) (lo : ℕ) (r : Room T) (s : Loading T) : Type 0 where
    pub at : s.msg_index + length ids ≡ lo
    pub stand : StandBefore T lo ids s.room
    pub kept :
        (i : ℕ) → lo ≤ i → T.messages.get i s.room.order2msg_db ≡ T.messages.get i r.order2msg_db

  Tracks-same :
      (arrived : String → Bool) (seen : List String) (r r' : Room T)
      → r'.ev_to_order_db ≡ r.ev_to_order_db
      → Tracks T arrived seen r
      → Tracks T arrived seen r'
  Tracks-same arrived seen r r' same tracks id =
      ground (arith, ap (T.indices.get id) same, tracks id)

  Tracks-put :
      (arrived : String → Bool) (seen : List String) (new : String) (i : ℕ) (r r' : Room T)
      → r'.ev_to_order_db ≡ T.indices.put new i r.ev_to_order_db
      → Tracks T arrived seen r
      → Tracks T arrived (new ∷ seen) r'
  Tracks-put arrived seen new i r r' same tracks id = ground (
    arith,
    ap (T.indices.get id) same,
    tracks id,
    T.indices.get-put new id i r.ev_to_order_db,
    eq_iff new id,
  )

  Adds-same :
      (ids : List String) (lo : ℕ) (r r' : Room T) (s : Loading T)
      → r'.order2msg_db ≡ r.order2msg_db
      → Adds ids lo r' s
      → Adds ids lo r s
  Adds-same ids lo r r' s same adds = record {
    at = adds.at;
    stand = adds.stand;
    kept = λ i p. adds.kept i p ∙ ap (T.messages.get i) same;
  }

  Adds-put :
      (new : String) (ids : List String) (lo : ℕ) (r r' : Room T) (s : Loading T)
      → 0 < lo
      → r'.order2msg_db ≡ T.messages.put (lo - 1) new r.order2msg_db
      → Adds ids (lo - 1) r' s
      → Adds (new ∷ ids) lo r s
  Adds-put new ids lo r r' s z same adds = record {
    at = omega (arith, adds.at);
    stand = (
      adds.kept (lo - 1) (omega arith)
          ∙ ap (T.messages.get (lo - 1)) same
          ∙ ground (arith, T.messages.get-put (lo - 1) (lo - 1) new r.order2msg_db),
      adds.stand,
    );
    kept = λ i p.
        adds.kept i (omega (arith, p))
        ∙ ap (T.messages.get i) same
        ∙ ground (arith, p, T.messages.get-put (lo - 1) i new r.order2msg_db);
  }

  -- Of the events, those that are new messages are put before the first message, and nothing else changes
  -- what is a message.
  pub load_events-Adds :
      (env : CacheEnv) (arrived : String → Bool) (seen : List String) (es : List Event) (lo : ℕ)
      (s : Loading T)
      → Tracks T arrived seen s.room
      → s.msg_index ≡ lo
      → length es < lo
      → lo < 2 ^ 64
      → Adds (new_messages env arrived seen es) lo s.room (load_events T env es s)
  unfolding load_events
  load_events-Adds env arrived seen [] lo s tracks at z b = record {
    at = omega (arith, at);
    stand = tt;
    kept = λ i p. refl;
  }
  load_events-Adds env arrived seen (e ∷ es) lo s tracks at z b =
      elim (Bool-cases (is_redaction e.redacts || known T e.event_id s.room)) [
        | inl pass ↦
            let (m, a, x) = load_event-passed T env e s pass in
            rw (ap (λ k. is_redaction e.redacts || k) (sym (tracks e.event_id)) ∙ pass) (
              Adds-same _ lo s.room (load_event T env e s).room _ m (
                load_events-Adds env arrived seen es lo (load_event T env e s)
                  (Tracks-same arrived seen s.room (load_event T env e s).room a tracks) (x ∙ at)
                  (omega (arith, z)) b))
        | inr new ↦
            let n : e.redacts ≡ none = not_redaction _ e.redacts new in
            let k : known T e.event_id s.room ≡ false = ground (arith, new) in
            rw (ap (λ k. is_redaction e.redacts || k) (sym (tracks e.event_id)) ∙ new)
              (elim (Bool-cases (env.is_hidden e)) [
                | inl h ↦
                    let (m, a, x) = load_event-hidden T env e s n k h in
                    rw h (
                      Adds-same _ lo s.room (load_event T env e s).room _ m (
                        load_events-Adds env arrived (e.event_id ∷ seen) es lo
                          (load_event T env e s)
                          (Tracks-put arrived seen e.event_id _ s.room (load_event T env e s).room a
                            tracks)
                          (x ∙ at) (omega (arith, z)) b))
                | inr h ↦
                    let (m, a, x) = load_event-shown T env e s n k h in
                    let below : prev64 s.msg_index ≡ lo - 1 = omega (arith, at, z, b) in
                    rw h (
                      Adds-put e.event_id _ lo s.room (load_event T env e s).room _
                        (omega (arith, z))
                        (m ∙ ap (λ i. T.messages.put i e.event_id s.room.order2msg_db) below)
                        (load_events-Adds env arrived (e.event_id ∷ seen) es (lo - 1)
                          (load_event T env e s)
                          (Tracks-put arrived seen e.event_id _ s.room (load_event T env e s).room a
                            tracks)
                          (x ∙ below) (omega (arith, z)) (omega (arith, b))))
              ])
      ]

  -- Where a room has messages: the ids that older events add stand in front of them, the first of them next
  -- to what was the first message, and the messages from there on are as they were.
  pub save_old_messages-Adds :
      (env : CacheEnv) (end_token : String) (e : Event) (es : List Event) (lo hi : ℕ) (r : Room T)
      → Coherent T lo hi r
      → lo < hi
      → suc (length es) < lo
      → lo < 2 ^ 64
      → let n = save_old_messages T env end_token (e ∷ es) r in
        let ids = new_messages env (λ id. known T id r) [] (e ∷ es) in
        (n.1 + length ids ≡ lo)
        × StandBefore T lo ids n.0
        × ((i : ℕ) → lo ≤ i → T.messages.get i n.0.order2msg_db ≡ T.messages.get i r.order2msg_db)
  unfolding save_old_messages
  save_old_messages-Adds env end_token e es lo hi r c m z b =
      let adds =
        load_events-Adds env (λ id. known T id r) [] (e ∷ es) lo (start_loading T r)
          (λ id. ground arith) (start_loading-first T lo hi r c m).at z b in
      (
        adds.at,
        StandBefore-same T lo _ (load_events T env (e ∷ es) (start_loading T r)).room
            (finish_loading T end_token (load_events T env (e ∷ es) (start_loading T r))) refl
            adds.stand,
        adds.kept,
      )
