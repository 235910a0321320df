-- ===== src/Cache/Old.antt =====
-- `saveOldMessages`: older events before the first one of the timeline.
use nheko_library.Base.{ℕ, String, List, [], ◌∷◌, none, some, if◌then◌else◌}
use nheko_library.Cache.Room.{Event, CacheEnv, Tables, Room, prev64, middle, get_or}
use nheko_library.Cache.Saving.{put_relations, known}

-- The loop's variables.
pub record Loading (T : Tables) : Type 0 where
  pub room : Room T
  pub index : ℕ
  pub msg_index : ℕ
  pub event_id_val : String

module _ (T : Tables) where
  -- An id that is not in the tables gets the index before the first.
  unfoldable pub prepend_event : CacheEnv → Event → Loading T → Loading T
  prepend_event env e s =
      let i = prev64 s.index in
      let r = record s.room {
        order_db =
            T.order.put i (record { event_id = e.event_id; prev_batch = none }) s.room.order_db;
        ev_to_order_db = T.indices.put e.event_id i s.room.ev_to_order_db;
      } in
      let m = prev64 s.msg_index in
      if env.is_hidden e then record s { room = r; index = i } else record s {
        room = record r {
          order2msg_db = T.messages.put m e.event_id r.order2msg_db;
          msg2order_db = T.indices.put e.event_id m r.msg2order_db;
        };
        index = i;
        msg_index = m;
      }

  -- The body of the loop. Redactions are passed over.
  unfoldable pub load_event : CacheEnv → Event → Loading T → Loading T
  load_event env e s = elim e.redacts [
    | some _ ↦ s
    | none ↦
        (let s' = record s { event_id_val = e.event_id } in
          let t = if known T e.event_id s.room then s' else prepend_event env e s' in
          record t {
            room =
                put_relations T e.relations e.event_id
                  (record t.room { events_db = T.events.put e.event_id e.json t.room.events_db });
          })
  ]

  unfoldable pub load_events : CacheEnv → List Event → Loading T → Loading T
  load_events env [] s = s
  load_events env (e ∷ es) s = load_events env es (load_event env e s)

  abbrev pub start_loading : Room T → Loading T
  start_loading r = record {
    room = r;
    index = get_or (T.order.first r.order_db) middle;
    msg_index = get_or (T.messages.first r.order2msg_db) middle;
    event_id_val = "";
  }

  -- The first entry keeps the token for what comes before it.
  abbrev pub finish_loading : (end_token : String) → Loading T → Room T
  finish_loading end_token s = record s.room {
    order_db =
        T.order.put s.index (record { event_id = s.event_id_val; prev_batch = some end_token })
          s.room.order_db;
  }

  -- The room after it, and the index that it returns.
  unfoldable pub save_old_messages :
      CacheEnv → (end_token : String) → List Event → Room T → Room T × ℕ
  save_old_messages env end_token [] r =
      let s = start_loading r in
      elim (T.order.get s.index r.order_db) [
        | none ↦ (r, s.index)
        | some entry ↦ (
          record r {
            order_db =
                T.order.put s.index (record entry { prev_batch = some end_token }) r.order_db;
          },
          s.index,
        )
      ]
  save_old_messages env end_token (e ∷ es) r =
      let s = load_events env (e ∷ es) (start_loading r) in
      (finish_loading end_token s, s.msg_index)
