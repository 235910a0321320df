-- ===== src/Cache/Saving.antt =====
-- `saveTimelineMessages`: new events at the end of the timeline.
use nheko_library.Base.{
  ℕ, String, List, [], ◌∷◌, Option, none, some, Bool, true, false, not, ◌&&◌, str_eq, if◌then◌else◌,
}
use nheko_library.Cache.Room.{OrderEntry, Event, CacheEnv, Tables, Room, next64, middle, get_or}

-- The loop's variables, with the tables it writes.
pub record Saving (T : Tables) : Type 0 where
  pub room : Room T
  pub index : ℕ
  pub msg_index : ℕ
  pub is_first : Bool

module _ (T : Tables) where
  -- `relationsDb.put` for all relations with an id.
  unfoldable pub put_relations : List String → (event_id : String) → Room T → Room T
  put_relations [] id r = r
  put_relations (to ∷ rels) id r =
      put_relations rels id
        (if str_eq to "" then r else record r { relations_db = T.related.put to id r.relations_db })

  unfoldable pub move_relations : List String → (txn_id event_id : String) → Room T → Room T
  move_relations [] txn_id id r = r
  move_relations (to ∷ rels) txn_id id r = move_relations rels txn_id id (
      if str_eq to ""
      then r
      else record r { relations_db = T.related.put to id (T.related.del to txn_id r.relations_db) })

  -- The loop that deletes the entries of `pending` with this value.
  unfoldable pub del_pending :
      List (ℕ × String) → (txn_id : String) → T.pending.Table → T.pending.Table
  del_pending [] txn_id p = p
  del_pending ((time, id) ∷ rest) txn_id p =
      del_pending rest txn_id (if str_eq id txn_id then T.pending.del time p else p)

  unfoldable pub remove_pending_status : (txn_id : String) → Room T → Room T
  remove_pending_status txn_id r = record r {
    pending_db = del_pending (T.pending.entries r.pending_db) txn_id r.pending_db;
  }

  abbrev pub order_entry : (prev_batch : String) → Event → Bool → OrderEntry
  order_entry prev_batch e is_first = record {
    event_id = e.event_id;
    prev_batch = if is_first && not (str_eq prev_batch "") then some prev_batch else none;
  }

  -- A message of this device comes back from the server: it takes the place of its transaction id.
  unfoldable pub replace_message : Event → Room T → Room T
  replace_message e r = elim (T.indices.get e.transaction_id r.msg2order_db) [
    | none ↦ r
    | some at ↦ record r {
      order2msg_db = T.messages.put at e.event_id r.order2msg_db;
      msg2order_db = T.indices.del e.transaction_id (T.indices.put e.event_id at r.msg2order_db);
    }
  ]

  unfoldable pub save_sent : OrderEntry → ℕ → Event → Room T → Room T
  save_sent entry txn_order e r =
      let s = replace_message e (record r {
        events_db = T.events.del e.transaction_id (T.events.put e.event_id e.json r.events_db);
      }) in
      let t = record s {
        order_db = T.order.put txn_order entry s.order_db;
        ev_to_order_db =
            T.indices.del e.transaction_id (T.indices.put e.event_id txn_order s.ev_to_order_db);
      } in
      remove_pending_status e.transaction_id
        (move_relations e.relations e.transaction_id e.event_id t)

  unfoldable pub save_redaction : CacheEnv → (redacts : String) → Event → Room T → Room T
  save_redaction env redacts e r =
      if str_eq redacts "" then r else elim (T.events.get redacts r.events_db) [
        | none ↦ r
        | some old ↦ elim (env.redacted old e) [
          | none ↦ r
          | some new ↦ record r {
            events_db = T.events.put e.event_id e.json (T.events.put redacts new r.events_db);
          }
        ]
      ]

  -- An id that is not in the tables gets the next index, and, if it is shown, the next message index.
  unfoldable pub append_event : CacheEnv → OrderEntry → Event → Saving T → Saving T
  append_event env entry e s =
      let i = next64 s.index in
      let r = record s.room {
        order_db = T.order.put i entry s.room.order_db;
        ev_to_order_db = T.indices.put e.event_id i s.room.ev_to_order_db;
      } in
      let m = next64 s.msg_index in
      if env.is_hidden e then record s { room = r; index = i } else record s {
        room = record r {
          order2msg_db = T.messages.put m e.event_id r.order2msg_db;
          msg2order_db = T.indices.put e.event_id m r.msg2order_db;
        };
        index = i;
        msg_index = m;
      }

  abbrev pub known : String → Room T → Bool
  known id r = elim (T.indices.get id r.ev_to_order_db) [ none ↦ false | some _ ↦ true ]

  unfoldable pub save_new : CacheEnv → OrderEntry → Event → Saving T → Saving T
  save_new env entry e s =
      let t = if known e.event_id s.room then s else append_event env entry e s in
      record t {
        room =
            put_relations e.relations e.event_id
              (record t.room { events_db = T.events.put e.event_id e.json t.room.events_db });
        is_first = false;
      }

  -- Where the event stands by its transaction id, if this device sent it.
  abbrev pub sent_as : Event → Room T → Option ℕ
  sent_as e r =
      if str_eq e.transaction_id "" then none else T.indices.get e.transaction_id r.ev_to_order_db

  -- The body of the loop.
  unfoldable pub save_event : CacheEnv → (prev_batch : String) → Event → Saving T → Saving T
  save_event env prev_batch e s =
      let entry = order_entry prev_batch e s.is_first in
      if str_eq e.event_id "" then s else elim (sent_as e s.room) [
        | some at ↦ record s { room = save_sent entry at e s.room }
        | none ↦ elim e.redacts [
          | some redacts ↦ record s { room = save_redaction env redacts e s.room }
          | none ↦ save_new env entry e s
        ]
      ]

  unfoldable pub save_events : CacheEnv → (prev_batch : String) → List Event → Saving T → Saving T
  save_events env prev_batch [] s = s
  save_events env prev_batch (e ∷ es) s =
      save_events env prev_batch es (save_event env prev_batch e s)

  -- `lmdb::dbi_drop`, for a gap before the events.
  abbrev pub dropped : Room T → Room T
  dropped r = record r {
    order_db = T.order.empty;
    ev_to_order_db = T.indices.empty;
    msg2order_db = T.indices.empty;
    order2msg_db = T.messages.empty;
    pending_db = T.pending.empty;
  }

  abbrev pub start_saving : Room T → Saving T
  start_saving r = record {
    room = r;
    index = get_or (T.order.last r.order_db) middle;
    msg_index = get_or (T.messages.last r.order2msg_db) middle;
    is_first = true;
  }

  unfoldable pub save_timeline_messages :
      CacheEnv → (limited : Bool) → (prev_batch : String) → List Event → Room T → Room T
  save_timeline_messages env limited prev_batch [] r = r
  save_timeline_messages env limited prev_batch (e ∷ es) r =
      (save_events env prev_batch (e ∷ es) (start_saving (if limited then dropped r else r))).room
