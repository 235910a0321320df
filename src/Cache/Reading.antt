-- ===== src/Cache/Reading.antt =====
-- The cache's questions about a timeline, and its queue of messages to send.
use nheko_library.Base.{
  ℕ, String, List, [], ◌∷◌, Option, none, some, Bool, true, false, map, ◌==◌, str_eq, if◌then◌else◌,
}
use nheko_library.Cache.Room.{OrderEntry, Event, CacheEnv, Tables, Room}
use nheko_library.Cache.Saving.{save_timeline_messages}

pub record TimelineRange : Type 0 where
  pub first : ℕ
  pub last : ℕ

module _ (T : Tables) where
  unfoldable pub get_timeline_range : Room T → Option TimelineRange
  get_timeline_range r = elim (T.messages.last r.order2msg_db) [
    | none ↦ none
    | some l ↦ elim (T.messages.first r.order2msg_db) [
      | none ↦ none
      | some f ↦ some (record { first = f; last = l })
    ]
  ]

  unfoldable pub get_timeline_index : (event_id : String) → Room T → Option ℕ
  get_timeline_index id r = if str_eq id "" then none else T.indices.get id r.msg2order_db

  unfoldable pub get_timeline_event_id : ℕ → Room T → Option String
  get_timeline_event_id i r = T.messages.get i r.order2msg_db

  unfoldable pub get_arrival_index : (event_id : String) → Room T → Option ℕ
  get_arrival_index id r = T.indices.get id r.ev_to_order_db

  unfoldable pub get_event_index : (event_id : String) → Room T → Option ℕ
  get_event_index id r = if str_eq id "" then none else T.indices.get id r.ev_to_order_db

  unfoldable pub get_last_event_id : Room T → String
  get_last_event_id r = elim (T.messages.last r.order2msg_db) [
    | none ↦ ""
    | some l ↦ elim (T.messages.get l r.order2msg_db) [ none ↦ "" | some id ↦ id ]
  ]

  unfoldable pub previous_batch_token : Room T → String
  previous_batch_token r = elim (T.order.first r.order_db) [
    | none ↦ ""
    | some i ↦ elim (T.order.get i r.order_db) [
      | none ↦ ""
      | some entry ↦ elim entry.prev_batch [ none ↦ "" | some token ↦ token ]
    ]
  ]

  -- The entries behind the one with this index, where the cursor stands after `MDB_SET`.
  unfoldable pub entries_after : ℕ → List (ℕ × OrderEntry) → List (ℕ × OrderEntry)
  entries_after i [] = []
  entries_after i ((j, e) ∷ es) = if i == j then es else entries_after i es

  abbrev pub is_shown : (event_id : String) → Room T → Bool
  is_shown id r = elim (T.indices.get id r.msg2order_db) [ none ↦ false | some _ ↦ true ]

  unfoldable pub last_hidden : ℕ → String → List (ℕ × OrderEntry) → Room T → ℕ × String
  last_hidden i id [] r = (i, id)
  last_hidden i id ((j, e) ∷ es) r =
      let rest = last_hidden j e.event_id es r in if is_shown e.event_id r then (i, id) else rest

  unfoldable pub last_invisible_event_after : (event_id : String) → Room T → Option (ℕ × String)
  last_invisible_event_after id r =
      if str_eq id "" then none else elim (T.indices.get id r.ev_to_order_db) [
        | none ↦ none
        | some i ↦ some (last_hidden i id (entries_after i (T.order.entries r.order_db)) r)
      ]

  unfoldable pub related_events : (event_id : String) → Room T → List String
  related_events id r = T.related.values id r.relations_db

  -- A message to send stands in the timeline under its transaction id, and in the queue under the time.
  unfoldable pub save_pending_message : CacheEnv → (now : ℕ) → Event → Room T → Room T
  save_pending_message env now e r =
      let s = save_timeline_messages T env false "" (e ∷ []) r in
      record s { pending_db = T.pending.put now e.event_id s.pending_db }

  unfoldable pub pending_events : Room T → List String
  pending_events r = map (λ p. p.1) (T.pending.entries r.pending_db)

  -- The loop of `firstPendingMessage`: an entry whose event is not there, or cannot be parsed, is deleted.
  unfoldable pub first_parsed :
      (parses : String → Bool)
      → T.events.Table
      → List (ℕ × String)
      → T.pending.Table
      → T.pending.Table × Option String
  first_parsed parses events [] p = (p, none)
  first_parsed parses events ((time, id) ∷ rest) p =
      let more = first_parsed parses events rest (T.pending.del time p) in
      elim (T.events.get id events) [
        | none ↦ more
        | some json ↦ if parses json then (p, some id) else more
      ]

  -- The id of the first message to send.
  unfoldable pub first_pending_message : (parses : String → Bool) → Room T → Room T × Option String
  first_pending_message parses r =
      let (p, found) =
        first_parsed parses r.events_db (T.pending.entries r.pending_db) r.pending_db in
      (record r { pending_db = p }, found)

  abbrev pub put_all : List String → (event_id : String) → T.related.Table → T.related.Table
  put_all [] id d = d
  put_all (to ∷ rels) id d = put_all rels id (T.related.put to id d)

  unfoldable pub replace_event :
      (event_id json : String) (relations : List String) → Room T → Room T
  replace_event id json relations r = record r {
    events_db = T.events.put id json (T.events.del id r.events_db);
    relations_db = put_all relations id r.relations_db;
  }
