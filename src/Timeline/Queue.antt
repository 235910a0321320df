-- ===== src/Timeline/Queue.antt =====
-- EventStore's queue: one message at a time goes to the server, and the next one only after its answer.
use Prim.Native.Char.{code}
use nheko_library.Base.{
  ℕ, ◌+◌, String, List, [], ◌∷◌, Option, none, some, Bool, false, not, ltb, ◌==◌, str_eq,
  if◌then◌else◌,
}
use nheko_library.Cache.Room.{Event, CacheEnv, Tables, Room}
use nheko_library.Cache.Saving.{remove_pending_status}
use nheko_library.Cache.Reading.{
  pending_events, first_pending_message, save_pending_message, get_timeline_index, replace_event,
}
use nheko_library.Timeline.Sync.{handle_sync}
use nheko_library.Timeline.Store.{
  Store, data_changed, send_message, read_event, start_timer, undefined_behaviour, emit,
  id_to_index,
}

-- What the queue uses of other code: whether the JSON of an event can be parsed and its type can be sent,
-- and the event whose relations to a sent message name its new id. The last is `none` where nothing is
-- replaced, or where an encrypted event has no session; encryption and JSON are other libraries'.
pub record QueueEnv : Type 0 where
  pub cache : CacheEnv
  pub parses : String → Bool
  pub can_send : (json : String) → Bool
  pub with_event_id : (txn_id event_id json : String) → Option (String × List String)

-- `txn_id[0] != 'm'`
abbrev pub starts_with_m : String → Bool
starts_with_m String.[] = false
starts_with_m (String.◌∷◌ c s) = code c == b'm'

module _ {T : Tables} (env : QueueEnv) where
  abbrev pub set_room : Room T → Store T → Store T
  set_room r s = record s { room = r }

  abbrev pub is_sendable : String → Room T → Bool
  is_sendable id r = elim (T.events.get id r.events_db) [
    | none ↦ false
    | some json ↦ env.can_send json
  ]

  -- The slot of `processPending` for a message that there is.
  unfoldable pub process_message : String → Store T → Store T
  process_message txn_id s =
      let t = record s { current_txn = txn_id } in
      if not (starts_with_m txn_id)
      then set_room (remove_pending_status T txn_id t.room) t
      else if is_sendable txn_id t.room
      then emit (send_message txn_id) t
      else t

  unfoldable pub process_pending : Store T → Store T
  process_pending s =
      if not (str_eq s.current_txn "")
      then s
      else (let (r, found) = first_pending_message T env.parses s.room in
          elim found [ none ↦ set_room r s | some txn_id ↦ process_message txn_id (set_room r s) ])

  -- The slot of `messageFailed`. Its timer comes back as `retry`.
  unfoldable pub message_failed : (txn_id : String) → Store T → Store T
  message_failed txn_id s =
      let count = s.current_txn_error_count + 1 in
      let t =
        if str_eq s.current_txn txn_id
        then (if ltb 10 count
            then record s {
              room = remove_pending_status T txn_id s.room;
              current_txn_error_count = 0;
            }
            else record s { current_txn_error_count = count })
        else s in
      emit (start_timer 1000) t

  unfoldable pub retry : Store T → Store T
  retry s = process_pending (record s { current_txn = "" })

  -- A message in the queue that relates to the one that was sent.
  unfoldable pub rename_in : (txn_id event_id pending_id : String) → Store T → Store T
  rename_in txn_id event_id id s = elim (T.events.get id s.room.events_db) [
    | none ↦ s
    | some json ↦ elim (env.with_event_id txn_id event_id json) [
      | none ↦ s
      | some (json', relations) ↦
          (let t = set_room (replace_event T id json' relations s.room) s in
            elim (get_timeline_index T id t.room) [
              | none ↦ emit undefined_behaviour t
              | some _ ↦ t
            ])
    ]
  ]

  unfoldable pub rename_in_all : (txn_id event_id : String) → List String → Store T → Store T
  rename_in_all txn_id event_id [] s = s
  rename_in_all txn_id event_id (id ∷ ids) s =
      rename_in_all txn_id event_id ids (rename_in txn_id event_id id s)

  -- The slot of `messageSent`.
  unfoldable pub message_sent : (txn_id event_id : String) → Store T → Store T
  message_sent txn_id event_id s =
      let t =
        emit (read_event event_id) (rename_in_all txn_id event_id (pending_events T s.room) s) in
      let u : Store T = elim (id_to_index event_id t) [
        | none ↦ t
        | some i ↦ emit (data_changed i i) t
      ] in
      process_pending (record u {
        room = remove_pending_status T txn_id u.room;
        current_txn = "";
        current_txn_error_count = 0;
      })

  unfoldable pub add_pending :
      (annotates : String → Option String) (now : ℕ) → Event → Store T → Store T
  add_pending annotates now e s = process_pending (
      handle_sync annotates false (e ∷ [])
        (set_room (save_pending_message T env.cache now e s.room) s))
