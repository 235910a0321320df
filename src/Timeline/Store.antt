-- ===== src/Timeline/Store.antt =====
-- timeline/EventStore.{h,cpp}: the range of messages that the store shows, and the rows that it tells the
-- view about. The rooms' tables are the cache's; what is kept in QCache is read again, and not modelled.
use nheko_library.Base.{
  ℕ, ◌+◌, ◌-◌, ◌%◌, ◌^◌, String, List, [], ◌∷◌, Option, none, some, Bool, true, false, not, ◌&&◌,
  ◌||◌, leb, ltb, ◌==◌, str_eq, if◌then◌else◌,
}
use nheko_library.Base.Int.{ℤ, pos, to_int, to_uint64}
use nheko_library.Cache.Room.{Event, CacheEnv, Tables, Room}
use nheko_library.Cache.Old.{save_old_messages}
use nheko_library.Cache.Reading.{
  TimelineRange, get_timeline_range, get_timeline_index, get_timeline_event_id,
  previous_batch_token,
}

pub data Signal : Type 0 where
  begin_insert_rows : (from to : ℤ) → Signal
  end_insert_rows begin_reset_model end_reset_model fetched_more : Signal
  data_changed : (from to : ℤ) → Signal
  fetch_messages : (from_token : String) → Signal
  send_message : (txn_id : String) → Signal
  read_event : (event_id : String) → Signal
  start_timer : ℕ → Signal
  lookup_keybackup : (session_id : String) → Signal
  send_key_request : (session_id event_id request_id : String) (now : ℕ) → Signal
  cancel_key_request : (session_id event_id request_id : String) → Signal
  request_event : (event_id related_to : String) → Signal
  undefined_behaviour : Signal

-- `std::numeric_limits<uint64_t>::max()`, for a range that is not there.
abbrev pub no_index : ℕ
no_index = 2 ^ 64 - 1

pub record Store (T : Tables) : Type 0 where
  pub room : Room T
  pub first : ℕ
  pub last : ℕ
  pub current_txn : String
  pub current_txn_error_count : ℕ
  pub no_more_messages : Bool
  pub log : List Signal

module _ {T : Tables} where
  abbrev pub emit : Signal → Store T → Store T
  emit s st = record st { log = s ∷ st.log }

  -- `static_cast<int>(last - first) + 1`, whose overflow at 2^31 - 1 C++ leaves undefined.
  unfoldable pub size : Store T → ℤ
  size s =
      if not (s.last == no_index) && leb s.first s.last
      then to_int (s.last - s.first + 1)
      else pos 0

  unfoldable pub to_external_idx : ℕ → Store T → ℤ
  to_external_idx i s = to_int ((i + (2 ^ 64 - s.first)) % 2 ^ 64)

  unfoldable pub to_internal_idx : ℤ → Store T → ℕ
  to_internal_idx i s = (s.first + to_uint64 i) % 2 ^ 64

  unfoldable pub id_to_index : String → Store T → Option ℤ
  id_to_index id s = elim (get_timeline_index T id s.room) [
    | none ↦ none
    | some i ↦ some (to_external_idx i s)
  ]

  unfoldable pub index_to_id : ℤ → Store T → Option String
  index_to_id i s = get_timeline_event_id T (to_internal_idx i s) s.room

  -- The constructor.
  unfoldable pub new_store : Room T → Store T
  new_store r =
      let s : Store T = record {
        room = r;
        first = no_index;
        last = no_index;
        current_txn = "";
        current_txn_error_count = 0;
        no_more_messages = false;
        log = [];
      } in
      elim (get_timeline_range T r) [
        | none ↦ s
        | some range ↦ record s { first = range.first; last = range.last }
      ]

  abbrev pub set_range : TimelineRange → Store T → Store T
  set_range range s = record s { first = range.first; last = range.last }

  -- `handleSync` up to its loop over the events, which tells the view of rows that change.
  unfoldable pub sync_range : (limited : Bool) → Store T → Store T
  sync_range limited s = elim (get_timeline_range T s.room) [
    | none ↦
        emit end_reset_model
          (record (emit begin_reset_model s) { first = no_index; last = no_index })
    | some range ↦
        if limited
        then emit end_reset_model (set_range range (emit begin_reset_model s))
        else if ltb s.last range.last
        then emit end_insert_rows
            (record (emit
              (begin_insert_rows (to_external_idx (s.last + 1) s) (to_external_idx range.last s))
              s) { last = range.last })
        else s
  ]

  unfoldable pub fetch_more : Store T → Store T
  fetch_more s =
      if s.no_more_messages
      then emit fetched_more s
      else emit (fetch_messages (previous_batch_token T s.room)) s

  -- Old messages for a store that shows some: rows are told of with the old first index.
  unfoldable pub show_older : (new_first : ℕ) → Store T → Store T
  show_older new_first s =
      let rows =
        begin_insert_rows (to_external_idx new_first s)
          (to_external_idx ((s.first + (2 ^ 64 - 1)) % 2 ^ 64) s) in
      let t =
        emit fetched_more (emit end_insert_rows (record (emit rows s) { first = new_first })) in
      emit (data_changed (to_external_idx s.first t) (to_external_idx s.first t)) t

  unfoldable pub show_all : Store T → Store T
  show_all s = elim (get_timeline_range T s.room) [
    | none ↦ fetch_more s
    | some range ↦
        if range.last - range.first == 0
        then fetch_more s
        else emit fetched_more (
            emit end_insert_rows (
              set_range range
                (emit (begin_insert_rows (pos 0) (to_int (range.last - range.first))) s)))
  ]

  -- The slot of `oldMessagesRetrieved`.
  unfoldable pub old_messages_retrieved :
      CacheEnv → (end_token : String) → List Event → Store T → Store T
  old_messages_retrieved env end_token es s =
      if str_eq end_token "" || str_eq (previous_batch_token T s.room) end_token
      then emit fetched_more (record s { no_more_messages = true })
      else (let (r, new_first) = save_old_messages T env end_token es s.room in
          let t = record s { room = r } in
          if new_first == s.first
          then fetch_more t
          else if s.last == no_index
          then show_all t
          else show_older new_first t)

  -- The answer to the request of `fetchMore`: `none` is an error.
  unfoldable pub messages_answered :
      CacheEnv → (from_token : String) → Option (String × List Event) → Store T → Store T
  messages_answered env from_token answer s =
      if not (str_eq (previous_batch_token T s.room) from_token) then s else elim answer [
        | none ↦ emit fetched_more s
        | some (end_token, es) ↦ old_messages_retrieved env end_token es s
      ]
