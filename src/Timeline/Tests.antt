-- ===== src/Timeline/Tests.antt =====
-- The timeline of a room with two messages.
use nheko_library.Base.{
  List, ℕ, length, ◌-◌, ◌<◌, ◌≡◌, ◌≢◌, refl, String, [], ◌∷◌, none, some, true, false, arith,
}
use nheko_library.Base.Int.{pos}
use nheko_library.Cache.Saving.{remove_pending_status}
use nheko_library.Cache.Coherence.{is_some}
use nheko_library.Cache.ListTables.{list_tables}
use nheko_library.Cache.Tests.{
  note, distinct, show_all_env, two_notes, two_notes-Coherent, three_notes, three_notes-Coherent,
}
use nheko_library.Cache.Reading.{
  first_pending_message, previous_batch_token, get_timeline_index, first_parsed,
}
use nheko_library.Timeline.Store.{
  Store, size, index_to_id, id_to_index, to_external_idx, old_messages_retrieved,
}
use nheko_library.Cache.Saving.{known}
use nheko_library.Cache.NewMessages.{new_messages, StandBefore}
use nheko_library.Timeline.Older.{old_messages_retrieved-Shows}
use nheko_library.Timeline.Sync.{handle_sync}
use nheko_library.Timeline.Synced.{inserted, handle_sync-Shows}
use nheko_library.Timeline.Rows.{Shows, row_round_trip}
use nheko_library.Timeline.Queue.{QueueEnv, process_pending, message_failed}
use nheko_library.Timeline.Keys.{
  EncryptedEvent, KeyStore, KeyCall, request, received, run, handle, request_session, request_again,
  received_session_key, refresh_all,
}
use nheko_library.Timeline.Throttled.{are_apart, request_times, run-apart}
use nheko_library.Timeline.Sending.{
  fail_times, times_sent, message_failed-gives_up, process_pending-blocked,
}

abbrev shown : Store list_tables
shown = record {
  room = two_notes;
  first = 100;
  last = 101;
  current_txn = "";
  current_txn_error_count = 0;
  no_more_messages = false;
  log = [];
}

shown-Shows : Shows list_tables 100 102 shown
shown-Shows = record {
  coherent = two_notes-Coherent;
  from_first = refl;
  to_last = refl;
  some_shown = omega arith;
  not_many = omega arith;
  in_range = omega arith;
}

row_round_trip_example :
    let id : String = "m1" in
    (size shown ≡ pos (102 - 100))
    × (1 < 102 - 100 → is_some (index_to_id (pos 1) shown) ≡ true)
    × (id_to_index id shown ≡ some (pos 1) → index_to_id (pos 1) shown ≡ some id)
    × (1 < 102 - 100
        → id ≢ ""
        → index_to_id (pos 1) shown ≡ some id
        → id_to_index id shown ≡ some (pos 1))
row_round_trip_example = row_round_trip shown-Shows "m1" 1 (pos 1)

handle_sync-Shows_example :
    let t = handle_sync (λ id. none) false (note "$c" ∷ []) (record shown { room = three_notes }) in
    Shows list_tables 100 103 t × (inserted t.log ≡ (pos (102 - 100), pos (103 - 100 - 1)) ∷ [])
handle_sync-Shows_example =
    handle_sync-Shows (λ id. none) (note "$c" ∷ []) shown three_notes shown-Shows
      three_notes-Coherent (omega arith) (omega arith) (omega arith)

no_token : let token : String = "t1" in previous_batch_token list_tables two_notes ≢ token
unfolding previous_batch_token
no_token = distinct "" "t1" refl

abbrev queue_env : QueueEnv
queue_env = record {
  cache = show_all_env;
  parses = λ json. true;
  can_send = λ json. true;
  with_event_id = λ txn_id event_id json. none;
}

abbrev sending : Store list_tables
sending = record shown { current_txn = "m1" }

two_notes-first :
    first_pending_message list_tables queue_env.parses two_notes ≡ (two_notes, some "m1")
unfolding first_pending_message first_parsed
two_notes-first = refl

message_failed-gives_up_example :
    let t = message_failed queue_env "m1" (fail_times queue_env 10 "m1" sending) in
    (t.room ≡ remove_pending_status list_tables "m1" two_notes)
    × (times_sent "m1" t.log ≡ 10)
    × ((time : ℕ) → list_tables.pending.get time t.room.pending_db ≢ some "m1")
message_failed-gives_up_example =
    message_failed-gives_up queue_env "m1" sending two_notes-first refl refl refl refl

abbrev none_env : QueueEnv
none_env = record queue_env { can_send = λ json. false }

process_pending-blocked_example :
    let t = process_pending none_env shown in
    (t.log ≡ [])
    × (t.current_txn ≡ "m1")
    × (process_pending none_env (record t { room = three_notes }) ≡ record t { room = three_notes })
process_pending-blocked_example =
    process_pending-blocked none_env "m1" two_notes shown three_notes refl two_notes-first refl refl

abbrev no_keys : KeyStore list_tables
no_keys = record { store = shown; suppress_key_requests = false; pending_key_requests = [] }

abbrev unreadable : EncryptedEvent
unreadable = record { event_id = "$a"; session_id = "s1" }

abbrev key_calls : List KeyCall
key_calls =
    request 1000 "1" unreadable false
    ∷ request 1061 "2" unreadable true
    ∷ received "s1"
    ∷ request 1062 "3" unreadable true
    ∷ []

run-apart_example : are_apart 60 (request_times "s1" (run key_calls no_keys).store.log) ≡ true
run-apart_example = run-apart key_calls no_keys "s1" refl refl

two_requests : request_times "s1" (run key_calls no_keys).store.log ≡ 1061 ∷ 1000 ∷ []
unfolding run handle request_session request_again received_session_key refresh_all id_to_index
    get_timeline_index to_external_idx
two_requests = refl

old_messages_retrieved-Shows_example :
    let s' = old_messages_retrieved show_all_env "t1" (note "$y" ∷ []) shown in
    let ids =
      new_messages show_all_env (λ id. known list_tables id shown.room) [] (note "$y" ∷ []) in
    Shows list_tables (100 - length ids) 102 s'
    × StandBefore list_tables 100 ids s'.room
    × (list_tables.messages.get 101 s'.room.order2msg_db
        ≡ list_tables.messages.get 101 shown.room.order2msg_db)
old_messages_retrieved-Shows_example =
    old_messages_retrieved-Shows show_all_env "t1" (note "$y") [] shown 101 shown-Shows
      (omega arith) (omega arith) (distinct "t1" "" refl) no_token (omega arith)

new_messages_test :
    new_messages show_all_env
      (λ id. known list_tables id shown.room)
      []
      (note "$y" ∷ note "$y" ∷ [])
    ≡ "$y" ∷ []
new_messages_test = refl
