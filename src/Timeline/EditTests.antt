-- ===== src/Timeline/EditTests.antt =====
-- A message with an edit by its sender, an edit by another user, and two reactions.
use nheko_library.Base.{
  ◌≡◌, refl, String, [], ◌∷◌, map, Option, none, some, false, str_eq, if◌then◌else◌, ◌⊎◌,
}
use nheko_library.Cache.Room.{Room}
use nheko_library.Cache.ListTables.{list_tables}
use nheko_library.Cache.Tests.{two_notes}
use nheko_library.Cache.Reading.{related_events, get_arrival_index}
use nheko_library.Timeline.Store.{Store}
use nheko_library.Timeline.Edits.{
  Parsed, get_edited, get_event, get_stored, collect_edits, insert_edit, sort_edits, edits_of,
  edits, latest_edit,
}
use nheko_library.Timeline.Types.{
  from_room_event_type, to_room_event_type, mtx_widget, mtx_room_message, topic, unknown_message,
}
use nheko_library.Timeline.BackAgain.{is_lost, is_message, types_come_back}
use nheko_library.Timeline.OwnEdits.{get_edited-own}
use nheko_library.Timeline.Reactions.{ReactionEnv, reactions, to_reaction}
use nheko_library.Timeline.Grouped.{group, first_keys, reacting, reactions-grouped}

abbrev sent_by : (event_id sender : String) → Option String → Parsed
sent_by id user replaces = record {
  event_id = id;
  sender = user;
  replaces = replaces;
  reply_to = none;
  synthesized = false;
  redacted = false;
}

abbrev original : Parsed
original = sent_by "$a" "@ann" none

abbrev edit : Parsed
edit = sent_by "$b" "@ann" (some "$a")

abbrev parse_one : String → Option Parsed
parse_one json =
    if str_eq json "original"
    then some original
    else if str_eq json "edit"
    then some edit
    else if str_eq json "forged"
    then some (sent_by "$c" "@eve" (some "$a"))
    else if str_eq json "like"
    then some (sent_by "$d" "@bob" none)
    else none

abbrev edited_room : Room list_tables
edited_room = record two_notes {
  ev_to_order_db = ("$a", 20) ∷ ("$b", 21) ∷ ("$c", 22) ∷ ("$d", 23) ∷ [];
  events_db = ("$a", "original") ∷ ("$b", "edit") ∷ ("$c", "forged") ∷ ("$d", "like") ∷ [];
  relations_db = ("$a", "$b") ∷ ("$a", "$c") ∷ ("$a", "$d") ∷ [];
}

abbrev edited : Store list_tables
edited = record {
  room = edited_room;
  first = 100;
  last = 101;
  current_txn = "";
  current_txn_error_count = 0;
  no_more_messages = false;
  log = [];
}

edited-original : get_event parse_one "$a" edited_room ≡ some original
unfolding get_event
edited-original = refl

edited-edit : (get_edited parse_one "$a" "" edited).1 ≡ some edit
unfolding get_edited latest_edit edits edits_of sort_edits insert_edit collect_edits get_stored
    get_event related_events get_arrival_index
edited-edit = refl

get_edited-own_example :
    (edit ≡ original)
    ⊎ ((edit.replaces ≡ some "$a") × (edit.sender ≡ original.sender) × (original.redacted ≡ false))
get_edited-own_example =
    get_edited-own parse_one "$a" "" original edit edited edited-original edited-edit

abbrev like_env : ReactionEnv
like_env = record {
  parse = parse_one;
  read_key = λ e. if str_eq e.event_id "$d" then some "+1" else none;
  display_name = λ id. id;
  self = "@bob";
}

reactions-grouped_example :
    let rs = reacting like_env "$a" (related_events list_tables "$a" edited_room) edited in
    (reactions like_env "$a" edited).1
    ≡ map (λ (k : String). to_reaction k (group like_env k rs)) (first_keys rs)
reactions-grouped_example = reactions-grouped like_env "$a" edited

types_come_back_example :
    (from_room_event_type (to_room_event_type mtx_widget)
      ≡ (if is_lost mtx_widget then mtx_room_message else mtx_widget))
    × (to_room_event_type (from_room_event_type topic)
        ≡ (if is_message topic then unknown_message else topic))
types_come_back_example = types_come_back mtx_widget topic
