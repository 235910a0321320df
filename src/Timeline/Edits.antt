-- ===== src/Timeline/Edits.antt =====
-- EventStore's edits: `edits`, and `get` of an id without decryption. What is kept in `events_by_id_` is
-- read again.
use nheko_library.Base.{
  ℕ, String, List, [], ◌∷◌, Option, none, some, Bool, true, false, not, ◌&&◌, ltb, str_eq,
  if◌then◌else◌,
}
use nheko_library.Cache.Room.{Tables, Room}
use nheko_library.Cache.Reading.{get_arrival_index, related_events}
use nheko_library.Timeline.Store.{Store, request_event, emit}

-- What the accessors read of an event, its relations included.
pub record Parsed : Type 0 where
  pub event_id : String
  pub sender : String
  pub replaces : Option String
  pub reply_to : Option String
  pub synthesized : Bool
  pub redacted : Bool

abbrev pub is_id : Option String → String → Bool
is_id none id = false
is_id (some i) id = str_eq i id

abbrev has_value : Option String → Bool
has_value none = false
has_value (some i) = true

-- `<` of two `std::optional<uint64_t>`.
abbrev pub optional_lt : Option ℕ → Option ℕ → Bool
optional_lt none none = false
optional_lt none (some b) = true
optional_lt (some a) none = false
optional_lt (some a) (some b) = ltb a b

abbrev pub last_of : List Parsed → Option Parsed
last_of [] = none
last_of (e ∷ es) = elim (last_of es) [ none ↦ some e | some d ↦ some d ]

abbrev pub is_edit : (event_id : String) → (original event : Parsed) → Bool
is_edit id o e = is_id e.replaces id && str_eq o.sender e.sender

-- An edit whose relations are made up stays a reply.
abbrev pub as_edit : (original event : Parsed) → Parsed
as_edit o e =
    if e.synthesized && (has_value o.reply_to && not (has_value e.reply_to))
    then record e { reply_to = o.reply_to }
    else e

module _ {T : Tables} where
  abbrev pub arrived_before : Room T → Parsed → Parsed → Bool
  arrived_before r a b =
      optional_lt (get_arrival_index T a.event_id r) (get_arrival_index T b.event_id r)

  unfoldable pub insert_edit : Room T → Parsed → List Parsed → List Parsed
  insert_edit r e [] = e ∷ []
  insert_edit r e (d ∷ ds) =
      let rest = insert_edit r e ds in if arrived_before r e d then e ∷ d ∷ ds else d ∷ rest

  -- `std::sort` by the index of arrival; the order of equal ones it leaves open.
  unfoldable pub sort_edits : Room T → List Parsed → List Parsed
  sort_edits r [] = []
  sort_edits r (e ∷ es) = insert_edit r e (sort_edits r es)

-- `parse` reads an event from its JSON, which is another library's work.
module _ {T : Tables} (parse : String → Option Parsed) where
  -- `Cache::getEvent`.
  unfoldable pub get_event : (event_id : String) → Room T → Option Parsed
  get_event id r = elim (T.events.get id r.events_db) [ none ↦ none | some json ↦ parse json ]

  -- An event that is not there is asked for.
  unfoldable pub get_stored : (event_id related_to : String) → Store T → Store T × Option Parsed
  get_stored id related_to s = if str_eq id "" then (s, none) else elim (get_event id s.room) [
    | none ↦ (emit (request_event id related_to) s, none)
    | some e ↦ (s, some e)
  ]

  unfoldable pub collect_edits :
      (event_id : String) → (original : Parsed) → List String → Store T → Store T × List Parsed
  collect_edits id o [] s = (s, [])
  collect_edits id o (i ∷ is) s =
      let (t, found) = get_stored i id s in
      let (u, rest) = collect_edits id o is t in
      elim found [
        | none ↦ (u, rest)
        | some e ↦ if is_edit id o e then (u, as_edit o e ∷ rest) else (u, rest)
      ]

  unfoldable pub edits_of :
      (event_id : String) → List String → Store T × Option Parsed → Store T × List Parsed
  edits_of id ids (s, none) = (s, [])
  edits_of id ids (s, some o) =
      if o.redacted
      then (s, [])
      else (let (t, es) = collect_edits id o ids s in (t, sort_edits t.room es))

  unfoldable pub edits : (event_id : String) → Store T → Store T × List Parsed
  edits id s = edits_of id (related_events T id s.room) (get_stored id "" s)

  unfoldable pub latest_edit :
      (event_id related_to : String) → Store T × List Parsed → Store T × Option Parsed
  latest_edit id related_to (s, es) = elim (last_of es) [
    | none ↦ get_stored id related_to s
    | some e ↦ (s, some e)
  ]

  unfoldable pub get_edited : (event_id related_to : String) → Store T → Store T × Option Parsed
  get_edited id related_to s =
      if str_eq id "" then (s, none) else latest_edit id related_to (edits id s)
