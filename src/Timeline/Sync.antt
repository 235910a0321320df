-- ===== src/Timeline/Sync.antt =====
-- EventStore's `handleSync`: which rows the view has to read again. What it does with events that can be
-- decrypted is the verification's, and not part of it here.
use nheko_library.Base.{
  ℕ, String, List, [], ◌∷◌, map, Option, none, some, Bool, str_eq, if◌then◌else◌,
}
use nheko_library.Base.StdMap.{Map, insert}
use nheko_library.Cache.Room.{Event, Tables}
use nheko_library.Cache.Reading.{get_timeline_range, related_events}
use nheko_library.Timeline.Store.{Store, data_changed, emit, id_to_index, sync_range}

-- `std::set<std::string>`: its texts are the keys.
abbrev set_of : List String → Map ℕ
set_of [] = []
set_of (id ∷ ids) = insert id 0 (set_of ids)

abbrev pub relates_to : Event → List String
relates_to e = elim e.redacts [
  | some id ↦ id ∷ []
  | none ↦ map (λ (p : String × ℕ). p.0) (set_of e.relations)
]

-- The event that is edited.
abbrev pub edited : Event → Option String
edited e = elim e.redacts [ some _ ↦ none | none ↦ e.replaces ]

-- The event that a redacted reaction was to. `annotates`: what the event with this id reacts to, if it is
-- in `events_by_id_` and is a reaction.
abbrev pub annotated : (annotates : String → Option String) → Event → Option String
annotated annotates e = elim e.redacts [ none ↦ none | some id ↦ annotates id ]

module _ {T : Tables} where
  -- The row of this event, if it has one, is read again.
  unfoldable pub tell : (event_id : String) → Store T → Store T
  tell id s = elim (id_to_index id s) [ none ↦ s | some i ↦ emit (data_changed i i) s ]

  unfoldable pub tell_all : List String → Store T → Store T
  tell_all [] s = s
  tell_all (id ∷ ids) s = tell_all ids (tell id s)

  unfoldable pub tell_annotated : (annotates : String → Option String) → Event → Store T → Store T
  tell_annotated annotates e s = elim (annotated annotates e) [ none ↦ s | some id ↦ tell id s ]

  -- The body of the loop.
  unfoldable pub sync_event : (annotates : String → Option String) → Event → Store T → Store T
  sync_event annotates e s =
      let t = tell_all (relates_to e) (tell_annotated annotates e s) in
      let u = if str_eq e.transaction_id "" then t else tell e.event_id t in
      elim (edited e) [
        | none ↦ u
        | some id ↦ if str_eq id "" then u else tell_all (related_events T id u.room) u
      ]

  unfoldable pub sync_events : (annotates : String → Option String) → List Event → Store T → Store T
  sync_events annotates [] s = s
  sync_events annotates (e ∷ es) s = sync_events annotates es (sync_event annotates e s)

  unfoldable pub handle_sync :
      (annotates : String → Option String) → (limited : Bool) → List Event → Store T → Store T
  handle_sync annotates limited es s =
      let t = sync_range limited s in
      elim (get_timeline_range T s.room) [ none ↦ t | some _ ↦ sync_events annotates es t ]
