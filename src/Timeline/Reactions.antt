-- ===== src/Timeline/Reactions.antt =====
-- EventStore's `reactions`: the reactions to a message, by their keys. An encrypted event counts as what
-- `decryptEvent` reads in it, which `read_key` knows.
use nheko_library.Base.{
  ℕ, ◌+◌, String, List, [], ◌∷◌, ◌++◌, map, Option, none, some, ◌==◌, str_eq, if◌then◌else◌,
}
use nheko_library.Base.StdMap.{Map, lookup, insert}
use nheko_library.Cache.Room.{Tables}
use nheko_library.Cache.Reading.{related_events}
use nheko_library.Timeline.Store.{Store}
use nheko_library.Timeline.Edits.{Parsed, get_edited}

-- `read_key`: the key of a reaction that annotates; `display_name`: the cache's name of a member of the
-- room; `self`: the user's id.
pub record ReactionEnv : Type 0 where
  pub parse : String → Option Parsed
  pub read_key : Parsed → Option String
  pub display_name : (user_id : String) → String
  pub self : String

pub record TempReaction : Type 0 where
  pub count : ℕ
  pub users : List String
  pub reacted_by_self : String

pub record Reaction : Type 0 where
  pub key : String
  pub count : ℕ
  pub self_reacted_event : String
  pub users : String

abbrev pub no_reaction : TempReaction
no_reaction = record { count = 0; users = []; reacted_by_self = "" }

-- `aggregation[key]`
abbrev pub entry_of : Option TempReaction → TempReaction
entry_of none = no_reaction
entry_of (some t) = t

-- The names behind the first, each after a comma.
abbrev pub join_rest : List String → String
join_rest [] = ""
join_rest (u ∷ us) = Prim.Native.String.◌++◌ ", " (Prim.Native.String.◌++◌ u (join_rest us))

abbrev pub join_users : List String → String
join_users [] = ""
join_users (u ∷ us) = Prim.Native.String.◌++◌ u (join_rest us)

abbrev pub with_user : ReactionEnv → Parsed → TempReaction → TempReaction
with_user env e t = record {
  count = t.count + 1;
  users = t.users ++ env.display_name e.sender ∷ [];
  reacted_by_self = if str_eq e.sender env.self then e.event_id else t.reacted_by_self;
}

abbrev pub to_reaction : (key : String) → TempReaction → Reaction
to_reaction key t = record {
  key = key;
  count = t.count;
  self_reacted_event = t.reacted_by_self;
  users = join_users t.users;
}

-- The loop's variables; `keys` are those of `reactions`.
pub record Aggregated (T : Tables) : Type 0 where
  pub store : Store T
  pub aggregation : Map TempReaction
  pub keys : List String

module _ {T : Tables} (env : ReactionEnv) where
  unfoldable pub add_reaction : (key : String) → Parsed → Aggregated T → Aggregated T
  add_reaction key e a =
      let t = entry_of (lookup key a.aggregation) in
      record a {
        aggregation = insert key (with_user env e t) a.aggregation;
        keys = if t.count == 0 then a.keys ++ key ∷ [] else a.keys;
      }

  unfoldable pub aggregate_one : Option Parsed → Aggregated T → Aggregated T
  aggregate_one none a = a
  aggregate_one (some e) a = elim (env.read_key e) [ none ↦ a | some key ↦ add_reaction key e a ]

  unfoldable pub aggregate : (event_id : String) → List String → Aggregated T → Aggregated T
  aggregate event_id [] a = a
  aggregate event_id (id ∷ ids) a =
      let (s, found) = get_edited env.parse id event_id a.store in
      aggregate event_id ids (aggregate_one found (record a { store = s }))

  unfoldable pub reactions : (event_id : String) → Store T → Store T × List Reaction
  reactions event_id s =
      let a =
        aggregate event_id (related_events T event_id s.room)
          (record { store = s; aggregation = []; keys = [] }) in
      (
        a.store,
        map (λ (key : String). to_reaction key (entry_of (lookup key a.aggregation))) a.keys,
      )
