-- ===== src/Cache/Room.antt =====
-- The tables of one room, `get...Db(txn, room_id)`, and the events that they hold.
use nheko_library.Base.{ℕ, ◌+◌, ◌-◌, ◌%◌, ◌^◌, ◌/◌, String, List, Option, none, some, Bool}
use nheko_library.Cache.Lmdb.{Indexed, Named, Several}

-- What an entry of `event_order` has in its JSON object.
pub record OrderEntry : Type 0 where
  pub event_id : String
  pub prev_batch : Option String

-- What the accessors read of an event. `redacts` is for redactions, and may be empty there; `replaces`
-- is the one of the relations that says what is edited.
pub record Event : Type 0 where
  pub event_id : String
  pub transaction_id : String
  pub redacts : Option String
  pub relations : List String
  pub replaces : Option String
  pub json : String

-- `isHiddenEvent`, which reads the settings, and the event with its content cleared and the redaction
-- added, if its JSON can be parsed.
pub record CacheEnv : Type 0 where
  pub is_hidden : Event → Bool
  pub redacted : (old : String) → (redaction : Event) → Option String

pub record Tables : Type 1 where
  pub order : Indexed OrderEntry
  pub messages : Indexed String
  pub indices : Named ℕ
  pub events : Named String
  pub pending : Indexed String
  pub related : Several

pub record Room (T : Tables) : Type 0 where
  pub order_db : T.order.Table
  pub ev_to_order_db : T.indices.Table
  pub order2msg_db : T.messages.Table
  pub msg2order_db : T.indices.Table
  pub events_db : T.events.Table
  pub relations_db : T.related.Table
  pub pending_db : T.pending.Table

-- `++i` and `--i` on `uint64_t`, and where indices begin.
abbrev pub next64 : ℕ → ℕ
next64 i = (i + 1) % 2 ^ 64

abbrev pub prev64 : ℕ → ℕ
prev64 i = (i + (2 ^ 64 - 1)) % 2 ^ 64

abbrev pub middle : ℕ
middle = (2 ^ 64 - 1) / 2

abbrev pub get_or : Option ℕ → ℕ → ℕ
get_or none d = d
get_or (some i) d = i
