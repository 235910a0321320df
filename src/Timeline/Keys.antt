-- ===== src/Timeline/Keys.antt =====
-- EventStore's requests for the keys of megolm sessions: `requestSession`, `receivedSessionKey` and
-- `enableKeyRequests`.
use nheko_library.Base.{ℕ, ◌+◌, String, List, [], ◌∷◌, ◌++◌, none, some, Bool, ltb, if◌then◌else◌}
use nheko_library.Base.StdMap.{Map, lookup, insert}
use nheko_library.Cache.Room.{Tables}
use nheko_library.Timeline.Store.{
  Store, data_changed, lookup_keybackup, send_key_request, cancel_key_request, emit, id_to_index,
}

pub record EncryptedEvent : Type 0 where
  pub event_id : String
  pub session_id : String

-- `requested_at` is in seconds.
pub record PendingKeyRequests : Type 0 where
  pub request_id : String
  pub events : List EncryptedEvent
  pub requested_at : ℕ

pub record KeyStore (T : Tables) : Type 0 where
  pub store : Store T
  pub suppress_key_requests : Bool
  pub pending_key_requests : Map PendingKeyRequests

-- What is called, with what it reads of the clock and of the generator of ids.
pub data KeyCall : Type 0 where
  request : (now : ℕ) (txn_id : String) (event : EncryptedEvent) (manual : Bool) → KeyCall
  received : (session_id : String) → KeyCall
  enable : (suppress : Bool) → KeyCall

module _ {T : Tables} where
  -- `lookup_keybackup` and `send_key_request_for`.
  abbrev pub ask : (request_id : String) (now : ℕ) → EncryptedEvent → KeyStore T → KeyStore T
  ask id now e s = record s {
    store =
        emit (send_key_request e.session_id e.event_id id now)
          (emit (lookup_keybackup e.session_id) s.store);
  }

  abbrev pub set_pending : (session_id : String) → PendingKeyRequests → KeyStore T → KeyStore T
  set_pending id r s = record s { pending_key_requests = insert id r s.pending_key_requests }

  unfoldable pub request_again :
      (now : ℕ) → EncryptedEvent → (manual : Bool) → PendingKeyRequests → KeyStore T → KeyStore T
  request_again now e manual r s =
      let delay = if manual then 60 else 600 in
      let r' = record r { events = r.events ++ e ∷ [] } in
      if ltb (r.requested_at + delay) now
      then ask r.request_id now e (set_pending e.session_id (record r' { requested_at = now }) s)
      else set_pending e.session_id r' s

  unfoldable pub request_session :
      (now : ℕ) (txn_id : String) → EncryptedEvent → (manual : Bool) → KeyStore T → KeyStore T
  request_session now txn_id e manual s =
      if s.suppress_key_requests then s else elim (lookup e.session_id s.pending_key_requests) [
        | some r ↦ request_again now e manual r s
        | none ↦
            (let id = Prim.Native.String.◌++◌ "key_request." txn_id in
              set_pending e.session_id
                (record { request_id = id; events = e ∷ []; requested_at = now }) (ask id now e s))
      ]

  unfoldable pub refresh_all : List EncryptedEvent → Store T → Store T
  refresh_all [] s = s
  refresh_all (e ∷ es) s =
      refresh_all es
        (elim (id_to_index e.event_id s) [ none ↦ s | some i ↦ emit (data_changed i i) s ])

  abbrev pub cancel_first : PendingKeyRequests → Store T → Store T
  cancel_first r s = elim r.events [
    | [] ↦ s
    | e ∷ es ↦ emit (cancel_key_request e.session_id e.event_id r.request_id) s
  ]

  -- A session is asked for again only after the delay, since its entry stays.
  unfoldable pub received_session_key : (session_id : String) → KeyStore T → KeyStore T
  received_session_key id s = elim (lookup id s.pending_key_requests) [
    | none ↦ s
    | some r ↦ record (set_pending id (record r { events = [] }) s) {
      store = refresh_all r.events (cancel_first r s.store);
    }
  ]

  -- What was decrypted is in QCache, and not modelled.
  unfoldable pub enable_key_requests : (suppress : Bool) → KeyStore T → KeyStore T
  enable_key_requests suppress s = record s { suppress_key_requests = suppress }

  unfoldable pub handle : KeyCall → KeyStore T → KeyStore T
  handle (request now txn_id e manual) s = request_session now txn_id e manual s
  handle (received id) s = received_session_key id s
  handle (enable suppress) s = enable_key_requests suppress s

  unfoldable pub run : List KeyCall → KeyStore T → KeyStore T
  run [] s = s
  run (c ∷ cs) s = run cs (handle c s)
