-- ===== src/Crypto/Replay.antt =====
-- `olm::decryptEvent`: a message index of a session stands for one event.
use nheko_library.Base.{
  ℕ, ◌≡◌, refl, String, List, [], ◌∷◌, Option, none, some, Bool, inl, inr, arith, eq_iff,
  Option-cases, Bool-cases,
}
use nheko_library.Base.StdMap.{lookup-insert}
use nheko_library.Crypto.Sessions.{
  Megolm, Sessions, MegolmSessionIndex, GroupSessionData, Outcome, unknown_message_index,
  olm_failed, plain, find_index, value_or, save_inbound_megolm_session, get_inbound_megolm_session,
  get_megolm_session_data, starts_later,
}
use nheko_library.Crypto.Decrypting.{
  EncryptedEvent, Parses, remember, checked, decrypt_event, read_outcome,
}

pub record Read : Type 0 where
  pub index : MegolmSessionIndex
  pub event : EncryptedEvent
  pub dont_write_db : Bool

module _ (M : Megolm) where
  -- The event id that the data of a session has for a message index.
  abbrev pub event_at : MegolmSessionIndex → ℕ → Sessions M → Option String
  event_at index i db = find_index i (value_or (get_megolm_session_data M index db)).indices

  module _ {E : Type 0} (parses : Parses E) where
    abbrev pub decrypt_events : List Read → Sessions M → Sessions M
    decrypt_events [] db = db
    decrypt_events (r ∷ rs) db =
        decrypt_events rs (decrypt_event M parses r.index r.event r.dont_write_db db).db

    -- The data of a session with one event id more.
    abbrev pub with_event : ℕ → String → GroupSessionData → GroupSessionData
    with_event i id d = record d { indices = (i, id) ∷ d.indices }

    save-keeps :
        (index other : MegolmSessionIndex) (id x : String) (i j : ℕ) (s : M.Session)
        (db : Sessions M)
        → event_at index i db ≡ none
        → event_at other j db ≡ some x
        → event_at other j (
            save_inbound_megolm_session M index s
              (with_event i id (value_or (get_megolm_session_data M index db)))
              db)
          ≡ some x
    unfolding save_inbound_megolm_session
    save-keeps index other id x i j s db free at =
        elim (Bool-cases (starts_later M s (get_inbound_megolm_session M index db))) [
          | inl later ↦ rw later at
          | inr stored ↦ ground (
            arith,
            stored,
            lookup-insert (M.dump index) (M.dump other)
                (with_event i id (value_or (get_megolm_session_data M index db))) db.session_data,
            eq_iff (M.dump index) (M.dump other),
          )
        ]

    -- `remember` keeps what the data of any session has.
    remember-keeps :
        (index other : MegolmSessionIndex) (id x : String) (w : Bool) (i j : ℕ) (s : M.Session)
        (db db' : Sessions M)
        → remember M parses index id w i s (value_or (get_megolm_session_data M index db)) db
          ≡ some db'
        → event_at other j db ≡ some x
        → event_at other j db' ≡ some x
    unfolding remember
    remember-keeps index other id x w i j s db db' h at =
        ground (arith, save-keeps index other id x i j s db)

    checked-keeps :
        (v : Option E) (o : Option (Sessions M)) (db : Sessions M) (other : MegolmSessionIndex)
        (j : ℕ) (x : String)
        → event_at other j db ≡ some x
        → ((db' : Sessions M) → o ≡ some db' → event_at other j db' ≡ some x)
        → event_at other j (checked M parses v db o).db ≡ some x
    checked-keeps v none db other j x at kept = at
    checked-keeps none (some db') db other j x at kept = kept db' refl
    checked-keeps (some v) (some db') db other j x at kept = kept db' refl

    outcome-keeps :
        (r : Read) (o : Outcome M.Session) (db : Sessions M) (other : MegolmSessionIndex) (j : ℕ)
        (x : String)
        → event_at other j db ≡ some x
        → event_at other j (read_outcome M parses r.index r.event r.dont_write_db db o).db ≡ some x
    unfolding read_outcome
    outcome-keeps r unknown_message_index db other j x at = at
    outcome-keeps r olm_failed db other j x at = at
    outcome-keeps r (plain i text after) db other j x at =
        checked-keeps (parses text r.event)
          (remember M parses r.index r.event.event_id r.dont_write_db i after
            (value_or (get_megolm_session_data M r.index db)) db)
          db other j x at
          (λ db' h.
            remember-keeps r.index other r.event.event_id x r.dont_write_db i j after db db' h at)

    decrypt_event-keeps :
        (r : Read) (db : Sessions M) (other : MegolmSessionIndex) (j : ℕ) (x : String)
        → event_at other j db ≡ some x
        → event_at other j (decrypt_event M parses r.index r.event r.dont_write_db db).db ≡ some x
    unfolding decrypt_event
    decrypt_event-keeps r db other j x at =
        elim (Option-cases (get_inbound_megolm_session M r.index db)) [
          | inl missing ↦ rw (decrypt_event, missing) at
          | inr (s, there) ↦
              rw (decrypt_event, there)
                (outcome-keeps r (M.decrypt_group_message s r.event.ciphertext) db other j x at)
        ]

    pub decrypt_events-keeps :
        (rs : List Read) (db : Sessions M) (other : MegolmSessionIndex) (j : ℕ) (x : String)
        → event_at other j db ≡ some x
        → event_at other j (decrypt_events rs db) ≡ some x
    decrypt_events-keeps [] db other j x at = at
    decrypt_events-keeps (r ∷ rs) db other j x at =
        decrypt_events-keeps rs _ other j x (decrypt_event-keeps r db other j x at)
