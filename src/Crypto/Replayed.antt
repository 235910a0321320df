-- ===== src/Crypto/Replayed.antt =====
-- `olm::decryptEvent`: another event for a message index that was read is refused.
use nheko_library.Base.{
  ℕ, ◌≤◌, ◌≡◌, refl, ◌∙◌, ap, String, List, Option, none, some, Bool, true, false, inl, inr, arith,
  eq_iff, Option-cases, some-injective, ◌≢◌, ◌⊎◌, eq_refl, ltb→lt,
}
use nheko_library.Base.StdMap.{lookup-insert}
use nheko_library.Crypto.Sessions.{
  Megolm, Sessions, MegolmSessionIndex, Outcome, unknown_message_index, olm_failed, plain, value_or,
  save_inbound_megolm_session, get_inbound_megolm_session, get_megolm_session_data,
}
use nheko_library.Crypto.Decrypting.{
  EncryptedEvent, Parses, is_event_id, remember, checked, decrypt_event, read_outcome,
  replay_attack,
}
use nheko_library.Crypto.Replay.{Read, event_at, with_event, decrypt_events, decrypt_events-keeps}

-- libolm: a session that has decrypted a message starts where it started.
pub record KeepsStart (M : Megolm) : Type 0 where
  pub keeps :
      (s after : M.Session) (c text : String) (i : ℕ)
      → M.decrypt_group_message s c ≡ plain i text after
      → M.first_known_index after ≤ M.first_known_index s

module _ (M : Megolm) where
  abbrev index_of_outcome : Outcome M.Session → Option ℕ
  index_of_outcome unknown_message_index = none
  index_of_outcome olm_failed = none
  index_of_outcome (plain i _ _) = some i

  abbrev index_by : Option M.Session → String → Option ℕ
  index_by none c = none
  index_by (some s) c = index_of_outcome (M.decrypt_group_message s c)

  -- The message index that the stored session gives for an event.
  abbrev pub message_index_of : MegolmSessionIndex → EncryptedEvent → Sessions M → Option ℕ
  message_index_of index e db = index_by (get_inbound_megolm_session M index db) e.ciphertext

  -- The session and the outcome behind a message index.
  abbrev Reads : Option M.Session → String → ℕ → Type 0
  Reads o c i =
      (s : M.Session) × (text : String) × (after : M.Session) × (o ≡ some s)
      × (M.decrypt_group_message s c ≡ plain i text after)

  outcome-plain :
      (o : Outcome M.Session) (i : ℕ)
      → index_of_outcome o ≡ some i
      → (text : String) × (after : M.Session) × (o ≡ plain i text after)
  outcome-plain unknown_message_index i h = absurd (ground arith)
  outcome-plain olm_failed i h = absurd (ground arith)
  outcome-plain (plain j text after) i h =
      (text, after, ap (λ k. plain k text after) (some-injective h))

  index_by-Reads : (o : Option M.Session) (c : String) (i : ℕ) → index_by o c ≡ some i → Reads o c i
  index_by-Reads none c i h = absurd (ground arith)
  index_by-Reads (some s) c i h =
      let (text, after, e) = outcome-plain (M.decrypt_group_message s c) i h in
      (s, text, after, refl, e)

  module _ {E : Type 0} (parses : Parses E) where
    remember-writes :
        (index : MegolmSessionIndex) (id : String) (i : ℕ) (s after : M.Session) (db : Sessions M)
        → is_event_id id ≡ true
        → get_inbound_megolm_session M index db ≡ some s
        → M.first_known_index after ≤ M.first_known_index s
        → (remember M parses index id false i after
              (value_or (get_megolm_session_data M index db))
              db
            ≡ none)
          ⊎ ((db' : Sessions M) × (remember M parses index id false i after
                  (value_or (get_megolm_session_data M index db))
                  db
                ≡ some db')
              × (event_at M index i db' ≡ some id))
    unfolding remember save_inbound_megolm_session
    remember-writes index id i s after db is there starts =
        elim (Option-cases (event_at M index i db)) [
          | inr (old, taken) ↦ ground (arith, taken, eq_iff old id)
          | inl free ↦ inr (
            save_inbound_megolm_session M index after
                (with_event M parses i id (value_or (get_megolm_session_data M index db))) db,
            ground (arith, free, is),
            ground (
              arith,
              there,
              starts,
              ltb→lt (M.first_known_index s) (M.first_known_index after),
              lookup-insert (M.dump index) (M.dump index)
                  (with_event M parses i id (value_or (get_megolm_session_data M index db)))
                  db.session_data,
              eq_refl (M.dump index),
            ),
          )
        ]

    remember-refuses :
        (index : MegolmSessionIndex) (id x : String) (w : Bool) (i : ℕ) (after : M.Session)
        (db : Sessions M)
        → is_event_id id ≡ true
        → event_at M index i db ≡ some x
        → (x ≢ id)
        → remember M parses index id w i after (value_or (get_megolm_session_data M index db)) db
          ≡ none
    unfolding remember
    remember-refuses index id x w i after db is taken other = ground (arith, eq_iff x id)

    checked-db : (v : Option E) (db db' : Sessions M) → (checked M parses v db (some db')).db ≡ db'
    checked-db none db db' = refl
    checked-db (some v) db db' = refl

    decrypt_event-plain :
        (index : MegolmSessionIndex) (e : EncryptedEvent) (w : Bool) (i : ℕ) (text : String)
        (s after : M.Session) (db : Sessions M)
        → get_inbound_megolm_session M index db ≡ some s
        → M.decrypt_group_message s e.ciphertext ≡ plain i text after
        → decrypt_event M parses index e w db
          ≡ checked M parses (parses text e) db (
              remember M parses index e.event_id w i after
                (value_or (get_megolm_session_data M index db))
                db)
    unfolding decrypt_event read_outcome
    decrypt_event-plain index e w i text s after db there plainly =
        rw (decrypt_event, there, plainly) refl

    -- What was decrypted and written is in the data of its session.
    decrypt_event-writes :
        (index : MegolmSessionIndex) (e : EncryptedEvent) (db : Sessions M) (i : ℕ)
        → KeepsStart M
        → is_event_id e.event_id ≡ true
        → message_index_of index e db ≡ some i
        → ((decrypt_event M parses index e false db).error ≢ replay_attack)
        → event_at M index i (decrypt_event M parses index e false db).db ≡ some e.event_id
    decrypt_event-writes index e db i keeps is at ok =
        let (s, text, after, there, plainly) = index_by-Reads _ e.ciphertext i at in
        let result = decrypt_event-plain index e false i text s after db there plainly in
        elim (remember-writes index e.event_id i s after db is there
          (keeps.keeps s after e.ciphertext text i plainly)) [
            | inl replay ↦
                absurd (
                  ok (ap (λ r. r.error) (result ∙ ap (checked M parses (parses text e) db) replay)))
            | inr (db', stored, written) ↦
                ap (λ r. event_at M index i r.db)
                  (result ∙ ap (checked M parses (parses text e) db) stored)
                ∙ ap (event_at M index i) (checked-db (parses text e) db db')
                ∙ written
          ]

    -- Another event for an index that is taken is a replay, whether it would be written or not.
    decrypt_event-replays :
        (index : MegolmSessionIndex) (e : EncryptedEvent) (w : Bool) (db : Sessions M) (i : ℕ)
        (x : String)
        → is_event_id e.event_id ≡ true
        → message_index_of index e db ≡ some i
        → event_at M index i db ≡ some x
        → (x ≢ e.event_id)
        → decrypt_event M parses index e w db
          ≡ record { db = db; error = replay_attack; event = none }
    decrypt_event-replays index e w db i x is at taken other =
        let (s, text, after, there, plainly) = index_by-Reads _ e.ciphertext i at in
        decrypt_event-plain index e w i text s after db there plainly
        ∙ ap (checked M parses (parses text e) db)
            (remember-refuses index e.event_id x w i after db is taken other)

    -- Where libolm's sessions keep their start: when an event with a `$` id is read and written, and is not
    -- taken for a replay, then, whatever is decrypted in between, another event with a `$` id that the
    -- session gives the same message index is a replay, and changes nothing.
    pub decrypt_event-once :
        (index : MegolmSessionIndex) (e e' : EncryptedEvent) (rs : List Read) (w : Bool)
        (db : Sessions M) (i : ℕ)
        → KeepsStart M
        → is_event_id e.event_id ≡ true
        → message_index_of index e db ≡ some i
        → ((decrypt_event M parses index e false db).error ≢ replay_attack)
        → is_event_id e'.event_id ≡ true
        → message_index_of index e'
            (decrypt_events M parses rs (decrypt_event M parses index e false db).db)
          ≡ some i
        → (e.event_id ≢ e'.event_id)
        → decrypt_event M parses index e' w
            (decrypt_events M parses rs (decrypt_event M parses index e false db).db)
          ≡ record {
            db = decrypt_events M parses rs (decrypt_event M parses index e false db).db;
            error = replay_attack;
            event = none;
          }
    decrypt_event-once index e e' rs w db i keeps is at ok is' at' other =
        decrypt_event-replays index e' w _ i e.event_id is' at'
          (decrypt_events-keeps M parses rs _ index i e.event_id
            (decrypt_event-writes index e db i keeps is at ok))
          other
