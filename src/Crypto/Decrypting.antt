-- ===== src/Crypto/Decrypting.antt =====
-- `olm::decryptEvent`: the text of a message of a room session, once for each index.
use nheko_library.Base.{
  ℕ, ◌==◌, String, ◌∷◌, Option, none, some, Bool, false, if◌then◌else◌, str_eq,
}
use Prim.Native.Char.{code}
use Prim.Native.String.{String}
use nheko_library.Crypto.Sessions.{
  Megolm, Sessions, MegolmSessionIndex, GroupSessionData, Outcome, unknown_message_index,
  olm_failed, plain, find_index, value_or, save_inbound_megolm_session, get_inbound_megolm_session,
  get_megolm_session_data,
}

pub data DecryptionErrorCode : Type 0 where
  no_error missing_session missing_session_index db_error decryption_failed parsing_failed
        replay_attack :
      DecryptionErrorCode

pub record EncryptedEvent : Type 0 where
  pub event_id : String
  pub sender : String
  pub ciphertext : String

-- The event that is in a text, with the fields of the encrypted one; `none`: it is not JSON.
abbrev pub Parses : Type 0 → Type 0
Parses E = (text : String) → EncryptedEvent → Option E

abbrev pub is_event_id : String → Bool
is_event_id String.[] = false
is_event_id (String.◌∷◌ c s) = code c == 36

module _ (M : Megolm) {E : Type 0} (parses : Parses E) where
  -- `DecryptionResult` without the text of an exception, and the database.
  pub record DecryptionResult : Type 0 where
    pub db : Sessions M
    pub error : DecryptionErrorCode
    pub event : Option E

  abbrev failed : DecryptionErrorCode → Sessions M → DecryptionResult
  failed code db = record { db = db; error = code; event = none }

  -- The check for replays. `none`: it is one.
  unfoldable pub remember :
      MegolmSessionIndex
      → (event_id : String) → (dont_write_db : Bool) → (message_index : ℕ) → M.Session
      → GroupSessionData
      → Sessions M
      → Option (Sessions M)
  remember index id dont_write i s d db =
      if is_event_id id
      then elim (find_index i d.indices) [
        | some old ↦ if str_eq old id then some db else none
        | none ↦
            if dont_write
            then some db
            else some (
                save_inbound_megolm_session M index s (record d { indices = (i, id) ∷ d.indices })
                  db)
      ]
      else some db

  abbrev pub parsed : Option E → Sessions M → DecryptionResult
  parsed none db = failed parsing_failed db
  parsed (some e) db = record { db = db; error = no_error; event = some e }

  abbrev pub checked : Option E → Sessions M → Option (Sessions M) → DecryptionResult
  checked o db none = failed replay_attack db
  checked o _ (some db) = parsed o db

  unfoldable pub read_outcome :
      MegolmSessionIndex
      → EncryptedEvent
      → (dont_write_db : Bool) → Sessions M
      → Outcome M.Session
      → DecryptionResult
  read_outcome index e dont_write db unknown_message_index = failed missing_session_index db
  read_outcome index e dont_write db olm_failed = failed decryption_failed db
  read_outcome index e dont_write db (plain i text after) = checked (parses text e) db (
      remember index e.event_id dont_write i after (value_or (get_megolm_session_data M index db))
        db)

  unfoldable pub decrypt_event :
      MegolmSessionIndex → EncryptedEvent → (dont_write_db : Bool) → Sessions M → DecryptionResult
  decrypt_event index e dont_write db = elim (get_inbound_megolm_session M index db) [
    | none ↦ failed missing_session db
    | some s ↦ read_outcome index e dont_write db (M.decrypt_group_message s e.ciphertext)
  ]
