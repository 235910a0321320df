-- ===== src/Crypto/Sessions.antt =====
-- Inbound room sessions: what of them is stored, and when (Cache.cpp, CacheCryptoStructs.h, encryption/Olm.cpp).
use nheko_library.Base.{
  ℕ, String, List, [], ◌∷◌, Option, none, some, Bool, true, false, ltb, if◌then◌else◌, str_eq, ◌==◌,
}
use nheko_library.Base.StdMap.{Map, lookup, insert}

pub record MegolmSessionIndex : Type 0 where
  pub room_id : String
  pub session_id : String

-- `SharedWithUsers`: by user and device, from which message on the session was shared.
abbrev pub SharedWithUsers : Type 0
SharedWithUsers = Map (Map ℕ)

-- `indices` is a `std::map<uint32_t, std::string>`.
pub record GroupSessionData : Type 0 where
  pub message_index : ℕ
  pub timestamp : ℕ
  pub trusted : Bool
  pub sender_key : String
  pub sender_claimed_ed25519_key : String
  pub forwarding_curve25519_key_chain : List String
  pub indices : List (ℕ × String)
  pub currently : SharedWithUsers

-- `GroupSessionData{}`
abbrev pub no_data : GroupSessionData
no_data = record {
  message_index = 0;
  timestamp = 0;
  trusted = true;
  sender_key = "";
  sender_claimed_ed25519_key = "";
  forwarding_curve25519_key_chain = [];
  indices = [];
  currently = [];
}

-- `decrypt_group_message`: an exception, or the index and the text, and the session after it.
pub data Outcome (S : Type 0) : Type 0 where
  unknown_message_index : Outcome S
  olm_failed : Outcome S
  plain : (message_index : ℕ) (text : String) (after : S) → Outcome S

-- The libraries: libolm's sessions, which are stored as they are, and the text of an index as JSON.
pub record Megolm : Type 1 where
  pub Session : Type 0
  pub dump : MegolmSessionIndex → String
  pub first_known_index : Session → ℕ
  pub decrypt_group_message : Session → (ciphertext : String) → Outcome Session
  pub init_inbound_group_session : (session_key : String) → Option Session
  pub import_inbound_group_session : (session_key : String) → Option Session

pub record RoomKey : Type 0 where
  pub room_id : String
  pub session_id : String
  pub session_key : String

pub record ForwardedRoomKey : Type 0 where
  pub algorithm : String
  pub room_id : String
  pub session_id : String
  pub session_key : String
  pub sender_key : String
  pub sender_claimed_ed25519_key : String
  pub forwarding_curve25519_key_chain : List String

-- `find` and `[]` of `indices`.
abbrev pub find_index : ℕ → List (ℕ × String) → Option String
find_index i [] = none
find_index i ((j, e) ∷ m) = if j == i then some e else find_index i m

abbrev pub value_or : Option GroupSessionData → GroupSessionData
value_or none = no_data
value_or (some d) = d

module _ (M : Megolm) where
  -- The tables of inbound sessions and of the data of all sessions.
  pub record Sessions : Type 0 where
    pub inbound : Map M.Session
    pub session_data : Map GroupSessionData

  -- The stored session is kept, if the given one starts later.
  abbrev pub starts_later : M.Session → Option M.Session → Bool
  starts_later s none = false
  starts_later s (some old) = ltb (M.first_known_index old) (M.first_known_index s)

  unfoldable pub save_inbound_megolm_session :
      MegolmSessionIndex → M.Session → GroupSessionData → Sessions → Sessions
  save_inbound_megolm_session index s d db =
      if starts_later s (lookup (M.dump index) db.inbound) then db else record {
        inbound = insert (M.dump index) s db.inbound;
        session_data = insert (M.dump index) d db.session_data;
      }

  abbrev pub get_inbound_megolm_session : MegolmSessionIndex → Sessions → Option M.Session
  get_inbound_megolm_session index db = lookup (M.dump index) db.inbound

  abbrev pub get_megolm_session_data : MegolmSessionIndex → Sessions → Option GroupSessionData
  get_megolm_session_data index db = lookup (M.dump index) db.session_data

  -- `m.room_key`
  unfoldable pub create_inbound_megolm_session :
      RoomKey → (sender_key sender_ed25519 : String) → Sessions → Sessions
  create_inbound_megolm_session k sender_key ed db =
      elim (M.init_inbound_group_session k.session_key) [
        | none ↦ db
        | some s ↦
            save_inbound_megolm_session (record { room_id = k.room_id; session_id = k.session_id })
              s
              (record no_data {
                forwarding_curve25519_key_chain = sender_key ∷ [];
                sender_claimed_ed25519_key = ed;
                sender_key = sender_key;
              })
              db
      ]

  abbrev is_from_sender : ForwardedRoomKey → Bool
  is_from_sender k = elim k.forwarding_curve25519_key_chain [
    | [] ↦ false
    | key ∷ ks ↦ elim ks [ [] ↦ str_eq key k.sender_key | _ ∷ _ ↦ false ]
  ]

  -- `m.forwarded_room_key`
  unfoldable pub import_inbound_megolm_session : ForwardedRoomKey → Sessions → Sessions
  import_inbound_megolm_session k db = elim (M.import_inbound_group_session k.session_key) [
    | none ↦ db
    | some s ↦
        save_inbound_megolm_session (record { room_id = k.room_id; session_id = k.session_id }) s
          (record no_data {
            forwarding_curve25519_key_chain = k.forwarding_curve25519_key_chain;
            sender_claimed_ed25519_key = k.sender_claimed_ed25519_key;
            sender_key = k.sender_key;
            trusted = is_from_sender k;
          })
          db
  ]
