-- ===== src/Crypto/KeyRequests.antt =====
-- `olm::handle_key_request_message`: who is sent the key of a session on request.
use nheko_library.Base.{
  ℕ, ◌-◌, ◌^◌, String, List, Option, none, some, Bool, false, not, ◌&&◌, ◌||◌, if◌then◌else◌,
  str_eq, contains,
}
use nheko_library.Base.StdMap.{lookup}
use nheko_library.Crypto.Sessions.{
  Megolm, Sessions, MegolmSessionIndex, GroupSessionData, SharedWithUsers, ForwardedRoomKey,
  get_inbound_megolm_session, get_megolm_session_data,
}

pub record KeyRequest : Type 0 where
  pub sender : String
  pub algorithm : String
  pub room_id : String
  pub session_id : String
  pub requesting_device_id : String

-- What is asked of the account, the settings, the cache and the library. An export from the index
-- `2 ^ 64 - 1` is one from the first index that is known; `none` is an exception.
pub record Account (M : Megolm) : Type 0 where
  pub user_id : String
  pub curve25519 : String
  pub share_keys_with_trusted_users : Bool
  pub is_room_member : (user_id room_id : String) → Bool
  pub verified_devices : (user_id : String) → Option (List String)
  pub export_session : M.Session → (index : ℕ) → Option String

-- To whom `send_megolm_key_to_device` sends what.
pub record Forward : Type 0 where
  pub user_id : String
  pub device_id : String
  pub payload : ForwardedRoomKey

abbrev pub megolm_algo : String
megolm_algo = "m.megolm.v1.aes-sha2"

abbrev pub first_index : ℕ
first_index = 2 ^ 64 - 1

-- From which message on the device was given the session.
abbrev pub shared_from : (user_id device_id : String) → SharedWithUsers → Option ℕ
shared_from user device keys = elim (lookup user keys) [ none ↦ none | some ds ↦ lookup device ds ]

abbrev pub lists_device : String → Option (List String) → Bool
lists_device device none = false
lists_device device (some ds) = contains device ds

abbrev pub index_of : KeyRequest → MegolmSessionIndex
index_of r = record { room_id = r.room_id; session_id = r.session_id }

module _ (M : Megolm) (a : Account M) where
  abbrev pub is_verified_device : KeyRequest → Bool
  is_verified_device r =
      (a.share_keys_with_trusted_users || str_eq r.sender a.user_id)
      && lists_device r.requesting_device_id (a.verified_devices r.sender)

  -- From where on the key may be seen. `none`: the request is ignored.
  abbrev pub minimum_index : KeyRequest → GroupSessionData → Option ℕ
  minimum_index r d =
      if is_verified_device r
      then some first_index
      else shared_from r.sender r.requesting_device_id d.currently

  abbrev pub forward_key : KeyRequest → GroupSessionData → (session_key : String) → Forward
  forward_key r d key = record {
    user_id = r.sender;
    device_id = r.requesting_device_id;
    payload = record {
      algorithm = megolm_algo;
      room_id = r.room_id;
      session_id = r.session_id;
      session_key = key;
      sender_key = d.sender_key;
      sender_claimed_ed25519_key = d.sender_claimed_ed25519_key;
      forwarding_curve25519_key_chain = d.forwarding_curve25519_key_chain;
    };
  }

  abbrev pub export_from : KeyRequest → GroupSessionData → M.Session → Option ℕ → Option Forward
  export_from r d s none = none
  export_from r d s (some i) = elim (a.export_session s i) [
    | none ↦ none
    | some key ↦ some (forward_key r d key)
  ]

  unfoldable pub handle_key_request_message : KeyRequest → Sessions M → Option Forward
  handle_key_request_message r db =
      if not (str_eq r.algorithm megolm_algo)
      then none
      else elim (get_megolm_session_data M (index_of r) db) [
        | none ↦ none
        | some d ↦
            if not (str_eq r.sender a.user_id) && not (str_eq d.sender_key a.curve25519)
            then none
            else elim (get_inbound_megolm_session M (index_of r) db) [
              | none ↦ none
              | some s ↦
                  if not (a.is_room_member r.sender r.room_id)
                  then none
                  else export_from r d s (minimum_index r d)
            ]
      ]
