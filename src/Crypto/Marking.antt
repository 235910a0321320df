-- ===== src/Crypto/Marking.antt =====
-- `Cache::markDeviceVerified`, `Cache::markDeviceUnverified` and `Cache::updateUserKeys`: what changes a
-- verification status, and what is no more remembered then.
use nheko_library.Base.{String, List, [], ◌∷◌, Option, none, some, if◌then◌else◌, str_eq, contains}
use nheko_library.Base.StdMap.{Map, lookup, insert, erase}
use nheko_library.Crypto.Keys.{UserKeyCache}
use nheko_library.Crypto.DeviceList.{QueryKeys, update_users, updates_of}
use nheko_library.Crypto.Status.{VerificationStatus, VerificationCache, Own, Trusted, is_local}

module _ (o : Own) where
  -- The results that are dropped when something of a user changes: all, if it is the own one.
  abbrev pub forget_status : (user_id : String) → Map VerificationStatus → Map VerificationStatus
  forget_status user status = if is_local o user then [] else erase user status

  abbrev pub none_by_hand : Option VerificationCache → VerificationCache
  none_by_hand none = record { device_verified = []; device_blocked = [] }
  none_by_hand (some v) = v

  unfoldable pub mark_device_verified : (user_id key : String) → Trusted → Trusted
  mark_device_verified user key db =
      let v = none_by_hand (lookup user db.verified_by_hand) in
      if contains key v.device_verified then db else record db {
        verified_by_hand =
            insert user (record v { device_verified = key ∷ v.device_verified })
              db.verified_by_hand;
        status = forget_status user db.status;
      }

  abbrev without : String → List String → List String
  without key [] = []
  without key (d ∷ ds) = let rest = without key ds in if str_eq d key then rest else d ∷ rest

  unfoldable pub mark_device_unverified : (user_id key : String) → Trusted → Trusted
  mark_device_unverified user key db =
      let v = none_by_hand (lookup user db.verified_by_hand) in
      record db {
        verified_by_hand =
            insert user (record v { device_verified = without key v.device_verified })
              db.verified_by_hand;
        status = forget_status user db.status;
      }

  abbrev pub forget_all : Map UserKeyCache → Map VerificationStatus → Map VerificationStatus
  forget_all [] status = status
  forget_all ((user, _) ∷ us) status = forget_all us (forget_status user status)

  unfoldable pub update_user_keys : (sync_token : String) → QueryKeys → Trusted → Trusted
  update_user_keys token q db = record db {
    keys = update_users o.verifies token (updates_of q) db.keys;
    status = forget_all (updates_of q) db.status;
  }
