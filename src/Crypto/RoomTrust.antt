-- ===== src/Crypto/RoomTrust.antt =====
-- `Cache::roomVerificationStatus`: how much all members of a room are trusted.
use nheko_library.Base.{
  String, List, [], ◌∷◌, ◌++◌, Bool, true, false, not, ◌&&◌, if◌then◌else◌, ◌==◌,
}
use nheko_library.Base.Int.{ℤ, pos, negsuc}
use nheko_library.Crypto.Keys.{Trust, unverified, tofu, verified}
use nheko_library.Crypto.DeviceList.{mark_users_out_of_date}
use nheko_library.Crypto.Status.{VerificationStatus, Own, Trusted, verification_status}

abbrev is_zero : ℤ → Bool
is_zero (pos n) = n == 0
is_zero (negsuc n) = false

abbrev is_empty : List String → Bool
is_empty [] = true
is_empty (_ ∷ _) = false

-- A trust that is not verified stays.
abbrev lowered : Trust → Trust → Trust
lowered tofu verified = tofu
lowered _ t = t

pub record RoomTrust : Type 0 where
  pub db : Trusted
  pub trust : Trust
  pub keys_to_request : List String

module _ (o : Own) where
  abbrev with_status : (user_id : String) → VerificationStatus → RoomTrust → RoomTrust
  with_status user s r =
      if not (is_zero s.unverified_device_count)
      then record r {
        trust = unverified;
        keys_to_request =
            if is_empty s.verified_devices && s.no_keys
            then r.keys_to_request ++ user ∷ []
            else r.keys_to_request;
      }
      else record r { trust = lowered s.user_verified r.trust }

  -- The loop over the table of members.
  unfoldable pub trust_members : List String → RoomTrust → RoomTrust
  trust_members [] r = r
  trust_members (user ∷ users) r =
      let asked = verification_status o user r.db in
      trust_members users (with_status user asked.1 (record r { db = asked.0 }))

  -- The keys of members that are not known are marked as out of date.
  unfoldable pub room_verification_status :
      (sync_token : String) → List String → Trusted → RoomTrust
  room_verification_status token users db =
      let r = trust_members users (record { db = db; trust = verified; keys_to_request = [] }) in
      record r {
        db = record (r.db) { keys = mark_users_out_of_date token r.keys_to_request r.db.keys };
      }
