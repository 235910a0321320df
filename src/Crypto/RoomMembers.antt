-- ===== src/Crypto/RoomMembers.antt =====
-- `Cache::getMembersWithKeys`: the members of a room with their devices, all or the verified ones.
use nheko_library.Base.{
  String, List, [], ◌∷◌, Option, none, some, Bool, true, false, ◌&&◌, ◌||◌, if◌then◌else◌, str_eq,
  contains,
}
use nheko_library.Base.StdMap.{Map, lookup, insert}
use nheko_library.Crypto.Keys.{Trust, verified, DeviceKeys, UserKeyCache}
use nheko_library.Crypto.Status.{VerificationStatus, Own, Trusted, key_id, verification_status}
use nheko_library.Crypto.Sharing.{Members}

abbrev pub is_verified : Option Trust → Bool
is_verified (some verified) = true
is_verified _ = false

-- The test of `copy_if`.
abbrev pub is_verified_device : VerificationStatus → (device_id : String) → DeviceKeys → Bool
is_verified_device s id d = elim (lookup (key_id "curve25519:" id) d.keys) [
  | none ↦ false
  | some key ↦
      is_verified (lookup key s.verified_device_keys)
      && (str_eq id d.device_id && contains id s.verified_devices)
]

abbrev pub copy_verified : VerificationStatus → Map DeviceKeys → Map DeviceKeys
copy_verified s [] = []
copy_verified s ((id, d) ∷ ds) =
    let rest = copy_verified s ds in if is_verified_device s id d then (id, d) ∷ rest else rest

-- A member without devices is left out.
abbrev pub put_devices : (user_id : String) → UserKeyCache → Map DeviceKeys → Members → Members
put_devices user k [] ms = ms
put_devices user k (d ∷ ds) ms = insert user (some (record k { device_keys = d ∷ ds })) ms

abbrev pub has_any : List String → Bool
has_any [] = false
has_any (_ ∷ _) = true

abbrev pub put_verified : (user_id : String) → UserKeyCache → VerificationStatus → Members → Members
put_verified user k s ms =
    if is_verified (some s.user_verified) || has_any s.verified_devices
    then put_devices user k (copy_verified s k.device_keys) ms
    else ms

module _ (o : Own) where
  -- The members so far, and what is remembered of their verification.
  pub record Gathered : Type 0 where
    pub db : Trusted
    pub members : Members

  unfoldable pub gather_member : (verified_only : Bool) → (user_id : String) → Gathered → Gathered
  gather_member verified_only user g = elim (lookup user g.db.keys) [
    | none ↦ if verified_only then g else record g { members = insert user none g.members }
    | some k ↦
        if verified_only
        then (let asked = verification_status o user g.db in
            record { db = asked.0; members = put_verified user k asked.1 g.members })
        else record g { members = insert user (some k) g.members }
  ]

  -- The loop over the table of members.
  unfoldable pub get_members_with_keys : (verified_only : Bool) → List String → Gathered → Gathered
  get_members_with_keys verified_only [] g = g
  get_members_with_keys verified_only (user ∷ users) g =
      get_members_with_keys verified_only users (gather_member verified_only user g)
