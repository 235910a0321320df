-- ===== src/Crypto/Status.antt =====
-- `Cache::verificationStatus`: who is verified, by which signatures, and the memory of the results.
use nheko_library.Base.{
  ℕ, ◌-◌, String, List, [], ◌∷◌, Option, none, some, Bool, true, false, ◌&&◌, ◌||◌, if◌then◌else◌,
  str_eq, concat, count_if, length, ltb,
}
use nheko_library.Base.Int.{ℤ, pos, negsuc}
use nheko_library.Base.StdMap.{Map, lookup, has, insert}
use nheko_library.Crypto.Keys.{
  Trust, unverified, tofu, verified, DeviceKeys, CrossSigningKeys, UserKeyCache, add,
}
use nheko_library.Crypto.DeviceList.{Verifies}

pub record VerificationStatus : Type 0 where
  pub user_verified : Trust
  pub verified_devices : List String
  pub verified_device_keys : Map Trust
  pub unverified_device_count : ℤ
  pub no_keys : Bool

pub record VerificationCache : Type 0 where
  pub device_verified : List String
  pub device_blocked : List String

-- This account, its device and the identity key of it, and the library's check.
pub record Own : Type 0 where
  pub local_user : String
  pub device_id : String
  pub ed25519 : String
  pub verifies : Verifies

-- The two tables, and `verification_storage.status`.
pub record Trusted : Type 0 where
  pub keys : Map UserKeyCache
  pub verified_by_hand : Map VerificationCache
  pub status : Map VerificationStatus

abbrev pub key_id : String → String → String
key_id algorithm device = concat (algorithm ∷ device ∷ [])

-- The signatures of one user.
abbrev pub signatures_by : (user_id : String) → Map (Map String) → Map String
signatures_by user signatures = elim (lookup user signatures) [ none ↦ [] | some m ↦ m ]

abbrev pub verifies_with : Verifies → (json signature : String) → Option String → Bool
verifies_with verifies json sig none = false
verifies_with verifies json sig (some key) = verifies key json sig

-- `verifyAtLeastOneSig`, of the signatures of the owner of the keys.
abbrev pub at_least_one : Verifies → (json : String) → (keys signatures : Map String) → Bool
at_least_one verifies json keys [] = false
at_least_one verifies json keys ((id, sig) ∷ sigs) =
    verifies_with verifies json sig (lookup id keys) || at_least_one verifies json keys sigs

abbrev pub signs_keys : Verifies → CrossSigningKeys → (keys : Map String) → (owner : String) → Bool
signs_keys verifies k keys owner =
    at_least_one verifies k.json keys (signatures_by owner k.signatures)

abbrev pub signs_device : Verifies → DeviceKeys → (keys : Map String) → (owner : String) → Bool
signs_device verifies d keys owner =
    at_least_one verifies d.json keys (signatures_by owner d.signatures)

-- `static_cast<int>(a) - b`
abbrev difference : ℕ → ℕ → ℤ
difference a b = if ltb a b then negsuc (b - a - 1) else pos (a - b)

abbrev count_unverified : Map DeviceKeys → VerificationStatus → VerificationStatus
count_unverified ds s = record s {
  unverified_device_count = difference (length ds) (count_if (λ id. has id ds) s.verified_devices);
}

-- A device that is signed with the self-signing keys is a verified one.
abbrev pub trust_device :
    Verifies
    → (user_id : String) → Trust
    → (self_signing : Map String) → DeviceKeys
    → VerificationStatus
    → VerificationStatus
trust_device verifies user t ssk d s = elim (lookup (key_id "curve25519:" d.device_id) d.keys) [
  | none ↦ s
  | some identity ↦
      if signs_device verifies d ssk user
      then record s {
        verified_devices = add d.device_id s.verified_devices;
        verified_device_keys = insert identity t s.verified_device_keys;
      }
      else s
]

abbrev pub trust_devices :
    Verifies
    → (user_id : String) → Trust
    → (self_signing : Map String) → Map DeviceKeys
    → VerificationStatus
    → VerificationStatus
trust_devices verifies user t ssk [] s = s
trust_devices verifies user t ssk ((_, d) ∷ ds) s =
    trust_devices verifies user t ssk ds (trust_device verifies user t ssk d s)

module _ (o : Own) where
  abbrev pub is_local : String → Bool
  is_local user = str_eq user o.local_user

  -- The own master key, signed by this device.
  abbrev pub owns_master_key : UserKeyCache → Bool
  owns_master_key ours =
      elim (lookup (key_id "ed25519:" o.device_id)
        (signatures_by o.local_user ours.master_keys.signatures)) [
          | none ↦ false
          | some sig ↦ o.verifies o.ed25519 ours.master_keys.json sig
        ]

  -- The own master key has signed the own user-signing key, and that their master key.
  abbrev pub verifies_master_key : (ours theirs : UserKeyCache) → Bool
  verifies_master_key ours theirs =
      signs_keys o.verifies ours.user_signing_keys ours.master_keys.keys o.local_user
      && signs_keys o.verifies theirs.master_keys ours.user_signing_keys.keys o.local_user

  -- How much a user is trusted. `none`: not at all.
  abbrev pub trust_of : (user_id : String) → (ours theirs : UserKeyCache) → Option Trust
  trust_of user ours theirs =
      if is_local user
      then some verified
      else if verifies_master_key ours theirs
      then some verified
      else if theirs.master_key_changed
      then none
      else some tofu

  abbrev master_keys_of : (user_id : String) → (ours theirs : UserKeyCache) → Map String
  master_keys_of user ours theirs =
      if is_local user then ours.master_keys.keys else theirs.master_keys.keys

  abbrev pub with_devices :
      (user_id : String)
      → (ours theirs : UserKeyCache) → Trust
      → VerificationStatus
      → VerificationStatus
  with_devices user ours theirs t s =
      if signs_keys o.verifies theirs.self_signing_keys (master_keys_of user ours theirs) user
      then count_unverified theirs.device_keys
          (trust_devices o.verifies user t theirs.self_signing_keys.keys theirs.device_keys s)
      else s

  abbrev pub with_trust :
      (user_id : String)
      → (ours theirs : UserKeyCache) → Option Trust
      → VerificationStatus
      → VerificationStatus
  with_trust user ours theirs none s = s
  with_trust user ours theirs (some t) s =
      with_devices user ours theirs t (record s { user_verified = t })

  abbrev by_hand : Option VerificationCache → List String
  by_hand none = []
  by_hand (some v) = v.device_verified

  abbrev pub status_without_keys :
      (user_id : String) → Option VerificationCache → VerificationStatus
  status_without_keys user v = record {
    user_verified = unverified;
    verified_devices = if is_local user then add o.device_id (by_hand v) else by_hand v;
    verified_device_keys = [];
    unverified_device_count = pos 1;
    no_keys = true;
  }

  -- What is computed where it is not remembered, of our keys, those of the user, and the devices that were
  -- verified by hand.
  unfoldable pub compute_status :
      (user_id : String)
      → (ours theirs : Option UserKeyCache) → Option VerificationCache
      → VerificationStatus
  compute_status user ours none v = status_without_keys user v
  compute_status user none (some theirs) v = record (status_without_keys user v) { no_keys = false }
  compute_status user (some ours) (some theirs) v =
      let s =
        count_unverified theirs.device_keys
          (record (status_without_keys user v) { no_keys = false }) in
      if owns_master_key ours then with_trust user ours theirs (trust_of user ours theirs) s else s

  abbrev pub current_status : (user_id : String) → Trusted → VerificationStatus
  current_status user db =
      compute_status user (lookup o.local_user db.keys) (lookup user db.keys)
        (lookup user db.verified_by_hand)

  unfoldable pub verification_status : (user_id : String) → Trusted → Trusted × VerificationStatus
  verification_status user db = elim (lookup user db.status) [
    | some s ↦ (db, s)
    | none ↦ (
      record db { status = insert user (current_status user db) db.status },
      current_status user db,
    )
  ]
