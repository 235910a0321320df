-- ===== src/Crypto/SendingKeys.antt =====
-- `olm::send_encrypted_to_device_messages`: which devices are sent a message by the loops over its targets.
-- The devices that a query of keys finds, which are sent it later, are those of the server's answer.
use nheko_library.Base.{
  String, List, true, [], ◌∷◌, Option, none, some, Bool, false, not, ◌&&◌, if◌then◌else◌, str_eq,
}
use nheko_library.Base.StdMap.{Map, lookup, has}
use nheko_library.Crypto.Keys.{DeviceKeys, UserKeyCache}
use nheko_library.Crypto.Status.{key_id}
use nheko_library.Crypto.Sharing.{Targets}

abbrev pub ids_of : Map DeviceKeys → List String
ids_of [] = []
ids_of ((id, _) ∷ ds) = id ∷ ids_of ds

-- `deviceTargets`: an empty list is all devices.
abbrev pub device_targets : Map DeviceKeys → List String → List String
device_targets known [] = ids_of known
device_targets known (d ∷ ds) = d ∷ ds

module _ (our_curve : String) where
  -- A device with both its keys, and not this one.
  abbrev pub is_sendable : (device : String) → DeviceKeys → Bool
  is_sendable device d =
      has (key_id "ed25519:" device) d.keys && elim (lookup (key_id "curve25519:" device) d.keys) [
        | none ↦ false
        | some curve ↦ not (str_eq curve our_curve)
      ]

  -- The loop over the devices: the first that is not known ends it, and the user is asked for its keys.
  -- A device that has no session yet has one claimed first and is sent the message then; that this may be
  -- put off, if one was claimed lately, is left out.
  abbrev pub sent_devices : Map DeviceKeys → List String → List String
  sent_devices known [] = []
  sent_devices known (id ∷ ids) =
      let rest = sent_devices known ids in
      elim (lookup id known) [ none ↦ [] | some d ↦ if is_sendable id d then id ∷ rest else rest ]

  -- A user of whom no keys are known is sent nothing, and is asked for them.
  abbrev pub sent_to : Option UserKeyCache → (devices : List String) → List String
  sent_to none devices = []
  sent_to (some k) devices = sent_devices k.device_keys (device_targets k.device_keys devices)

  -- The loop over the targets.
  unfoldable pub recipients : Map UserKeyCache → Targets → Targets
  recipients cached [] = []
  recipients cached ((user, devices) ∷ targets) =
      (user, sent_to (lookup user cached) devices) ∷ recipients cached targets

abbrev pub all_known : Map DeviceKeys → List String → Bool
all_known known [] = true
all_known known (id ∷ ids) = has id known && all_known known ids

-- A user is asked for its keys where none are known, or not those of some device.
abbrev pub asks : Option UserKeyCache → (devices : List String) → Bool
asks none devices = true
asks (some k) devices = not (all_known k.device_keys (device_targets k.device_keys devices))

-- `keysToQuery.count(user)` after the loops.
abbrev pub is_queried : Map UserKeyCache → (user : String) → Targets → Bool
is_queried cached user targets = elim (lookup user targets) [
  | none ↦ false
  | some devices ↦ asks (lookup user cached) devices
]
