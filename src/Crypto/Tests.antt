-- ===== src/Crypto/Tests.antt =====
-- Devices of two users, and what is done with them.
use nheko_library.Base.{
  true, ◌≡◌, refl, sym, ap, String, List, [], ◌∷◌, none, some, arith, str_eq, concat,
  some-injective,
}
use nheko_library.Base.Int.{pos}
use nheko_library.Base.StdMap.{Map, lookup}
use nheko_library.Cache.Tests.{distinct}
use nheko_library.Crypto.Keys.{
  DeviceKeys, CrossSigningKeys, UserKeyCache, no_cache, unverified, verified,
}
use nheko_library.Crypto.DeviceList.{
  Verifies, QueryKeys, update_users, updates_of, update_user, update_devices, update_device,
  update_entry, mark_users_out_of_date,
}
use nheko_library.Crypto.PinnedRuns.{
  Change, queried, marked, Pins, apply_changes, apply_changes-Pins,
}
use nheko_library.Crypto.Admitted.{IsAdmitted, update_entry-admits}
use nheko_library.Crypto.Status.{Own, Trusted, verification_status, compute_status, current_status}
use nheko_library.Crypto.RoomTrust.{room_verification_status, trust_members}
use nheko_library.Crypto.Chain.{Chain, compute_status-Chain}
use nheko_library.Crypto.FreshStatus.{
  IsFresh, use_status, asked, marked_verified, use_status, use_status-IsFresh,
}

-- A signature is the key and what it signs.
abbrev pub verifies : Verifies
verifies key json sig = str_eq sig (concat (key ∷ json ∷ []))

abbrev device : (id key sig : String) → DeviceKeys
device id key sig = record {
  device_id = id;
  keys =
      (concat ("curve25519:" ∷ id ∷ []), concat ("c" ∷ id ∷ []))
      ∷ (concat ("ed25519:" ∷ id ∷ []), key)
      ∷ [];
  signatures = ("@a:x", (concat ("ed25519:" ∷ id ∷ []), sig) ∷ []) ∷ [];
  json = id;
}

abbrev pub laptop : DeviceKeys
laptop = device "L" "kl" "klL"

abbrev forged : DeviceKeys
forged = device "L" "kx" "kxL"

abbrev pub phone : DeviceKeys
phone = device "P" "kp" "kpP"

abbrev with_laptop : UserKeyCache
with_laptop = record no_cache {
  device_keys = ("L", laptop) ∷ [];
  updated_at = "s1";
  last_changed = "s1";
  seen_device_keys = "cL" ∷ "kl" ∷ [];
  seen_device_ids = "L" ∷ [];
}

abbrev answer : Map DeviceKeys → QueryKeys
answer ds = record {
  device_keys = ("@a:x", ds) ∷ [];
  master_keys = [];
  user_signing_keys = [];
  self_signing_keys = [];
}

-- The laptop is gone, and comes back with other keys.
abbrev swapped : List Change
swapped =
    queried "s1" (answer [])
    ∷ marked "s2" ("@a:x" ∷ [])
    ∷ queried "s2" (answer (("L", forged) ∷ []))
    ∷ []

apply_changes-Pins_example :
    Pins "@a:x" "L" laptop.keys (apply_changes verifies swapped (("@a:x", with_laptop) ∷ []))
apply_changes-Pins_example =
    apply_changes-Pins verifies "@a:x" "L" laptop.keys swapped (("@a:x", with_laptop) ∷ [])
      (with_laptop, refl, (refl, laptop_only))
  where
    laptop_only :
        (d : DeviceKeys) → lookup "L" with_laptop.device_keys ≡ some d → d.keys ≡ laptop.keys
    laptop_only d h = ap (λ e. e.keys) (sym (some-injective h))

-- The first entry of a user is taken as it is, and what is in it does not count as seen: the laptop
-- can go, and come back with other keys.
abbrev first_taken : Map UserKeyCache
first_taken =
    apply_changes verifies
      (queried "s1" (answer (("L", laptop) ∷ []))
        ∷ queried "s1" (answer [])
        ∷ queried "s1" (answer (("L", forged) ∷ []))
        ∷ [])
      []

first_taken-swaps :
    (c : UserKeyCache) × (lookup "@a:x" first_taken ≡ some c)
    × (lookup "L" c.device_keys ≡ some forged)
unfolding update_users updates_of update_user update_entry update_devices update_device
first_taken-swaps = (_, refl, refl)

abbrev both_devices : UserKeyCache
both_devices = record no_cache { device_keys = ("L", laptop) ∷ ("P", phone) ∷ [] }

abbrev with_phone : UserKeyCache
with_phone = record with_laptop {
  device_keys = ("L", laptop) ∷ ("P", phone) ∷ [];
  seen_device_keys = "kp" ∷ "cP" ∷ "cL" ∷ "kl" ∷ [];
  seen_device_ids = "P" ∷ "L" ∷ [];
}

takes_phone : update_entry verifies "@a:x" "s1" both_devices with_laptop ≡ some with_phone
unfolding update_entry update_devices update_device
takes_phone = refl

update_entry-admits_example : IsAdmitted verifies "@a:x" with_laptop "P" phone
update_entry-admits_example =
    update_entry-admits verifies "@a:x" "s1" both_devices with_laptop with_phone "P" phone
      takes_phone refl

abbrev pub own : Own
own = record { local_user = "@a:x"; device_id = "L"; ed25519 = "kl"; verifies = verifies }

-- A key set with one key, and what one key of `@a:x` has signed of it.
abbrev key_set : (id key by sig json : String) → CrossSigningKeys
key_set id key by sig json = record {
  keys = (concat ("ed25519:" ∷ id ∷ []), key) ∷ [];
  signatures = ("@a:x", (concat ("ed25519:" ∷ by ∷ []), sig) ∷ []) ∷ [];
  json = json;
}

abbrev pub ours : UserKeyCache
ours = record with_laptop {
  master_keys = key_set "m" "m" "L" "klM" "M";
  user_signing_keys = key_set "u" "u" "m" "mU" "U";
}

abbrev pub theirs : UserKeyCache
theirs = record no_cache { master_keys = key_set "t" "t" "u" "uT" "T" }

theirs_verified :
    (compute_status own "@b:x" (some ours) (some theirs) none).user_verified ≡ verified
unfolding compute_status
theirs_verified = refl

compute_status-Chain_example :
    (k : UserKeyCache) × (t : UserKeyCache) × (some ours ≡ some k)
    × (some theirs ≡ some t)
    × Chain own k t
compute_status-Chain_example =
    compute_status-Chain own "@b:x" (some ours) (some theirs) none (distinct "@b:x" "@a:x" refl)
      theirs_verified

abbrev nothing_known : Trusted
nothing_known = record {
  keys = ("@a:x", ours) ∷ ("@b:x", theirs) ∷ [];
  verified_by_hand = [];
  status = [];
}

abbrev b_known : Trusted
b_known = use_status own (asked "@b:x") nothing_known

nothing_known-IsFresh : IsFresh own nothing_known
nothing_known-IsFresh user s h = absurd (ground arith)

use_status-IsFresh_example : IsFresh own (use_status own (marked_verified "@b:x" "P") b_known)
use_status-IsFresh_example =
    use_status-IsFresh own (marked_verified "@b:x" "P") b_known
      (use_status-IsFresh own (asked "@b:x") nothing_known nothing_known-IsFresh)

-- A user whose list of devices was only marked as out of date seems to have no unverified device.
abbrev only_marked : Trusted
only_marked = record nothing_known {
  keys = mark_users_out_of_date "s2" ("@c:x" ∷ []) (("@a:x", ours) ∷ []);
}

only_marked-no_unverified : (current_status own "@c:x" only_marked).unverified_device_count ≡ pos 0
unfolding mark_users_out_of_date compute_status
only_marked-no_unverified = refl

-- A user whose master key has changed, and who has no device left, leaves the room verified.
abbrev changed : Trusted
changed = record nothing_known {
  keys = ("@a:x", ours) ∷ ("@c:x", record no_cache { master_key_changed = true }) ∷ [];
}

changed-unverified : (current_status own "@c:x" changed).user_verified ≡ unverified
unfolding compute_status
changed-unverified = refl

changed-verified : (room_verification_status own "s1" ("@c:x" ∷ []) changed).trust ≡ verified
unfolding room_verification_status trust_members verification_status compute_status
    mark_users_out_of_date
changed-verified = refl
