-- ===== src/Crypto/EncryptionTests.antt =====
-- Outbound sessions that are numbers: how many messages they have sealed.
use mathlib.Core.Path.{subst}
use nheko_library.Base.{
  ℕ, suc, false, inr, ◌≡◌, refl, String, [], ◌∷◌, Option, some, true, false, arith, str_eq, eq_iff,
  if◌then◌else◌, str_lt, concat,
}
use nheko_library.Base.Sorted.{IsSorted}
use nheko_library.Base.StdMap.{Map, lookup}
use nheko_library.Crypto.Keys.{no_cache, DeviceKeys, UserKeyCache}
use nheko_library.Crypto.Status.{Trusted, compute_status, current_status, verification_status}
use nheko_library.Crypto.FreshStatus.{IsFresh}
use nheko_library.Crypto.RoomMembers.{is_verified_device, gather_member, get_members_with_keys}
use nheko_library.Crypto.VerifiedReaders.{
  verified_members, gets_key, encrypt_group_message-only_verified,
  encrypt_group_message-not_queried,
}
use nheko_library.Crypto.Tests.{own, ours, theirs, laptop, phone}
use nheko_library.Crypto.Sessions.{no_data}
use nheko_library.Crypto.KeyRequests.{shared_from}
use nheko_library.Crypto.Sharing.{Members, devices_of, compare_members}
use nheko_library.Crypto.GroupEncryption.{
  OutboundMegolm, Encryption, Store, Encrypted, reuse, create, encrypt_with, encrypt_group_message,
}
use nheko_library.Crypto.Recipients.{holds}
use nheko_library.Crypto.SendingKeys.{recipients, is_queried}
use nheko_library.Crypto.Readers.{StoreIsKept, may_read, encrypt_group_message-readers}
use nheko_library.Crypto.KeptHolders.{encrypt_group_message-StoreIsKept}
use nheko_library.Crypto.SessionTests.{five}

abbrev counted : OutboundMegolm
counted = record {
  Outbound = ℕ;
  session_id = λ n. "s";
  session_key = λ n. "k";
  message_index = λ n. n;
  encrypt_group_message = λ n text. (text, suc n);
}

-- `@b:x` has a new device `P`.
abbrev members : Members
members =
    ("@a:x", some (record no_cache { device_keys = ("L", laptop) ∷ [] }))
    ∷ ("@b:x", some (record no_cache { device_keys = ("L", laptop) ∷ ("P", phone) ∷ [] }))
    ∷ []

members-IsSorted : IsSorted members
members-IsSorted = (
  λ j h. subst (λ k. str_lt "@a:x" k ≡ true) (only_b j h) refl,
  (λ j h. absurd (ground arith), tt),
)
  where
    only_b : (j : String) → (if str_eq "@b:x" j then true else false) ≡ true → "@b:x" ≡ j
    only_b j h = ground (arith, eq_iff "@b:x" j)

abbrev message : Encryption five counted
message = record {
  own_user_id = "@a:x";
  device_id = "L";
  room_id = "!r";
  body = "hello";
  members = members;
  rotation_period_msgs = 100;
  rotation_period_ms = 1000;
  now = 10;
  ed25519 = "e";
  curve25519 = "mine";
  fresh = 0;
}

abbrev with_session : Store five counted
with_session = record {
  sessions = record {
    inbound = ("!r s", 0) ∷ [];
    session_data = ("!r s", record no_data { currently = ("@b:x", ("L", 0) ∷ []) ∷ [] }) ∷ [];
  };
  outbound = ("!r", 4) ∷ [];
}

with_session-kept : StoreIsKept five counted message with_session
with_session-kept o h = ((λ j i. absurd (ground arith), tt), refl)

sealed :
    (r : Encrypted five counted) × (encrypt_group_message five counted message with_session
      ≡ some r)
unfolding encrypt_group_message encrypt_with reuse compare_members
sealed = (_, refl)

encrypt_group_message-readers_example :
    holds "@b:x" "P" sealed.0.data_of.currently ≡ may_read "@a:x" "L" "@b:x" "P" members
encrypt_group_message-readers_example =
    encrypt_group_message-readers five counted message with_session sealed.0 "@b:x" "P"
      members-IsSorted with_session-kept sealed.1

encrypt_group_message-StoreIsKept_example : StoreIsKept five counted message sealed.0.store
encrypt_group_message-StoreIsKept_example =
    encrypt_group_message-StoreIsKept five counted message with_session sealed.0 members-IsSorted
      with_session-kept sealed.1

-- `P` was sent the session from its fourth message on, with which this one is sealed, but is recorded to
-- have it from the fifth one on.
late_by_one :
    (r : Encrypted five counted) × (encrypt_group_message five counted message with_session
      ≡ some r)
    × (shared_from "@b:x" "P" r.data_of.currently ≡ some 5)
unfolding encrypt_group_message encrypt_with reuse compare_members
late_by_one = (_, refl, refl)

-- `@b:x` has a device that its self-signing key has signed.
abbrev signed_by : (by sig : String) → Map (Map String)
signed_by by sig = ("@b:x", (concat ("ed25519:" ∷ by ∷ []), sig) ∷ []) ∷ []

abbrev tablet : DeviceKeys
tablet = record {
  device_id = "B";
  keys = ("curve25519:B", "cB") ∷ ("ed25519:B", "kB") ∷ [];
  signatures = signed_by "s" "sB";
  json = "B";
}

abbrev of_b : UserKeyCache
of_b = record theirs {
  self_signing_keys = record {
    keys = ("ed25519:s", "s") ∷ [];
    signatures = signed_by "t" "tS";
    json = "S";
  };
  device_keys = ("B", tablet) ∷ ("P", phone) ∷ [];
}

abbrev both_known : Trusted
both_known = record {
  keys = ("@a:x", ours) ∷ ("@b:x", of_b) ∷ [];
  verified_by_hand = [];
  status = [];
}

both_known-IsFresh : IsFresh own both_known
both_known-IsFresh user s h = absurd (ground arith)

abbrev to_verified : Encryption five counted
to_verified = record message { members = verified_members own ("@a:x" ∷ "@b:x" ∷ []) both_known }

abbrev no_session : Store five counted
no_session = record { sessions = record { inbound = []; session_data = [] }; outbound = [] }

no_session-kept : StoreIsKept five counted to_verified no_session
no_session-kept o h = absurd (ground arith)

sealed_for_verified :
    (r : Encrypted five counted) × (encrypt_group_message five counted to_verified no_session
      ≡ some r)
    × (holds "@b:x" "B" r.data_of.currently ≡ true)
    × (holds "@b:x" "P" r.data_of.currently ≡ false)
    × (gets_key five counted "cL" both_known.keys "@b:x" "B" r ≡ true)
unfolding encrypt_group_message encrypt_with reuse create get_members_with_keys gather_member
    verification_status compute_status recipients
sealed_for_verified = (_, refl, refl, refl, refl)

-- `@a:x` has a second device, which the self-signing key has not signed.
abbrev ours_signed : (by sig : String) → Map (Map String)
ours_signed by sig = ("@a:x", (concat ("ed25519:" ∷ by ∷ []), sig) ∷ []) ∷ []

abbrev phone_added : Trusted
phone_added = record {
  keys =
      (
        "@a:x",
        record ours {
          self_signing_keys = record {
            keys = ("ed25519:s", "s") ∷ [];
            signatures = ours_signed "m" "mS";
            json = "S";
          };
          device_keys =
              ("L", record laptop { signatures = ours_signed "s" "sL" }) ∷ ("P", phone) ∷ [];
        },
      )
      ∷ ("@b:x", of_b)
      ∷ [];
  verified_by_hand = [];
  status = [];
}

abbrev from_laptop : Encryption five counted
from_laptop = record message { members = verified_members own ("@a:x" ∷ "@b:x" ∷ []) phone_added }

-- Its key is sent to the device that is not verified, and that is not recorded to have it.
key_to_phone :
    (r : Encrypted five counted) × (encrypt_group_message five counted from_laptop no_session
      ≡ some r)
    × (is_verified_device (current_status own "@a:x" phone_added) "P" phone ≡ false)
    × (gets_key five counted "cL" phone_added.keys "@a:x" "P" r ≡ true)
    × (holds "@a:x" "P" r.data_of.currently ≡ false)
unfolding encrypt_group_message encrypt_with reuse create get_members_with_keys gather_member
    verification_status compute_status recipients
key_to_phone = (_, refl, refl, refl, refl)

encrypt_group_message-only_verified_example :
    (k : Option UserKeyCache) × (d : DeviceKeys) × (lookup "@b:x" to_verified.members ≡ some k)
    × (lookup "B" (devices_of k) ≡ some d)
    × (is_verified_device (current_status own "@b:x" both_known) "B" d ≡ true)
encrypt_group_message-only_verified_example =
    encrypt_group_message-only_verified five counted to_verified own ("@a:x" ∷ "@b:x" ∷ [])
      both_known no_session sealed_for_verified.0 "cL" both_known.keys "@b:x" "B" refl
      both_known-IsFresh no_session-kept sealed_for_verified.1 (inr (refl, sealed_for_verified.4))

encrypt_group_message-not_queried_example :
    is_queried both_known.keys "@b:x" sealed_for_verified.0.send_session_to ≡ false
encrypt_group_message-not_queried_example =
    encrypt_group_message-not_queried five counted to_verified own ("@a:x" ∷ "@b:x" ∷ []) both_known
      no_session sealed_for_verified.0 "@b:x" refl both_known-IsFresh no_session-kept
      sealed_for_verified.1 refl
