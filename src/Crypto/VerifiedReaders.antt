-- ===== src/Crypto/VerifiedReaders.antt =====
-- `olm::encrypt_group_message` with `onlyShareKeysWithVerifiedUsers`: who is sent a session and is recorded.
use mathlib.Core.Path.{subst}
use nheko_library.Base.Sorted.{IsSorted}
use nheko_library.Base.{
  Bool, false, none, ◌⊎◌, str_eq, some-injective, ◌≡◌, refl, ◌∙◌, sym, ap, String, List, [], Option,
  some, true, arith, Option-cases, inl, inr,
}
use nheko_library.Base.StdMap.{Map, lookup, has-lookup}
use nheko_library.Crypto.Keys.{DeviceKeys, UserKeyCache}
use nheko_library.Crypto.Sessions.{Megolm, GroupSessionData, value_or, get_megolm_session_data}
use nheko_library.Crypto.Status.{Own, Trusted, current_status}
use nheko_library.Crypto.FreshStatus.{IsFresh}
use nheko_library.Crypto.Sharing.{Members, Targets, devices_of, compare_members}
use nheko_library.Crypto.StillMembers.{has_device, none≢some}
use nheko_library.Crypto.Targeted.{is_target}
use nheko_library.Crypto.SendingKeys.{recipients, is_queried}
use nheko_library.Crypto.KnownTargets.{get_members_with_keys-AllKnown, known-not_queried}
use nheko_library.Crypto.TargetLists.{
  AllHave, NoneEmpty, share_with_all-NoneEmpty, compare_members-NoneEmpty, recipients-are_targets,
  get_members_with_keys-AllHave,
}
use nheko_library.Crypto.RoomMembers.{is_verified_device, Gathered, get_members_with_keys}
use nheko_library.Crypto.OnlyVerified.{Sound, get_members_with_keys-Sound}
use nheko_library.Crypto.GroupEncryption.{
  OutboundMegolm, Encryption, Store, Chosen, Encrypted, index_of, is_in_period, chosen_with, reuse,
  create, encrypt_with, encrypt_group_message,
}
use nheko_library.Crypto.Recipients.{
  holds, holds-record_targets, share_with_all-IsSorted, compare_members-IsSorted,
}
use nheko_library.Crypto.Readers.{StoreIsKept, if-else-some, encrypt_group_message-readers}

abbrev pub nobody : (o : Own) → Trusted → Gathered o
nobody o db = record { db = db; members = [] }

-- The members of a room of whom devices are verified.
abbrev pub verified_members : Own → List String → Trusted → Members
verified_members o users db = (get_members_with_keys o true users (nobody o db)).members

has_device-lists :
    (user device : String) (ms : Members)
    → has_device user device ms ≡ true
    → (k : Option UserKeyCache) × (d : DeviceKeys) × (lookup user ms ≡ some k)
      × (lookup device (devices_of k) ≡ some d)
has_device-lists user device ms h = elim (Option-cases (lookup user ms)) [
  | inl missing ↦ absurd (ground (arith, missing, h))
  | inr (k, there) ↦
      let (d, at) = has-lookup device (devices_of k) (ground (arith, there, h)) in (k, d, there, at)
]

-- The loops over the targets send the key to the device, by the users' keys in `cached`.
abbrev pub gets_key :
    (M : Megolm) (O : OutboundMegolm)
    → (our_curve : String) → Map UserKeyCache
    → (user device : String) → Encrypted M O
    → Bool
gets_key M O our_curve cached user device r =
    is_target user device (recipients our_curve cached r.send_session_to)

module _ (M : Megolm) (O : OutboundMegolm) (e : Encryption M O) (o : Own) where
  nobody-Sound : (db : Trusted) → IsFresh o db → Sound o db (nobody o db)
  nobody-Sound db fresh = record {
    same_keys = refl;
    same_by_hand = refl;
    fresh = fresh;
    sorted = tt;
    all_verified = λ user id k d h at. absurd (ground arith);
  }

  -- The targets are in order, and no list of another user is empty.
  record Sends (c : Chosen M O) : Type 0 where
    sorted : IsSorted c.send_session_to
    none_empty : NoneEmpty e.own_user_id e.device_id c.send_session_to

  reuse-Sends :
      (st : Store M O) (c : Chosen M O) → AllHave e.members → reuse M O e st ≡ some c → Sends c
  unfolding reuse
  reuse-Sends st c have h = elim (Option-cases (lookup e.room_id st.outbound)) [
    | inl missing ↦ absurd (ground (arith, missing, h))
    | inr (s, there) ↦
        let d = value_or (get_megolm_session_data M (index_of M O e s) st.sessions) in
        chosen_with-Sends s d st
          (compare_members e.own_user_id e.device_id e.members d.currently []) c have refl
          (if-else-some (is_in_period M O e d) _ c (rw (reuse, there) at h))
  ]
    where
      chosen_with-Sends :
          (s : O.Outbound) (d : GroupSessionData) (st : Store M O) (t : Option Targets)
          (c : Chosen M O)
          → AllHave e.members
          → compare_members e.own_user_id e.device_id e.members d.currently [] ≡ t
          → chosen_with M O s d st t ≡ some c
          → Sends c
      chosen_with-Sends s d st none c have at h = absurd (none≢some h)
      chosen_with-Sends s d st (some t) c have at h = subst Sends (some-injective h) (record {
        sorted =
            compare_members-IsSorted e.own_user_id e.device_id e.members d.currently [] t tt at;
        none_empty =
            compare_members-NoneEmpty e.own_user_id e.device_id e.members d.currently [] t have
              (λ user l other i. absurd (none≢some i)) at;
      })

  create-Sends :
      (st : Store M O) (c : Chosen M O) → AllHave e.members → create M O e st ≡ some c → Sends c
  unfolding create
  create-Sends st c have h =
      elim (Option-cases (M.init_inbound_group_session (O.session_key e.fresh))) [
        | inl refused ↦ absurd (ground (arith, refused, h))
        | inr (s, made) ↦ subst Sends (some-injective (rw (create, made) at h)) (record {
          sorted = share_with_all-IsSorted e.own_user_id e.device_id e.members [] tt;
          none_empty =
              share_with_all-NoneEmpty e.own_user_id e.device_id e.members [] have
                (λ user l other i. absurd (none≢some i));
        })
      ]

  -- The lists of other users are not empty, and the targets are recorded.
  abbrev Recorded : Encrypted M O → Type 0
  Recorded r =
      NoneEmpty e.own_user_id e.device_id r.send_session_to
      × ((user device : String)
          → is_target user device r.send_session_to ≡ true
          → holds user device r.data_of.currently ≡ true)

  encrypt_with-Recorded :
      (c : Chosen M O) (r : Encrypted M O) → Sends c → encrypt_with M O e c ≡ r → Recorded r
  unfolding encrypt_with
  encrypt_with-Recorded c r sends h = subst Recorded h (
    sends.none_empty,
    λ user device is_one.
        holds-record_targets (O.message_index (O.encrypt_group_message c.session e.body).1)
          c.send_session_to c.data_of.currently user device sends.sorted
        ∙ ground (arith, is_one),
  )

  encrypt_group_message-Recorded :
      (st : Store M O) (r : Encrypted M O)
      → AllHave e.members
      → encrypt_group_message M O e st ≡ some r
      → Recorded r
  unfolding encrypt_group_message
  encrypt_group_message-Recorded st r have h = elim (Option-cases (reuse M O e st)) [
    | inr (c, reused) ↦
        encrypt_with-Recorded c r (reuse-Sends st c have reused)
          (some-injective (sym (rw reused refl) ∙ h))
    | inl new ↦ elim (Option-cases (create M O e st)) [
      | inl refused ↦ absurd (ground (arith, new, refused, h))
      | inr (c, made) ↦
          encrypt_with-Recorded c r (create-Sends st c have made)
            (some-injective (sym (rw (new, made) refl) ∙ h))
    ]
  ]

  holder-verified :
      (users : List String) (db : Trusted) (st : Store M O) (r : Encrypted M O)
      (user device : String)
      → e.members ≡ verified_members o users db
      → IsFresh o db
      → StoreIsKept M O e st
      → encrypt_group_message M O e st ≡ some r
      → holds user device r.data_of.currently ≡ true
      → (k : Option UserKeyCache) × (d : DeviceKeys) × (lookup user e.members ≡ some k)
        × (lookup device (devices_of k) ≡ some d)
        × (is_verified_device (current_status o user db) device d ≡ true)
  holder-verified users db st r user device are fresh kept h held =
      let sound = get_members_with_keys-Sound o db users (nobody o db) (nobody-Sound db fresh) in
      let reads =
        encrypt_group_message-readers M O e st r user device (rw are sound.sorted) kept h in
      let there : has_device user device e.members ≡ true = ground (arith, reads, held) in
      let (k, d, listed, at) = has_device-lists user device e.members there in
      (
        k,
        d,
        listed,
        at,
        sound.all_verified user device k d (sym (ap (lookup user) are) ∙ listed) at,
      )

  -- Where only verified members are asked for, what is remembered of them is what would be computed, and
  -- the holders of the stored session are in order and not this device: when a message was encrypted, each
  -- device that is recorded to have its session, and each device of another user that the loops over the
  -- targets send its key to (by the users' keys in `cached`), is one of a member, and by the verification
  -- status of that member a verified one. It says nothing of the devices of the own user that the key is
  -- sent to, since an empty list names them all, and of devices that a query of keys finds.
  pub encrypt_group_message-only_verified :
      (users : List String) (db : Trusted) (st : Store M O) (r : Encrypted M O) (our_curve : String)
      (cached : Map UserKeyCache) (user device : String)
      → e.members ≡ verified_members o users db
      → IsFresh o db
      → StoreIsKept M O e st
      → encrypt_group_message M O e st ≡ some r
      → (holds user device r.data_of.currently ≡ true)
        ⊎ ((str_eq user e.own_user_id ≡ false)
            × (gets_key M O our_curve cached user device r ≡ true))
      → (k : Option UserKeyCache) × (d : DeviceKeys) × (lookup user e.members ≡ some k)
        × (lookup device (devices_of k) ≡ some d)
        × (is_verified_device (current_status o user db) device d ≡ true)
  encrypt_group_message-only_verified users db st r our_curve cached user device are fresh kept h
        (inl held) =
      holder-verified users db st r user device are fresh kept h held
  encrypt_group_message-only_verified users db st r our_curve cached user device are fresh kept h
        (inr (other, sent)) =
      let have = get_members_with_keys-AllHave o users (nobody o db) tt in
      let recorded = encrypt_group_message-Recorded st r (subst AllHave (sym are) have) h in
      holder-verified users db st r user device are fresh kept h (
        recorded.1 user device (
          recipients-are_targets our_curve cached r.send_session_to user device
            (λ l at. recorded.0 user l other at) sent))

  -- Where only verified members are asked for, what is remembered of them is what would be computed, and
  -- the holders of the stored session are in order and not this device: when a message was encrypted, and
  -- its key is sent by the same stored keys of users, no user but the own one is asked for its keys.
  pub encrypt_group_message-not_queried :
      (users : List String) (db : Trusted) (st : Store M O) (r : Encrypted M O) (user : String)
      → e.members ≡ verified_members o users db
      → IsFresh o db
      → StoreIsKept M O e st
      → encrypt_group_message M O e st ≡ some r
      → str_eq user e.own_user_id ≡ false
      → is_queried db.keys user r.send_session_to ≡ false
  encrypt_group_message-not_queried users db st r user are fresh kept h other =
      let have = get_members_with_keys-AllHave o users (nobody o db) tt in
      let recorded = encrypt_group_message-Recorded st r (subst AllHave (sym are) have) h in
      let known =
        get_members_with_keys-AllKnown db.keys o users (nobody o db) refl
          (λ user id k d i at. absurd (none≢some i)) in
      known-not_queried db.keys user r.send_session_to (λ l at. (
        recorded.0 user l other at,
        λ id i.
            let (k, d, listed, there, _) =
              holder-verified users db st r user id are fresh kept h
                (recorded.1 user id (ground (arith, at, i))) in
            known user id k d (sym (ap (lookup user) are) ∙ listed) there,
      ))
