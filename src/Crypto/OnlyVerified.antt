-- ===== src/Crypto/OnlyVerified.antt =====
-- `Cache::getMembersWithKeys` with `onlyShareKeysWithVerifiedUsers`: a room session is had by verified
-- devices only.
use mathlib.Core.Path.{subst}
use nheko_library.Base.{
  ◌≡◌, refl, ◌∙◌, sym, ap, String, List, [], ◌∷◌, Option, some, Bool, true, false, ◌||◌,
  if◌then◌else◌, str_eq, eq_iff, Bool-cases, Option-cases, inl, inr, some-injective,
}
use nheko_library.Base.Sorted.{IsSorted, insert-IsSorted}
use nheko_library.Base.StdMap.{Map, lookup, insert-cases}
use nheko_library.Crypto.Keys.{DeviceKeys, UserKeyCache}
use nheko_library.Crypto.Status.{
  VerificationStatus, Own, Trusted, compute_status, current_status, verification_status,
}
use nheko_library.Crypto.FreshStatus.{IsFresh, known-unchanged, new-remembered, asked-IsFresh}
use nheko_library.Crypto.Sharing.{Members, devices_of}
use nheko_library.Crypto.StillMembers.{none≢some}
use nheko_library.Crypto.RoomMembers.{
  is_verified, has_any, is_verified_device, copy_verified, put_devices, put_verified, Gathered,
  gather_member, get_members_with_keys,
}

copy_verified-only :
    (s : VerificationStatus) (ds : Map DeviceKeys) (id : String) (d : DeviceKeys)
    → lookup id (copy_verified s ds) ≡ some d
    → is_verified_device s id d ≡ true
copy_verified-only s [] id d h = absurd (none≢some h)
copy_verified-only s ((j, e) ∷ ds) id d h = elim (Bool-cases (is_verified_device s j e)) [
  | inr other ↦ copy_verified-only s ds id d (rw other at h)
  | inl good ↦ elim (Bool-cases (str_eq j id)) [
    | inl here ↦
        subst (λ i. is_verified_device s i d ≡ true) ((eq_iff j id).0 here)
          (subst (λ x. is_verified_device s j x ≡ true) (some-injective (rw (good, here) at h))
            good)
    | inr differs ↦ copy_verified-only s ds id d (rw (good, differs) at h)
  ]
]

if-either {ℓ ℓ'} :
    {A : Type ℓ} (b : Bool) (P : A → Type ℓ') (x y : A) → P x → P y → P (if b then x else y)
if-either true P x y p q = p
if-either false P x y p q = q

module _ (o : Own) (start : Trusted) where
  -- All devices of the members are verified ones.
  abbrev pub AllVerified : Members → Type 0
  AllVerified ms =
      (user id : String) (k : Option UserKeyCache) (d : DeviceKeys)
      → lookup user ms ≡ some k
      → lookup id (devices_of k) ≡ some d
      → is_verified_device (current_status o user start) id d ≡ true

  -- Only what is remembered may have changed.
  pub record Sound (g : Gathered o) : Type 0 where
    pub same_keys : g.db.keys ≡ start.keys
    pub same_by_hand : g.db.verified_by_hand ≡ start.verified_by_hand
    pub fresh : IsFresh o g.db
    pub sorted : IsSorted g.members
    pub all_verified : AllVerified g.members

  put_devices-AllVerified :
      (user : String) (k : UserKeyCache) (ds : Map DeviceKeys) (ms : Members)
      → ((id : String) (d : DeviceKeys)
          → lookup id ds ≡ some d
          → is_verified_device (current_status o user start) id d ≡ true)
      → AllVerified ms
      → AllVerified (put_devices user k ds ms)
  put_devices-AllVerified user k [] ms good all other id c d h at = all other id c d h at
  put_devices-AllVerified user k (e ∷ ds) ms good all other id c d h at =
      elim (insert-cases user other (some (record k { device_keys = e ∷ ds })) c ms h) [
        | inr there ↦ all other id c d there at
        | inl (here, is) ↦
            subst (λ u. is_verified_device (current_status o u start) id d ≡ true) here
              (good id d (subst (λ m. lookup id (devices_of m) ≡ some d) (sym is) at))
      ]

  put_devices-IsSorted :
      (user : String) (k : UserKeyCache) (ds : Map DeviceKeys) (ms : Members)
      → IsSorted ms
      → IsSorted (put_devices user k ds ms)
  put_devices-IsSorted user k [] ms sorted = sorted
  put_devices-IsSorted user k (e ∷ ds) ms sorted = insert-IsSorted user _ ms sorted

  -- A property of members that both outcomes of the test have.
  pub put_verified-cases :
      (P : Members → Type 0) (user : String) (k : UserKeyCache) (s : VerificationStatus)
      (ms : Members)
      → P ms
      → P (put_devices user k (copy_verified s k.device_keys) ms)
      → P (put_verified user k s ms)
  put_verified-cases P user k s ms as_before put =
      if-either (is_verified (some s.user_verified) || has_any s.verified_devices) P _ _ put
        as_before

  put_verified-AllVerified :
      (user : String) (k : UserKeyCache) (s : VerificationStatus) (ms : Members)
      → s ≡ current_status o user start
      → AllVerified ms
      → AllVerified (put_verified user k s ms)
  put_verified-AllVerified user k s ms is all = put_verified-cases AllVerified user k s ms all (
      put_devices-AllVerified user k (copy_verified s k.device_keys) ms
        (λ id d h.
          subst (λ x. is_verified_device x id d ≡ true) is
            (copy_verified-only s k.device_keys id d h))
        all)

  asked-status :
      (user : String) (db : Trusted)
      → IsFresh o db
      → (verification_status o user db).1 ≡ current_status o user db
  unfolding verification_status
  asked-status user db fresh = elim (Option-cases (lookup user db.status)) [
    | inl new ↦ rw (verification_status, new) refl
    | inr (s, known) ↦ rw (verification_status, known) (fresh user s known)
  ]

  same-status :
      (user : String) (db : Trusted)
      → db.keys ≡ start.keys
      → db.verified_by_hand ≡ start.verified_by_hand
      → current_status o user db ≡ current_status o user start
  same-status user db same same' =
      ap
        (λ k.
          compute_status o user (lookup o.local_user k) (lookup user k)
            (lookup user db.verified_by_hand))
        same
      ∙ ap
          (λ v.
            compute_status o user (lookup o.local_user start.keys) (lookup user start.keys)
              (lookup user v))
          same'

  pub asked-keeps :
      (user : String) (db : Trusted)
      → ((verification_status o user db).0.keys ≡ db.keys)
        × ((verification_status o user db).0.verified_by_hand ≡ db.verified_by_hand)
  asked-keeps user db = elim (Option-cases (lookup user db.status)) [
    | inl new ↦ (
      ap (λ x. x.keys) (new-remembered o user db new),
      ap (λ x. x.verified_by_hand) (new-remembered o user db new),
    )
    | inr (s, known) ↦ (
      ap (λ x. x.keys) (known-unchanged o user s db known),
      ap (λ x. x.verified_by_hand) (known-unchanged o user s db known),
    )
  ]

  gathered-Sound :
      (user : String) (k : UserKeyCache) (g : Gathered o)
      → Sound g
      → Sound (record {
        db = (verification_status o user g.db).0;
        members = put_verified user k ((verification_status o user g.db).1) g.members;
      })
  gathered-Sound user k g sound =
      let (keeps, keeps') = asked-keeps user g.db in
      record {
        same_keys = keeps ∙ sound.same_keys;
        same_by_hand = keeps' ∙ sound.same_by_hand;
        fresh = asked-IsFresh o user g.db sound.fresh;
        sorted =
            put_verified-cases IsSorted user k ((verification_status o user g.db).1) g.members
              sound.sorted (put_devices-IsSorted user k _ g.members sound.sorted);
        all_verified =
            put_verified-AllVerified user k ((verification_status o user g.db).1) g.members
              (asked-status user g.db sound.fresh
                ∙ same-status user g.db sound.same_keys sound.same_by_hand)
              sound.all_verified;
      }

  gather_member-Sound :
      (user : String) (g : Gathered o) → Sound g → Sound (gather_member o true user g)
  unfolding gather_member
  gather_member-Sound user g sound = elim (Option-cases (lookup user g.db.keys)) [
    | inl missing ↦ rw (gather_member, missing) sound
    | inr (k, there) ↦ rw (gather_member, there) (gathered-Sound user k g sound)
  ]

  pub get_members_with_keys-Sound :
      (users : List String) (g : Gathered o)
      → Sound g
      → Sound (get_members_with_keys o true users g)
  unfolding get_members_with_keys
  get_members_with_keys-Sound [] g sound = sound
  get_members_with_keys-Sound (user ∷ users) g sound =
      get_members_with_keys-Sound users (gather_member o true user g)
        (gather_member-Sound user g sound)
