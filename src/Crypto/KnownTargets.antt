-- ===== src/Crypto/KnownTargets.antt =====
-- `olm::send_encrypted_to_device_messages` after `olm::encrypt_group_message`: whose keys need no query.
use mathlib.Core.Path.{subst}
use nheko_library.Base.{
  ◌≡◌, ◌≢◌, refl, ◌∙◌, sym, ap, String, List, [], ◌∷◌, Option, some, Bool, true, false, arith,
  Option-cases, Bool-cases, inl, inr, contains, not, eq_refl,
}
use nheko_library.Base.StdMap.{Map, lookup, has, insert-cases}
use nheko_library.Crypto.Keys.{DeviceKeys, UserKeyCache}
use nheko_library.Crypto.Status.{VerificationStatus, Own, verification_status}
use nheko_library.Crypto.Sharing.{Members, Targets, devices_of}
use nheko_library.Crypto.StillMembers.{none≢some}
use nheko_library.Crypto.RoomMembers.{
  is_verified_device, copy_verified, put_devices, Gathered, gather_member, get_members_with_keys,
}
use nheko_library.Crypto.OnlyVerified.{put_verified-cases, asked-keeps}
use nheko_library.Crypto.SendingKeys.{all_known, asks, is_queried}

copy_verified-has :
    (s : VerificationStatus) (ds : Map DeviceKeys) (id : String) (d : DeviceKeys)
    → lookup id (copy_verified s ds) ≡ some d
    → has id ds ≡ true
copy_verified-has s [] id d h = absurd (none≢some h)
copy_verified-has s ((j, e) ∷ ds) id d h = elim (Bool-cases (is_verified_device s j e)) [
  | inr other ↦ ground (arith, copy_verified-has s ds id d (rw other at h))
  | inl good ↦ ground (arith, h, good, copy_verified-has s ds id d)
]

module _ (keys : Map UserKeyCache) where
  abbrev is_known : (user device : String) → Bool
  is_known user device = has device (devices_of (lookup user keys))

  -- The devices of the members are devices of which keys are stored.
  abbrev pub AllKnown : Members → Type 0
  AllKnown ms =
      (user id : String) (k : Option UserKeyCache) (d : DeviceKeys)
      → lookup user ms ≡ some k
      → lookup id (devices_of k) ≡ some d
      → is_known user id ≡ true

  put_devices-AllKnown :
      (user : String) (k : UserKeyCache) (ds : Map DeviceKeys) (ms : Members)
      → ((id : String) (d : DeviceKeys) → lookup id ds ≡ some d → is_known user id ≡ true)
      → AllKnown ms
      → AllKnown (put_devices user k ds ms)
  put_devices-AllKnown user k [] ms good all other id c d h at = all other id c d h at
  put_devices-AllKnown user k (e ∷ ds) ms good all other id c d h at =
      elim (insert-cases user other (some (record k { device_keys = e ∷ ds })) c ms h) [
        | inr there ↦ all other id c d there at
        | inl (here, is) ↦
            subst (λ u. is_known u id ≡ true) here
              (good id d (subst (λ m. lookup id (devices_of m) ≡ some d) (sym is) at))
      ]

  gather_member-AllKnown :
      (o : Own) (user : String) (g : Gathered o)
      → g.db.keys ≡ keys
      → AllKnown g.members
      → ((gather_member o true user g).db.keys ≡ keys)
        × AllKnown (gather_member o true user g).members
  unfolding gather_member
  gather_member-AllKnown o user g same all = elim (Option-cases (lookup user g.db.keys)) [
    | inl missing ↦ (rw (gather_member, missing) same, rw (gather_member, missing) all)
    | inr (k, there) ↦
        let s = verification_status o user g.db in
        let stored : lookup user keys ≡ some k = ap (lookup user) (sym same) ∙ there in
        (
          rw (gather_member, there) ((asked-keeps o g.db user g.db).0 ∙ same),
          rw (gather_member, there)
              (put_verified-cases o g.db AllKnown user k s.1 g.members all (
                put_devices-AllKnown user k (copy_verified s.1 k.device_keys) g.members
                  (λ id d h. ground (arith, stored, copy_verified-has s.1 k.device_keys id d h))
                  all)),
        )
  ]

  pub get_members_with_keys-AllKnown :
      (o : Own) (users : List String) (g : Gathered o)
      → g.db.keys ≡ keys
      → AllKnown g.members
      → AllKnown (get_members_with_keys o true users g).members
  unfolding get_members_with_keys
  get_members_with_keys-AllKnown o [] g same all = all
  get_members_with_keys-AllKnown o (user ∷ users) g same all =
      let (same', all') = gather_member-AllKnown o user g same all in
      get_members_with_keys-AllKnown o users (gather_member o true user g) same' all'

  all-known :
      (known : Map DeviceKeys) (ids : List String)
      → ((id : String) → contains id ids ≡ true → has id known ≡ true)
      → all_known known ids ≡ true
  all-known known [] each = refl
  all-known known (id ∷ ids) each =
      let here = each id (rw (eq_refl id) refl) in
      let rest = all-known known ids (λ j h. each j (ground (arith, h))) in
      ground (arith, here, rest)

  -- A user each of whose targets has stored keys, and that has a target, is not asked for its keys.
  pub known-not_queried :
      (user : String) (t : Targets)
      → ((l : List String)
          → lookup user t ≡ some l
          → (l ≢ []) × ((id : String) → contains id l ≡ true → is_known user id ≡ true))
      → is_queried keys user t ≡ false
  known-not_queried user t each = elim (Option-cases (lookup user t)) [
    | inl missing ↦ ground (arith, missing)
    | inr (l, at) ↦ ground (arith, at, listed l (each l at).0 (each l at).1)
  ]
    where
      listed :
          (l : List String)
          → l ≢ []
          → ((id : String) → contains id l ≡ true → is_known user id ≡ true)
          → asks (lookup user keys) l ≡ false
      listed [] have known = absurd (have refl)
      listed (d ∷ ds) have known = elim (Option-cases (lookup user keys)) [
        | inl none_at ↦ absurd (ground (arith, none_at, known d (rw (eq_refl d) refl)))
        | inr (k, at) ↦
            rw at
              (ap not (all-known k.device_keys (d ∷ ds) (λ id h. ground (arith, at, known id h))))
      ]
