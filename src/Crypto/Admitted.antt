-- ===== src/Crypto/Admitted.antt =====
-- `Cache::updateUserKeys`: which devices a stored update lists.
use mathlib.Core.Path.{subst}
use nheko_library.Base.{
  ◌≡◌, ◌∙◌, String, List, [], ◌∷◌, some, true, false, ◌⊎◌, inl, inr, arith, contains, Option-cases,
  ap,
}
use nheko_library.Base.StdMap.{Map, lookup, has, insert-cases}
use nheko_library.Crypto.Keys.{DeviceKeys, UserKeyCache, add}
use nheko_library.Crypto.DeviceList.{
  Verifies, signing_key, is_reused, is_self_signed, see_keys, see, put_device, update_devices,
  update_entry, replace_keys,
}
use nheko_library.Crypto.Pinned.{
  Takes, again, new_device, only_seen, left_out, update_device-Takes, update_entry-stored,
  is_same-keys,
}

-- Neither the id nor a key of the device was seen.
abbrev pub IsFresh : String → DeviceKeys → UserKeyCache → Type 0
IsFresh id d c =
    (contains id c.seen_device_ids ≡ false)
    × ((k key : String) → lookup k d.keys ≡ some key → contains key c.seen_device_keys ≡ false)

-- The second entry has seen what the first one has.
abbrev Grows : UserKeyCache → UserKeyCache → Type 0
Grows c c' =
    ((s : String) → contains s c.seen_device_ids ≡ true → contains s c'.seen_device_ids ≡ true)
    × ((s : String) → contains s c.seen_device_keys ≡ true → contains s c'.seen_device_keys ≡ true)

see_keys-keeps :
    (ks : Map String) (s : String) (l : List String)
    → contains s l ≡ true
    → contains s (see_keys ks l) ≡ true
see_keys-keeps [] s l h = h
see_keys-keeps ((_, key) ∷ ks) s l h = see_keys-keeps ks s (add key l) (ground arith)

see-Grows :
    (id : String) (d : DeviceKeys) (c c' : UserKeyCache) → Grows c c' → Grows c (see id d c')
see-Grows id d c c' (ids, keys) =
    (λ s h. ground (arith, ids s h), λ s h. see_keys-keeps d.keys s _ (keys s h))

-- A device with keys that is not reused later was fresh before.
is_reused-key :
    (id k key : String) (ks : Map String) (c : UserKeyCache)
    → is_reused id ks c ≡ false
    → lookup k ks ≡ some key
    → (contains id c.seen_device_ids ≡ false) × (contains key c.seen_device_keys ≡ false)
is_reused-key id k key [] c fresh h = ground arith
is_reused-key id k key ((j, v) ∷ ks) c fresh h = ground (arith, is_reused-key id k key ks c)

Grows-not :
    (s : String) (l m : List String)
    → (contains s l ≡ true → contains s m ≡ true)
    → contains s m ≡ false
    → contains s l ≡ false
Grows-not s l m grows h = ground (arith, grows)

module _ (verifies : Verifies) (user : String) where
  -- A signed device has an identity key.
  is_self_signed-key :
      (id : String) (d : DeviceKeys)
      → is_self_signed verifies user id d ≡ true
      → (k : String) × (key : String) × (lookup k d.keys ≡ some key)
  is_self_signed-key id d h = elim (Option-cases (lookup (signing_key d.device_id) d.keys)) [
    | inl missing ↦ absurd (ground (arith, missing, h))
    | inr (key, at) ↦ (signing_key d.device_id, key, at)
  ]

  not_seen :
      (old : UserKeyCache) (id : String) (d : DeviceKeys) (c : UserKeyCache)
      → Grows old c
      → is_reused id d.keys c ≡ false
      → (k : String) × (key : String) × (lookup k d.keys ≡ some key)
      → IsFresh id d old
  not_seen old id d c (ids, keys) fresh (k, key, at) = (
    Grows-not id _ _ (ids id) (is_reused-key id k key d.keys c fresh at).0,
    λ j key h. Grows-not key _ _ (keys key) (is_reused-key id j key d.keys c fresh h).1,
  )

  module _ (old : UserKeyCache) where
    -- The device was listed with these keys, or it is new, fresh and has signed itself.
    abbrev pub IsAdmitted : String → DeviceKeys → Type 0
    IsAdmitted id d =
        ((o : DeviceKeys) × (lookup id old.device_keys ≡ some o) × (o.keys ≡ d.keys))
        ⊎ ((has id old.device_keys ≡ false)
            × (is_self_signed verifies user id d ≡ true)
            × IsFresh id d old)

    abbrev AllAdmitted : UserKeyCache → Type 0
    AllAdmitted c =
        (id : String) (d : DeviceKeys) → lookup id c.device_keys ≡ some d → IsAdmitted id d

    put_device-AllAdmitted :
        (id : String) (d : DeviceKeys) (c : UserKeyCache)
        → AllAdmitted c
        → IsAdmitted id d
        → AllAdmitted (put_device id d c)
    put_device-AllAdmitted id d c all is j e h = elim (insert-cases id j d e c.device_keys h) [
      | inl (p, q) ↦ subst (λ k. IsAdmitted k e) p (subst (IsAdmitted id) q is)
      | inr there ↦ all j e there
    ]

    Takes-AllAdmitted :
        (id : String) (d : DeviceKeys) (c c' : UserKeyCache)
        → Takes verifies user old.device_keys id d c c'
        → Grows old c
        → AllAdmitted c
        → AllAdmitted c'
    Takes-AllAdmitted id d c _ (again same) grows all =
        put_device-AllAdmitted id d c all (inl (is_same-keys (lookup id old.device_keys) d same))
    Takes-AllAdmitted id d c _ (new_device fresh absent self) grows all =
        put_device-AllAdmitted id d c all
          (inr (absent, self, not_seen old id d c grows fresh (is_self_signed-key id d self)))
    Takes-AllAdmitted id d c _ only_seen grows all = all
    Takes-AllAdmitted id d c _ left_out grows all = all

    Takes-Grows :
        (id : String) (d : DeviceKeys) (c c' : UserKeyCache)
        → Takes verifies user old.device_keys id d c c'
        → Grows old c
        → Grows old c'
    Takes-Grows id d c _ (again _) grows = see-Grows id d old (put_device id d c) grows
    Takes-Grows id d c _ (new_device _ _ _) grows = see-Grows id d old (put_device id d c) grows
    Takes-Grows id d c _ only_seen grows = see-Grows id d old c grows
    Takes-Grows id d c _ left_out grows = grows

    update_devices-AllAdmitted :
        (ds : Map DeviceKeys) (c : UserKeyCache)
        → Grows old c
        → AllAdmitted c
        → AllAdmitted (update_devices verifies user old.device_keys ds c)
    unfolding update_devices
    update_devices-AllAdmitted [] c grows all = all
    update_devices-AllAdmitted ((id, d) ∷ ds) c grows all =
        let takes = update_device-Takes verifies user old.device_keys id d c in
        update_devices-AllAdmitted ds _ (Takes-Grows id d c _ takes grows)
          (Takes-AllAdmitted id d c _ takes grows all)

  -- When an update is stored for a user that has an entry: a device that is listed was listed with the same
  -- keys before, or it was not listed, its id and its keys were never seen, and it has signed itself.
  pub update_entry-admits :
      (token : String) (update old c : UserKeyCache) (id : String) (d : DeviceKeys)
      → update_entry verifies user token update old ≡ some c
      → lookup id c.device_keys ≡ some d
      → IsAdmitted old id d
  update_entry-admits token update old c id d h at =
      update_devices-AllAdmitted old update.device_keys (replace_keys update old)
        (λ s i. i, λ s k. k) (λ j e i. absurd (ground arith)) id d
        (ap (λ x. lookup id x.device_keys) (update_entry-stored verifies user token update old c h)
          ∙ at)
