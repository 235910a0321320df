-- ===== src/Crypto/Pinned.antt =====
-- `Cache::updateUserKeys`: a device id that was seen keeps its keys.
use nheko_library.Base.{
  ◌≡◌, refl, ◌∙◌, sym, String, List, [], ◌∷◌, Option, none, some, Bool, true, false, not, ◌&&◌,
  str_eq, contains, if◌then◌else◌, Bool-cases, inl, inr, arith, eq_iff,
}
use nheko_library.Base.StdMap.{Map, lookup, has, insert, lookup-insert}
use nheko_library.Crypto.Keys.{DeviceKeys, UserKeyCache, add, same_keys}
use nheko_library.Crypto.DeviceList.{
  replace_keys, Verifies, is_reused, is_self_signed, see, put_device, is_same, update_device,
  update_devices, update_entry,
}

-- The id was seen, and the device that is listed under it, if there is one, has these keys.
abbrev pub Lists : String → Map String → Map DeviceKeys → Type 0
Lists id keys ds = (d : DeviceKeys) → lookup id ds ≡ some d → d.keys ≡ keys

abbrev pub IsPinned : String → Map String → UserKeyCache → Type 0
IsPinned id keys c = (contains id c.seen_device_ids ≡ true) × Lists id keys c.device_keys

pub same_keys→≡ : (m n : Map String) → same_keys m n ≡ true → m ≡ n
same_keys→≡ [] [] h = refl
same_keys→≡ [] (_ ∷ _) h = ground arith
same_keys→≡ (_ ∷ _) [] h = ground arith
same_keys→≡ ((i, k) ∷ m) ((j, l) ∷ n) h = ground (arith, eq_iff i j, eq_iff k l, same_keys→≡ m n)

contains-add : (s t : String) (l : List String) → contains s l ≡ true → contains s (add t l) ≡ true
contains-add s t l h = ground arith

Lists-insert :
    (id j : String) (keys : Map String) (d : DeviceKeys) (ds : Map DeviceKeys)
    → Lists id keys ds
    → (j ≡ id → d.keys ≡ keys)
    → Lists id keys (insert j d ds)
Lists-insert id j keys d ds lists put e at_id =
    ground (arith, eq_iff j id, lookup-insert j id d ds, lists e, put)

-- The keys of a device that is listed again are those of before.
pub is_same-keys :
    (o : Option DeviceKeys) (d : DeviceKeys)
    → is_same o d ≡ true
    → (e : DeviceKeys) × (o ≡ some e) × (e.keys ≡ d.keys)
is_same-keys none d h = ground arith
is_same-keys (some e) d h = (e, refl, same_keys→≡ e.keys d.keys h)

if-none-some {ℓ} : {A : Type ℓ} (b : Bool) (a x : A) → (if b then none else some a) ≡ some x → a ≡ x
if-none-some true a x h = ground arith
if-none-some false a x h = ground arith

-- The ways a device of an update is taken: listed again, new, only seen, or left out.
pub data Takes (verifies : Verifies) (user : String) (old : Map DeviceKeys) (id : String)
    (d : DeviceKeys) (c : UserKeyCache) : UserKeyCache → Type 0 where
  again :
      is_same (lookup id old) d ≡ true
      → Takes verifies user old id d c (see id d (put_device id d c))
  new_device :
      is_reused id d.keys c ≡ false
      → has id old ≡ false
      → is_self_signed verifies user id d ≡ true
      → Takes verifies user old id d c (see id d (put_device id d c))
  only_seen : Takes verifies user old id d c (see id d c)
  left_out : Takes verifies user old id d c c

is_reused-none :
    (id : String) (ks : Map String) (c : UserKeyCache)
    → contains id c.seen_device_ids ≡ true
    → is_reused id ks c ≡ false
    → ks ≡ []
is_reused-none id [] c seen fresh = refl
is_reused-none id (_ ∷ _) c seen fresh = ground arith

module _ (verifies : Verifies) (user : String) where
  pub update_device-Takes :
      (old : Map DeviceKeys) (id : String) (d : DeviceKeys) (c : UserKeyCache)
      → Takes verifies user old id d c (update_device verifies user old id d c)
  unfolding update_device
  update_device-Takes old id d c = elim (Bool-cases (is_same (lookup id old) d)) [
    | inl same ↦ rw same (again same)
    | inr other ↦ elim (Bool-cases (not (is_reused id d.keys c) && not (has id old))) [
      | inr old ↦ rw (other, old) only_seen
      | inl new ↦ elim (Bool-cases (is_self_signed verifies user id d)) [
        | inr unsigned ↦ rw (other, new, unsigned) left_out
        | inl self ↦ rw (other, new, self) (new_device (ground arith) (ground arith) self)
      ]
    ]
  ]

  -- A device whose id was seen is not taken over as a new one.
  not-new :
      (id : String) (d : DeviceKeys) (c : UserKeyCache)
      → contains id c.seen_device_ids ≡ true
      → is_reused id d.keys c ≡ false
      → is_self_signed verifies user id d ≡ true
      → ⊥
  not-new id d c seen fresh self = ground (arith, is_reused-none id d.keys c seen fresh)

  module _ (id : String) (keys : Map String) (old : Map DeviceKeys) (was : Lists id keys old) where
    Takes-IsPinned :
        (j : String) (d : DeviceKeys) (c c' : UserKeyCache)
        → Takes verifies user old j d c c'
        → IsPinned id keys c
        → IsPinned id keys c'
    Takes-IsPinned j d c _ (again same) (seen, lists) = (
      contains-add id j _ seen,
      (let (o, at, e) = is_same-keys (lookup j old) d same in
          Lists-insert id j keys d c.device_keys lists (λ k. sym e ∙ was o (rw (sym k) at))),
    )
    Takes-IsPinned j d c _ (new_device fresh _ self) (seen, lists) = (
      contains-add id j _ seen,
      Lists-insert id j keys d c.device_keys lists
          (λ e. absurd (not-new j d c (rw e seen) fresh self)),
    )
    Takes-IsPinned j d c _ only_seen (seen, lists) = (contains-add id j _ seen, lists)
    Takes-IsPinned j d c _ left_out pinned = pinned

    update_devices-IsPinned :
        (ds : Map DeviceKeys) (c : UserKeyCache)
        → IsPinned id keys c
        → IsPinned id keys (update_devices verifies user old ds c)
    unfolding update_devices
    update_devices-IsPinned [] c pinned = pinned
    update_devices-IsPinned ((j, d) ∷ ds) c pinned =
        update_devices-IsPinned ds (update_device verifies user old j d c)
          (Takes-IsPinned j d c _ (update_device-Takes old j d c) pinned)

  -- What is stored, where an update is.
  pub update_entry-stored :
      (token : String) (update old c : UserKeyCache)
      → update_entry verifies user token update old ≡ some c
      → record (update_devices verifies user old.device_keys update.device_keys
          (replace_keys update old)) { updated_at = token }
        ≡ c
  unfolding update_entry
  update_entry-stored token update old c h =
      if-none-some (not (str_eq old.last_changed "") && not (str_eq old.last_changed token)) _ c h

  pub update_entry-IsPinned :
      (id : String) (keys : Map String) (token : String) (update old c : UserKeyCache)
      → IsPinned id keys old
      → update_entry verifies user token update old ≡ some c
      → IsPinned id keys c
  update_entry-IsPinned id keys token update old c (seen, lists) h =
      rw (sym (update_entry-stored token update old c h)) (
        update_devices-IsPinned id keys old.device_keys lists update.device_keys
          (replace_keys update old) (seen, nothing))
    where
      nothing : Lists id keys []
      nothing d h = ground arith
