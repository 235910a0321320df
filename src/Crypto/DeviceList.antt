-- ===== src/Crypto/DeviceList.antt =====
-- `Cache::updateUserKeys`: which devices of a user are taken over from the server.
use nheko_library.Base.{
  String, List, [], ◌∷◌, Option, none, some, Bool, true, false, not, ◌&&◌, ◌||◌, str_eq, contains,
  concat, if◌then◌else◌, ltb,
}
use nheko_library.Base.Text.{byte_size}
use nheko_library.Base.StdMap.{Map, lookup, has, insert}
use nheko_library.Crypto.Keys.{DeviceKeys, CrossSigningKeys, UserKeyCache, no_cache, add, same_keys}

-- `ed25519_verify_signature(key, json, signature)`, the library's.
abbrev pub Verifies : Type 0
Verifies = (key json signature : String) → Bool

-- Whether one of the keys, or the id of the device that has them, was seen before.
abbrev pub is_reused : (device_id : String) → Map String → UserKeyCache → Bool
is_reused id [] c = false
is_reused id ((_, key) ∷ ks) c =
    (contains key c.seen_device_keys || contains id c.seen_device_ids) || is_reused id ks c

abbrev pub signing_key : (device_id : String) → String
signing_key id = concat ("ed25519:" ∷ id ∷ [])

abbrev signature_of : (user_id : String) → DeviceKeys → Option String
signature_of user d = elim (lookup user d.signatures) [
  | none ↦ none
  | some sigs ↦ lookup (signing_key d.device_id) sigs
]

-- The device names itself, has both keys, and has signed this.
abbrev pub is_self_signed : Verifies → (user_id device_id : String) → DeviceKeys → Bool
is_self_signed verifies user id d = str_eq id d.device_id && elim (signature_of user d) [
  | none ↦ false
  | some sig ↦ elim (lookup (signing_key d.device_id) d.keys) [
    | none ↦ false
    | some key ↦ has (concat ("curve25519:" ∷ id ∷ [])) d.keys && verifies key d.json sig
  ]
]

abbrev pub see_keys : Map String → List String → List String
see_keys [] seen = seen
see_keys ((_, key) ∷ ks) seen = see_keys ks (add key seen)

abbrev pub see : (device_id : String) → DeviceKeys → UserKeyCache → UserKeyCache
see id d c = record c {
  seen_device_keys = see_keys d.keys c.seen_device_keys;
  seen_device_ids = add id c.seen_device_ids;
}

abbrev pub put_device : (device_id : String) → DeviceKeys → UserKeyCache → UserKeyCache
put_device id d c = record c { device_keys = insert id d c.device_keys }

abbrev pub is_same : Option DeviceKeys → DeviceKeys → Bool
is_same none d = false
is_same (some o) d = same_keys o.keys d.keys

-- The body of the loop over the devices; `old` are those of before.
unfoldable pub update_device :
    Verifies
    → (user_id : String) → (old : Map DeviceKeys) → (device_id : String) → DeviceKeys
    → UserKeyCache
    → UserKeyCache
update_device verifies user old id d c =
    if is_same (lookup id old) d
    then see id d (put_device id d c)
    else if not (is_reused id d.keys c) && not (has id old)
    then (if is_self_signed verifies user id d then see id d (put_device id d c) else c)
    else see id d c

unfoldable pub update_devices :
    Verifies
    → (user_id : String) → (old : Map DeviceKeys) → Map DeviceKeys
    → UserKeyCache
    → UserKeyCache
update_devices verifies user old [] c = c
update_devices verifies user old ((id, d) ∷ ds) c =
    update_devices verifies user old ds (update_device verifies user old id d c)

abbrev has_keys : Map String → Bool
has_keys [] = false
has_keys (_ ∷ _) = true

-- The old entry with the new cross-signing keys, and no devices yet.
abbrev pub replace_keys : (update old : UserKeyCache) → UserKeyCache
replace_keys u o = record o {
  master_key_changed =
      if has_keys o.master_keys.keys && not (same_keys u.master_keys.keys o.master_keys.keys)
      then true
      else o.master_key_changed;
  master_keys = u.master_keys;
  self_signing_keys = u.self_signing_keys;
  user_signing_keys = u.user_signing_keys;
  device_keys = [];
}

-- An update for an entry that there is. `none`: it is not stored.
unfoldable pub update_entry :
    Verifies → (user_id sync_token : String) → (update old : UserKeyCache) → Option UserKeyCache
update_entry verifies user token u o =
    if not (str_eq o.last_changed "") && not (str_eq o.last_changed token)
    then none
    else some
        (record (update_devices verifies user o.device_keys u.device_keys (replace_keys u o)) {
          updated_at = token;
        })

-- The entry of a user in the database after an update.
unfoldable pub update_user :
    Verifies → (user_id sync_token : String) → UserKeyCache → Map UserKeyCache → Map UserKeyCache
update_user verifies user token u db = elim (lookup user db) [
  | none ↦ insert user (record u { updated_at = token }) db
  | some o ↦ elim (update_entry verifies user token u o) [ none ↦ db | some c ↦ insert user c db ]
]

unfoldable pub update_users :
    Verifies → (sync_token : String) → Map UserKeyCache → Map UserKeyCache → Map UserKeyCache
update_users verifies token [] db = db
update_users verifies token ((user, u) ∷ us) db =
    update_users verifies token us (update_user verifies user token u db)

-- `responses::QueryKeys`
pub record QueryKeys : Type 0 where
  pub device_keys : Map (Map DeviceKeys)
  pub master_keys : Map CrossSigningKeys
  pub user_signing_keys : Map CrossSigningKeys
  pub self_signing_keys : Map CrossSigningKeys

abbrev or_none : Option UserKeyCache → UserKeyCache
or_none none = no_cache
or_none (some c) = c

-- `markUserKeysOutOfDate`: of the users that are not skipped, `true` if there are any to be asked for.
abbrev pub mark_user : (sync_token user_id : String) → Map UserKeyCache → Map UserKeyCache
mark_user token user db =
    if ltb 255 (byte_size user)
    then db
    else insert user (record (or_none (lookup user db)) { last_changed = token }) db

unfoldable pub mark_users_out_of_date :
    (sync_token : String) → List String → Map UserKeyCache → Map UserKeyCache
mark_users_out_of_date token [] db = db
mark_users_out_of_date token (user ∷ users) db =
    mark_users_out_of_date token users (mark_user token user db)

-- `for (const auto &[user, keys] : …) updates[user].… = keys`
abbrev gather :
    {V : Type 0} → (V → UserKeyCache → UserKeyCache) → Map V → Map UserKeyCache → Map UserKeyCache
gather put [] us = us
gather put ((user, v) ∷ m) us = gather put m (insert user (put v (or_none (lookup user us))) us)

unfoldable pub updates_of : QueryKeys → Map UserKeyCache
updates_of q =
    gather (λ ks u. record u { self_signing_keys = ks }) q.self_signing_keys
      (gather (λ ks u. record u { user_signing_keys = ks }) q.user_signing_keys
        (gather (λ ks u. record u { master_keys = ks }) q.master_keys
          (gather (λ ks u. record u { device_keys = ks }) q.device_keys [])))
