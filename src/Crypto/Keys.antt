-- ===== src/Crypto/Keys.antt =====
-- CacheCryptoStructs.h: what is kept of users' keys. A `std::set` is a list without an order that counts.
use nheko_library.Base.{
  String, List, [], ◌∷◌, Bool, true, false, ◌&&◌, str_eq, contains, if◌then◌else◌,
}
use nheko_library.Base.StdMap.{Map}

pub data Trust : Type 0 where
  unverified tofu verified : Trust

-- The library's objects: `json` is what is signed, and the signatures are by user and key id.
pub record DeviceKeys : Type 0 where
  pub device_id : String
  pub keys : Map String
  pub signatures : Map (Map String)
  pub json : String

pub record CrossSigningKeys : Type 0 where
  pub keys : Map String
  pub signatures : Map (Map String)
  pub json : String

pub record UserKeyCache : Type 0 where
  pub device_keys : Map DeviceKeys
  pub master_keys : CrossSigningKeys
  pub user_signing_keys : CrossSigningKeys
  pub self_signing_keys : CrossSigningKeys
  pub updated_at : String
  pub last_changed : String
  pub master_key_changed : Bool
  pub seen_device_keys : List String
  pub seen_device_ids : List String

-- `insert` into a set.
abbrev pub add : String → List String → List String
add s l = if contains s l then l else s ∷ l

-- `==` of two maps of texts.
abbrev pub same_keys : Map String → Map String → Bool
same_keys [] [] = true
same_keys [] (_ ∷ _) = false
same_keys (_ ∷ _) [] = false
same_keys ((i, k) ∷ m) ((j, l) ∷ n) = str_eq i j && (str_eq k l && same_keys m n)

abbrev pub no_keys : CrossSigningKeys
no_keys = record { keys = []; signatures = []; json = "" }

-- `UserKeyCache{}`
abbrev pub no_cache : UserKeyCache
no_cache = record {
  device_keys = [];
  master_keys = no_keys;
  user_signing_keys = no_keys;
  self_signing_keys = no_keys;
  updated_at = "";
  last_changed = "";
  master_key_changed = false;
  seen_device_keys = [];
  seen_device_ids = [];
}
