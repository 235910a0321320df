-- ===== src/Verification/Env.antt =====
-- What DeviceVerificationFlow.cpp uses of code outside the repository: the HTTP client's identity,
-- the SAS object and the other cryptography of mtxclient, JSON, and the secrets in the cache.
-- None of it is defined here: it is a parameter of the flow.
use nheko_library.Base.{ℕ, String, List, Option}
use nheko_library.Base.StdMap.{Map}
use nheko_library.Verification.Message.{Relation, Message}

-- `mtx::crypto::CrossSigningKeys` and `mtx::crypto::DeviceKeys`: the map from key ids to keys.
pub record SigningKeys : Type 0 where
  pub keys : Map String

-- `UserKeyCache`
pub record UserKeys : Type 0 where
  pub device_keys : Map SigningKeys
  pub master_keys : SigningKeys
  pub user_signing_keys : SigningKeys
  pub self_signing_keys : SigningKeys

pub record Env : Type 0 where
  -- http::client()->user_id(), device_id(); utils::localUser() is the user id, too.
  pub user_id : String
  pub device_id : String
  -- olm::client()->identity_keys().ed25519 and sign_message
  pub ed25519 : String
  pub sign_message : String → String
  -- The SAS object. What is computed after `set_their_key` takes the other side's key.
  pub public_key : String
  pub emoji_bytes : Option String → String → List ℕ
  pub decimal_bytes : Option String → String → List ℕ
  pub calculate_mac : Option String → (key info : String) → String
  -- bin2base64_unpadded(sha256(s))
  pub sha256 : String → String
  -- `relations.references()`
  pub references : List Relation → Option String
  -- nlohmann::json(msg).dump()
  pub dump : Message → String
  -- The JSON of a user's key or a device's keys without `signatures` and `unsigned`.
  pub dump_keys : SigningKeys → String
  -- cache::secret of the two cross-signing keys, and PkSigning::from_seed
  pub self_signing_secret : Option String
  pub user_signing_secret : Option String
  pub pk_public_key : (seed : String) → String
  pub pk_sign : (seed text : String) → String
  -- QDateTime::currentDateTimeUtc().toMSecsSinceEpoch()
  pub current_ms : ℕ
