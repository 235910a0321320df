-- ===== src/Verification/Mac.antt =====
-- The MAC message: `key_verification_mac`, the keys that a received message vouches for, the check of
-- its MACs, and the signatures that are uploaded when the check succeeds.
use nheko_library.Base.{String, [], ◌∷◌, Option, none, some, Bool, str_eq, concat, if◌then◌else◌}
use nheko_library.Base.StdMap.{Map, lookup, insert}
use nheko_library.Verification.Message.{KeyMac}
use nheko_library.Verification.Env.{Env, SigningKeys, UserKeys}
use nheko_library.Verification.Flow.{Flow, Signed}

abbrev pub put_found : String → Option String → Map String → Map String
put_found id none list = list
put_found id (some key) list = insert id key list

-- `if (keys.count(id)) key_list[id] = keys.at(id)`
unfoldable pub take_key : String → Map String → Map String → Map String
take_key id keys list = put_found id (lookup id keys) list

-- The inner loop, over the devices of the other user.
unfoldable pub device_key : String → Map SigningKeys → Map String → Map String
device_key id [] list = list
device_key id ((_, d) ∷ ds) list = device_key id ds (take_key id d.keys list)

-- One round of the outer loop.
unfoldable pub known_key : UserKeys → String → Map String → Map String
known_key k id list =
    let list₁ = device_key id k.device_keys list in
    let list₂ = take_key id k.master_keys.keys list₁ in
    let list₃ = take_key id k.user_signing_keys.keys list₂ in
    take_key id k.self_signing_keys.keys list₃

-- `key_list`: the keys of the other user whose ids the message names.
unfoldable pub known_keys : UserKeys → Map String → Map String → Map String
known_keys k [] list = list
known_keys k ((id, _) ∷ macs) list = known_keys k macs (known_key k id list)

-- The loop of `key_verification_mac`: a MAC for each key.
unfoldable pub mac_entries : (String → String → String) → String → Map String → Map String
mac_entries calculate info [] = []
mac_entries calculate info ((id, key) ∷ keys) =
    (id, calculate key (concat (info ∷ id ∷ []))) ∷ mac_entries calculate info keys

-- `key_list` of `key_verification_mac`: the ids, with commas between them.
unfoldable pub join_ids : Map String → String
join_ids [] = ""
join_ids ((id, _) ∷ []) = id
join_ids ((id, _) ∷ e ∷ keys) = concat (id ∷ "," ∷ join_ids (e ∷ keys) ∷ [])

abbrev pub mac_info : (sender sender_device receiver receiver_device transaction : String) → String
mac_info s sd r rd t = concat ("MATRIX_KEY_VERIFICATION_MAC" ∷ s ∷ sd ∷ r ∷ rd ∷ t ∷ [])

unfoldable pub key_verification_mac :
    (String → String → String)
    → (sender sender_device receiver receiver_device transaction : String) → Map String
    → KeyMac
key_verification_mac calculate s sd r rd t keys =
    let info = mac_info s sd r rd t in
    record {
      mac = mac_entries calculate info keys;
      keys = calculate (join_ids keys) (concat (info ∷ "KEY_IDS" ∷ []));
    }

-- `for (key, mac : macs.mac) if (mac != msg.mac.at(key))`; `at` throws on a key that is not there.
pub data MacCheck : Type 0 where
  all_match mismatch out_of_range : MacCheck

unfoldable pub check_macs : Map String → Map String → MacCheck
check_macs [] theirs = all_match
check_macs ((id, m) ∷ ours) theirs =
    let rest = check_macs ours theirs in
    elim (lookup id theirs) [
      | none ↦ out_of_range
      | some m' ↦ if str_eq m m' then rest else mismatch
    ]

-- The object under its signature, and its place in the request: the user, and the key or device.
unfoldable pub sign_with : Env → String → String → SigningKeys → Signed
sign_with env seed key_text k = record {
  object = k;
  signer = env.user_id;
  signing_key = concat ("ed25519:" ∷ env.pk_public_key seed ∷ []);
  signature = env.pk_sign seed key_text;
}

-- The two loops over `msg.mac` that fill `req.signatures`: for our own user, and for another.
unfoldable pub self_signatures : Env → Flow → Map String → Map Signed → Map Signed
self_signatures env f [] req = req
self_signatures env f ((id, _) ∷ macs) req =
    self_signatures env f macs (elim (lookup id f.their_keys.master_keys.keys) [
      | some k ↦
          insert k
            (record {
              object = f.their_keys.master_keys;
              signer = env.user_id;
              signing_key = concat ("ed25519:" ∷ env.device_id ∷ []);
              signature = env.sign_message (env.dump_keys f.their_keys.master_keys);
            })
            req
      | none ↦
          if str_eq id (concat ("ed25519:" ∷ f.device_id ∷ []))
          then (elim (lookup f.device_id f.their_keys.device_keys) [
            | none ↦ req
            | some d ↦ elim env.self_signing_secret [
              | none ↦ req
              | some seed ↦ insert f.device_id (sign_with env seed (env.dump_keys d) d) req
            ]
          ])
          else req
    ])

unfoldable pub user_signatures : Env → Flow → Map String → Map Signed → Map Signed
user_signatures env f [] req = req
user_signatures env f ((id, _) ∷ macs) req =
    user_signatures env f macs (elim (lookup id f.their_keys.master_keys.keys) [
      | none ↦ req
      | some k ↦ elim env.user_signing_secret [
        | none ↦ req
        | some seed ↦
            insert k
              (sign_with env seed (env.dump_keys f.their_keys.master_keys) f.their_keys.master_keys)
              req
      ]
    ])

abbrev pub is_self : Env → Flow → Bool
is_self env f = str_eq env.user_id f.to_client

unfoldable pub signatures : Env → Flow → Map String → Map Signed
signatures env f macs =
    if is_self env f then self_signatures env f macs [] else user_signatures env f macs []
