-- ===== src/Verification/InRange.antt =====
-- The keys that the check of a mac message reads are keys of the message.
use nheko_library.Base.{
  String, [], ◌∷◌, ◌≡◌, refl, sym, ◌∙◌, ◌≢◌, Option, none, some, true, arith, eq_iff, eq_refl,
}
use nheko_library.Base.StdMap.{Map, lookup, has, has-insert, has-lookup}
use nheko_library.Verification.Message
use nheko_library.Verification.Message.{Header, SasMethod}
use nheko_library.Verification.Env.{Env, SigningKeys, UserKeys}
use nheko_library.Verification.Flow.{Flow}
use nheko_library.Verification.Mac.{
  out_of_range, known_keys, known_key, device_key, put_found, take_key, mac_entries,
  key_verification_mac, check_macs,
}
use nheko_library.Verification.Incoming.{expected_mac}

-- Every key of one map is a key of another.
record Within (bound list : Map String) : Type 0 where
  holds : (id : String) → has id list ≡ true → has id bound ≡ true

-- A lookup in a message that holds every key cannot throw.
check_macs-total :
    (ours theirs : Map String) → Within theirs ours → check_macs ours theirs ≢ out_of_range
unfolding check_macs
check_macs-total [] theirs h e = cc
check_macs-total ((id, m) ∷ ours) theirs h e =
    let tail = check_macs-total ours theirs (record { holds = λ j p. h.holds j (ground arith) }) in
    let found = has-lookup id theirs (h.holds id (rw eq_refl)) in ground (arith, tail, found)

module _ (bound : Map String) where
  put_found-Within :
      (id : String) (key : Option String) (list : Map String)
      → has id bound ≡ true
      → Within bound list
      → Within bound (put_found id key list)
  put_found-Within id none list b h = h
  put_found-Within id (some k) list b h = record {
    holds = λ j p. ground (arith, has-insert id j k list, eq_iff id j, h.holds j);
  }

  device_key-Within :
      (id : String) (ds : Map SigningKeys) (list : Map String)
      → has id bound ≡ true
      → Within bound list
      → Within bound (device_key id ds list)
  unfolding device_key take_key
  device_key-Within id [] list b h = h
  device_key-Within id ((_, d) ∷ ds) list b h =
      device_key-Within id ds _ b (put_found-Within id (lookup id d.keys) list b h)

  known_key-Within :
      (k : UserKeys) (id : String) (list : Map String)
      → has id bound ≡ true
      → Within bound list
      → Within bound (known_key k id list)
  unfolding known_key take_key
  known_key-Within k id list b h = put_found-Within id (lookup id k.self_signing_keys.keys) _ b (
      put_found-Within id (lookup id k.user_signing_keys.keys) _ b (
        put_found-Within id (lookup id k.master_keys.keys) _ b
          (device_key-Within id k.device_keys list b h)))

  known_keys-Within :
      (k : UserKeys) (macs list : Map String)
      → Within bound macs
      → Within bound list
      → Within bound (known_keys k macs list)
  unfolding known_keys
  known_keys-Within k [] list m h = h
  known_keys-Within k ((id, _) ∷ macs) list m h =
      known_keys-Within k macs (known_key k id list)
        (record { holds = λ j p. m.holds j (ground arith) })
        (known_key-Within k id list (m.holds id (rw eq_refl)) h)

has-mac_entries :
    (calculate : String → String → String) (info : String) (keys : Map String) (id : String)
    → has id (mac_entries calculate info keys) ≡ has id keys
unfolding mac_entries
has-mac_entries calculate info [] id = refl
has-mac_entries calculate info ((j, k) ∷ keys) id = rw (has-mac_entries calculate info keys id)

-- The check of a received mac message never reads a key that the message does not hold, so `at`
-- does not throw, whatever the message and our keys of the other user are.
pub expected_mac-in_range :
    (env : Env) (f : Flow) (m : Message.KeyMac)
    → check_macs (expected_mac env f m).mac m.mac ≢ out_of_range
unfolding expected_mac key_verification_mac
expected_mac-in_range env f m =
    check_macs-total _ m.mac
      (record { holds = λ id p. known.holds id (sym (has-mac_entries _ _ _ id) ∙ p) })
  where
    known : Within m.mac (known_keys f.their_keys m.mac [])
    known =
        known_keys-Within m.mac f.their_keys m.mac [] (record { holds = λ j q. q })
          (record { holds = λ j q. absurd (ground arith) })
