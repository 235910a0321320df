-- ===== src/Verification/RightMacs.antt =====
-- `KeyVerificationMac`: which mac messages are accepted, stated with the keys of the other user and the
-- library's MAC function alone.
use Prim.{tt}
use nheko_library.Base.{
  String, [], ◌∷◌, ◌≡◌, refl, sym, ap, ◌∙◌, ◌⊎◌, inl, inr, Option, none, some, Bool, true, false,
  arith, Bool-cases, eq_iff, eq_refl, concat, some-injective, str_eq,
}
use nheko_library.Base.StdMap.{lookup, has, has-lookup, lookup-has}
use nheko_library.Verification.Message
use nheko_library.Verification.Message.{Header}
use nheko_library.Verification.Env.{Env}
use nheko_library.Verification.Flow.{Flow, key_mismatch, failed, cancel_verification}
use nheko_library.Verification.Mac.{
  known_keys, mac_info, join_ids, key_verification_mac, check_macs, MacCheck, all_match, mismatch,
  out_of_range,
}
use nheko_library.Verification.Incoming.{names_other, expected_mac, handle_mac}
use nheko_library.Verification.Exchange.{mac_accepted-done}
use nheko_library.Verification.InRange.{expected_mac-in_range}
use nheko_library.Verification.Endings.{is_active, cancel_verification-outcome}
use nheko_library.Verification.KnownKeys.{
  over, Stands, key_of, lookup-known_keys, known_keys-IsSorted, check_macs-Stands,
  Stands-check_macs,
}

-- The text that a MAC of the other user is bound to, before the id of the key.
abbrev pub their_info : Env → Flow → String
their_info env f = mac_info f.to_client f.device_id env.user_id env.device_id f.transaction_id

-- Each MAC under the id of a key that is known of the other user is the MAC of that key, and the MAC of
-- the key ids is that of the ids of these keys. A MAC under any other id may be anything.
pub record MacsAreRight (env : Env) (f : Flow) (m : Message.KeyMac) : Type 0 where
  of_keys :
      (id mac key : String)
      → lookup id m.mac ≡ some mac
      → key_of f.their_keys id ≡ some key
      → mac ≡ env.calculate_mac f.their_key key (concat (their_info env f ∷ id ∷ []))
  of_ids :
      m.keys
      ≡ env.calculate_mac f.their_key
          (join_ids (known_keys f.their_keys m.mac []))
          (concat (their_info env f ∷ "KEY_IDS" ∷ []))

check_cases : (c : MacCheck) → (c ≡ all_match) ⊎ ((c ≡ mismatch) ⊎ (c ≡ out_of_range))
check_cases all_match = inl refl
check_cases mismatch = inr (inl refl)
check_cases out_of_range = inr (inr refl)

over-some :
    (o : Option String) (same : Bool) (key : String)
    → over o same none ≡ some key
    → (same ≡ true) × (o ≡ some key)
over-some none same key e = absurd (ground arith)
over-some (some k) true key e = (refl, e)
over-some (some k) false key e = absurd (ground arith)

-- A message that is not right, in a flow that goes on and in one that has ended.
left :
    (f : Flow)
    → ((cancel_verification key_mismatch f).is_mac_verified ≡ f.is_mac_verified)
      × (((is_active f ≡ true)
            × ((cancel_verification key_mismatch f).state ≡ failed)
            × ((cancel_verification key_mismatch f).error ≡ key_mismatch))
          ⊎ ((is_active f ≡ false) × (cancel_verification key_mismatch f ≡ f)))
left f =
    let (stops, stays, same) = cancel_verification-outcome key_mismatch f in
    (
      same,
      elim (Bool-cases (is_active f)) [
        | inl on ↦ inl (on, (stops on).0, (stops on).1)
        | inr ended ↦ inr (ended, stays ended)
      ],
    )

module _ (env : Env) (f : Flow) (m : Message.KeyMac) where
  abbrev AllStand : Type 0
  AllStand =
      Stands (env.calculate_mac f.their_key) (their_info env f) (known_keys f.their_keys m.mac [])
        m.mac

  known :
      (id mac key : String)
      → lookup id m.mac ≡ some mac
      → key_of f.their_keys id ≡ some key
      → lookup id (known_keys f.their_keys m.mac []) ≡ some key
  known id mac key at k =
      lookup-known_keys f.their_keys m.mac [] id ∙ ground (arith, lookup-has id mac m.mac at, k)

  all_match-MacsAreRight :
      check_macs (expected_mac env f m).mac m.mac ≡ all_match
      → m.keys ≡ (expected_mac env f m).keys
      → MacsAreRight env f m
  unfolding expected_mac key_verification_mac
  all_match-MacsAreRight c k = record {
    of_keys = λ id mac key at o. some-injective (
        sym at
        ∙ check_macs-Stands _ _ m.mac (known_keys f.their_keys m.mac []) c id key
            (known id mac key at o));
    of_ids = k;
  }

  MacsAreRight-AllStand : MacsAreRight env f m → AllStand
  MacsAreRight-AllStand r id key at =
      let (named, is_known) = key_found id key at in
      let (mac, here) = has-lookup id m.mac named in
      here ∙ ap some (r.of_keys id mac key here is_known)
    where
      key_found :
          (id key : String)
          → lookup id (known_keys f.their_keys m.mac []) ≡ some key
          → (has id m.mac ≡ true) × (key_of f.their_keys id ≡ some key)
      key_found id key at =
          over-some (key_of f.their_keys id) (has id m.mac) key
            (sym (lookup-known_keys f.their_keys m.mac [] id) ∙ at)

  MacsAreRight-all_match :
      MacsAreRight env f m
      → (check_macs (expected_mac env f m).mac m.mac ≡ all_match)
        × (m.keys ≡ (expected_mac env f m).keys)
  unfolding expected_mac key_verification_mac
  MacsAreRight-all_match r = (
    Stands-check_macs _ _ m.mac (known_keys f.their_keys m.mac [])
        (known_keys-IsSorted f.their_keys m.mac [] tt) (MacsAreRight-AllStand r),
    r.of_ids,
  )

-- A mac message for this flow verifies the keys exactly when its MACs are right; any other makes a flow
-- that is still going fail by `KeyMismatch`, leaves an ended one alone, and leaves the keys as
-- unverified as they were. A MAC under an id for which no key of the other user is known is not compared
-- with anything, so it may be wrong.
pub handle_mac-exact :
    (env : Env) (h : Header) (m : Message.KeyMac) (f : Flow)
    → names_other env h f ≡ false
    → let g = handle_mac env h m f in
      (MacsAreRight env f m × (g.is_mac_verified ≡ true))
      ⊎ ((¬ MacsAreRight env f m)
          × (g.is_mac_verified ≡ f.is_mac_verified)
          × (((is_active f ≡ true) × (g.state ≡ failed) × (g.error ≡ key_mismatch))
              ⊎ ((is_active f ≡ false) × (g ≡ f))))
unfolding handle_mac
handle_mac-exact env h m f n = elim (check_cases (check_macs (expected_mac env f m).mac m.mac)) [
  | inl same ↦ elim (Bool-cases (str_eq m.keys (expected_mac env f m).keys)) [
    | inl ids ↦ inl (
      all_match-MacsAreRight env f m same ((eq_iff m.keys (expected_mac env f m).keys).0 ids),
      rw (n, same, ids) (mac_accepted-done env m f).0,
    )
    | inr other ↦ inr (
      (λ r. absurd (ground (arith, MacsAreRight-all_match env f m r, eq_refl m.keys, other))),
      rw (n, same, other) (left f).0,
      rw (n, same, other) (left f).1,
    )
  ]
  | inr (inl wrong) ↦ inr (
    (λ r. absurd (ground (arith, MacsAreRight-all_match env f m r, wrong))),
    rw (n, wrong) (left f).0,
    rw (n, wrong) (left f).1,
  )
  | inr (inr outside) ↦ absurd (expected_mac-in_range env f m outside)
]
