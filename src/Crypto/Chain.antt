-- ===== src/Crypto/Chain.antt =====
-- `Cache::verificationStatus_`: the signatures behind a verified user and a trusted device.
use nheko_library.Base.{
  ◌≡◌, ◌≢◌, refl, ◌∙◌, sym, String, [], ◌∷◌, Option, none, some, true, if◌then◌else◌, arith, eq_iff,
  Bool-cases, Option-cases, inl, inr,
}
use nheko_library.Base.StdMap.{Map, lookup}
use nheko_library.Crypto.Keys.{Trust, unverified, verified, DeviceKeys, UserKeyCache}
use nheko_library.Crypto.DeviceList.{Verifies}
use nheko_library.Crypto.Status.{
  VerificationStatus, VerificationCache, Own, key_id, signatures_by, at_least_one, trust_device,
  trust_devices, owns_master_key, verifies_master_key, trust_of, with_devices, with_trust,
  compute_status,
}

-- One of the signatures is by one of the keys.
pub data Signed (verifies : Verifies) (json : String) (keys : Map String)
    : Map String → Type 0 where
  first :
      (id sig key : String) (sigs : Map String)
      → lookup id keys ≡ some key
      → verifies key json sig ≡ true
      → Signed verifies json keys ((id, sig) ∷ sigs)
  later :
      (entry : String × String) (sigs : Map String)
      → Signed verifies json keys sigs
      → Signed verifies json keys (entry ∷ sigs)

at_least_one-Signed :
    (verifies : Verifies) (json : String) (keys sigs : Map String)
    → at_least_one verifies json keys sigs ≡ true
    → Signed verifies json keys sigs
at_least_one-Signed verifies json keys [] h = absurd (ground arith)
at_least_one-Signed verifies json keys ((id, sig) ∷ sigs) h = elim (Option-cases (lookup id keys)) [
  | inl missing ↦
      later (id, sig) sigs
        (at_least_one-Signed verifies json keys sigs (ground (arith, missing, h)))
  | inr (key, at) ↦ elim (Bool-cases (verifies key json sig)) [
    | inl good ↦ first id sig key sigs at good
    | inr bad ↦
        later (id, sig) sigs
          (at_least_one-Signed verifies json keys sigs (ground (arith, at, bad, h)))
  ]
]

module _ (o : Own) where
  -- From this device to the master key of a user: this device has signed the own master key, that the own
  -- user-signing key, and that their master key.
  pub record Chain (ours theirs : UserKeyCache) : Type 0 where
    pub sig : String
    pub has_sig :
        lookup
          (key_id "ed25519:" o.device_id)
          (signatures_by o.local_user ours.master_keys.signatures)
        ≡ some sig
    pub own_master : o.verifies o.ed25519 ours.master_keys.json sig ≡ true
    pub user_signing :
        Signed o.verifies ours.user_signing_keys.json ours.master_keys.keys
          (signatures_by o.local_user ours.user_signing_keys.signatures)
    pub their_master :
        Signed o.verifies theirs.master_keys.json ours.user_signing_keys.keys
          (signatures_by o.local_user theirs.master_keys.signatures)

  Chain-of :
      (ours theirs : UserKeyCache)
      → owns_master_key o ours ≡ true
      → verifies_master_key o ours theirs ≡ true
      → Chain ours theirs
  Chain-of ours theirs own chain =
      elim (Option-cases (
        lookup (key_id "ed25519:" o.device_id)
          (signatures_by o.local_user ours.master_keys.signatures))) [
            | inl missing ↦ absurd (ground (arith, missing, own))
            | inr (sig, at) ↦ record {
              sig = sig;
              has_sig = at;
              own_master = ground (arith, at, own);
              user_signing = at_least_one-Signed o.verifies _ _ _ (ground (arith, chain));
              their_master = at_least_one-Signed o.verifies _ _ _ (ground (arith, chain));
            }
          ]

  trust_devices-user :
      (user : String) (t : Trust) (ssk : Map String) (ds : Map DeviceKeys) (s : VerificationStatus)
      → (trust_devices o.verifies user t ssk ds s).user_verified ≡ s.user_verified
  trust_devices-user user t ssk [] s = refl
  trust_devices-user user t ssk ((_, d) ∷ ds) s =
      trust_devices-user user t ssk ds (trust_device o.verifies user t ssk d s) ∙ ground arith

  with_devices-user :
      (user : String) (ours theirs : UserKeyCache) (t : Trust) (s : VerificationStatus)
      → (with_devices o user ours theirs t s).user_verified ≡ s.user_verified
  with_devices-user user ours theirs t s =
      ground (arith, trust_devices-user user t theirs.self_signing_keys.keys theirs.device_keys s)

  -- A trust that is found is the user's.
  abbrev pub trust_or : Option Trust → Trust
  trust_or none = unverified
  trust_or (some t) = t

  with_trust-user :
      (user : String) (ours theirs : UserKeyCache) (t : Option Trust) (s : VerificationStatus)
      → s.user_verified ≡ unverified
      → (with_trust o user ours theirs t s).user_verified ≡ trust_or t
  with_trust-user user ours theirs none s h = h
  with_trust-user user ours theirs (some t) s h =
      with_devices-user user ours theirs t (record s { user_verified = t })

  pub compute_status-user :
      (user : String) (ours theirs : UserKeyCache) (v : Option VerificationCache)
      → (compute_status o user (some ours) (some theirs) v).user_verified
        ≡ (if owns_master_key o ours then trust_or (trust_of o user ours theirs) else unverified)
  unfolding compute_status
  compute_status-user user ours theirs v = elim (Bool-cases (owns_master_key o ours)) [
    | inl own ↦ rw own (with_trust-user user ours theirs (trust_of o user ours theirs) _ refl)
    | inr not_own ↦ rw not_own refl
  ]

  own_and_chain :
      (user : String) (ours theirs : UserKeyCache)
      → (user ≢ o.local_user)
      → (if owns_master_key o ours then trust_or (trust_of o user ours theirs) else unverified)
        ≡ verified
      → (owns_master_key o ours ≡ true) × (verifies_master_key o ours theirs ≡ true)
  own_and_chain user ours theirs other h = ground (arith, eq_iff user o.local_user)

  -- Another user is verified only by the whole chain of signatures, with both entries there.
  pub compute_status-Chain :
      (user : String) (ours theirs : Option UserKeyCache) (v : Option VerificationCache)
      → (user ≢ o.local_user)
      → (compute_status o user ours theirs v).user_verified ≡ verified
      → (k : UserKeyCache) × (t : UserKeyCache) × (ours ≡ some k) × (theirs ≡ some t) × Chain k t
  unfolding compute_status
  compute_status-Chain user ours none v other h = absurd (ground arith)
  compute_status-Chain user none (some t) v other h = absurd (ground arith)
  compute_status-Chain user (some k) (some t) v other h =
      let (own, chain) = own_and_chain user k t other (sym (compute_status-user user k t v) ∙ h) in
      (k, t, refl, refl, Chain-of k t own chain)
