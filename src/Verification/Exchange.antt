-- ===== src/Verification/Exchange.antt =====
-- What one honest end makes of the other's mac message.
use nheko_library.Base.{
  String, [], ◌∷◌, ◌≡◌, refl, inl, inr, true, false, arith, str_eq, eq_iff, eq_refl, concat,
  Bool-cases,
}
use nheko_library.Base.StdMap.{insert}
use nheko_library.Verification.Message
use nheko_library.Verification.Message.{Header, SasMethod}
use nheko_library.Verification.Env.{Env}
use nheko_library.Verification.Flow.{Flow, waiting_for_mac, success, set_state, send}
use nheko_library.Verification.Mac.{
  all_match, known_keys, mac_entries, key_verification_mac, check_macs,
}
use nheko_library.Verification.Outgoing.{own_keys, own_mac, accept_device, send_verification_done}
use nheko_library.Verification.Incoming.{names_other, expected_mac, mac_accepted, handle_mac}
use nheko_library.Verification.Confirmed.{accept_device-flags}
use nheko_library.Verification.Glare.{Ends}

one_mac-matches :
    (c : String → String → String) (i k v : String)
    → let macs = mac_entries c i ((k, v) ∷ []) in check_macs macs macs ≡ all_match
unfolding mac_entries check_macs
one_mac-matches c i k v = ground (arith, eq_refl k, eq_refl (c v (concat (i ∷ k ∷ []))))

-- Two keys at most, as `own_keys` has them.
two_macs-match :
    (c : String → String → String) (i k v l w : String)
    → let macs = mac_entries c i (insert l w ((k, v) ∷ [])) in check_macs macs macs ≡ all_match
unfolding mac_entries check_macs
two_macs-match c i k v l w = ground (
  arith,
  eq_refl k,
  eq_refl l,
  eq_iff k l,
  eq_iff l k,
  eq_refl (c v (concat (i ∷ k ∷ []))),
  eq_refl (c w (concat (i ∷ l ∷ []))),
)

own_mac-matches :
    (env : Env) (f : Flow) → check_macs (own_mac env f).mac (own_mac env f).mac ≡ all_match
unfolding own_mac own_keys key_verification_mac
own_mac-matches env f = elim (Bool-cases (str_eq f.our_trusted_master_key "")) [
  | inl none_trusted ↦ rw (none_trusted, own_keys) (one_mac-matches _ _ _ _)
  | inr trusted ↦ rw (trusted, own_keys) (two_macs-match _ _ _ _ _ _)
]

-- Two ends that talk about the same verification, and whose SAS objects hold each other's keys.
-- That both compute one MAC and one string is what the key agreement of the library is for.
pub record Shares (a b : Env) (f g : Flow) : Type 0 where
  pub ends : Ends a b f g
  pub transaction : f.transaction_id ≡ g.transaction_id
  pub macs : a.calculate_mac f.their_key ≡ b.calculate_mac g.their_key

expected-own :
    (a b : Env) (f g : Flow)
    → Shares a b f g
    → known_keys f.their_keys (own_mac b g).mac [] ≡ own_keys b g
    → expected_mac a f (own_mac b g) ≡ own_mac b g
unfolding expected_mac
expected-own a b f g s k =
    rw
      (
        k,
        s.macs,
        s.transaction,
        s.ends.other_of_f,
        s.ends.device_of_f,
        ← s.ends.other_of_g,
        ← s.ends.device_of_g,
      )
      (unfold own_mac in refl)

pub accept_device-done :
    (env : Env) (f : Flow)
    → f.is_mac_verified ≡ true
    → f.state ≡ waiting_for_mac
    → (accept_device env f).state ≡ success
unfolding accept_device send_verification_done set_state send
accept_device-done env f v w = ground arith

pub mac_accepted-done :
    (env : Env) (m : Message.KeyMac) (f : Flow)
    → ((mac_accepted env m f).is_mac_verified ≡ true)
      × (f.state ≡ waiting_for_mac → (mac_accepted env m f).state ≡ success)
unfolding mac_accepted
mac_accepted-done env m f =
    (grind (arith, accept_device-flags), λ w. accept_device-done env _ refl (ground arith))

-- The mac message that one end makes passes the other end's check, if that end knows the keys that
-- it is about: the flow there has its keys verified, and where its user had confirmed it succeeds.
pub handle_mac-own_mac :
    (a b : Env) (f g : Flow) (h : Header)
    → Shares a b f g
    → known_keys f.their_keys (own_mac b g).mac [] ≡ own_keys b g
    → names_other a h f ≡ false
    → ((handle_mac a h (own_mac b g) f).is_mac_verified ≡ true)
      × (f.state ≡ waiting_for_mac → (handle_mac a h (own_mac b g) f).state ≡ success)
unfolding handle_mac
handle_mac-own_mac a b f g h s k n = ground (
  arith,
  expected-own a b f g s k,
  own_mac-matches b g,
  eq_refl (own_mac b g).keys,
  mac_accepted-done a (own_mac b g) f,
)
