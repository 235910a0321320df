-- ===== src/Verification/Endings.antt =====
-- How a flow ends: time-outs and messages out of order; and where an ended flow goes
-- on, and a check passes that checked nothing.
use nheko_library.Base.{
  ◌+◌, String, [], ◌∷◌, ◌≡◌, refl, ◌⊎◌, inl, inr, Bool, true, false, not, ◌&&◌, arith, Bool-cases,
  eq_refl, concat,
}
use nheko_library.Verification.Message
use nheko_library.Verification.Message.{Header}
use nheko_library.Verification.Env.{Env}
use nheko_library.Verification.Flow.{
  Flow, Error, timeout, out_of_order, waiting_for_keys, waiting_for_mac, success, failed, is_state,
  set_state, send, cancel_verification, cancel_content,
}
use nheko_library.Verification.Mac.{
  check_macs, signatures, known_keys, key_verification_mac, mac_entries, join_ids, self_signatures,
  user_signatures, is_self, mac_info,
}
use nheko_library.Verification.Outgoing.{
  accept_device, send_verification_done, accept_verification_request,
}
use nheko_library.Verification.Incoming.{
  names_other, awaits_key, handle_key, expected_mac, mac_accepted, handle_mac, handle_timeout,
  handle_start, start_accepted, accept_unless_prompt,
}
use nheko_library.Verification.Same.{marks}
use nheko_library.Verification.Exchange.{accept_device-done}
use nheko_library.Verification.Glare.{Offers}

-- Neither succeeded nor failed.
abbrev pub is_active : Flow → Bool
is_active f = not (is_state f.state success) && not (is_state f.state failed)

-- What `cancelVerification` leaves of a flow, in all states.
pub cancel_verification-outcome :
    (e : Error) (f : Flow)
    → (is_active f ≡ true
        → ((cancel_verification e f).state ≡ failed) × ((cancel_verification e f).error ≡ e))
      × (is_active f ≡ false → cancel_verification e f ≡ f)
      × ((cancel_verification e f).is_mac_verified ≡ f.is_mac_verified)
unfolding cancel_verification set_state send cancel_content
cancel_verification-outcome e f = ground arith

-- When its time is up a flow has ended, and one that was still going has failed by `Timeout`.
pub handle_timeout-ends :
    (f : Flow) → ((handle_timeout f).state ≡ success) ⊎ ((handle_timeout f).state ≡ failed)
unfolding handle_timeout
handle_timeout-ends f = ground (arith, cancel_verification-outcome timeout f)

-- A key that comes when none is due ends the flow by `OutOfOrder`, and is not given to the SAS object.
pub handle_key-out_of_order :
    (env : Env) (h : Header) (k : String) (f : Flow)
    → names_other env h f ≡ false
    → awaits_key env f ≡ false
    → is_active f ≡ true
    → ((handle_key env h k f).state ≡ failed)
      × ((handle_key env h k f).error ≡ out_of_order)
      × ((handle_key env h k f).their_key ≡ f.their_key)
unfolding handle_key cancel_verification set_state send cancel_content
handle_key-out_of_order env h k f n w a = ground arith

accept_device-marks :
    (env : Env) (f : Flow)
    → f.is_mac_verified ≡ true
    → f.state ≡ waiting_for_mac
    → marks (accept_device env f) ≡ marks f + 1
unfolding accept_device send_verification_done set_state send
accept_device-marks env f v w = ground arith

mac_accepted-no_macs :
    (env : Env) (keys : String) (f : Flow)
    → f.state ≡ waiting_for_mac
    → let g = mac_accepted env (record { mac = []; keys = keys }) f in
      (g.state ≡ success) × (marks g ≡ marks f + 1)
unfolding mac_accepted signatures self_signatures user_signatures
mac_accepted-no_macs env keys f w = elim (Bool-cases (is_self env f)) [
  | inl own ↦ rw own (accept_device-done env _ refl w, accept_device-marks env _ refl w)
  | inr other ↦ rw other (accept_device-done env _ refl w, accept_device-marks env _ refl w)
]

-- The other side can end its part with a mac message that names no key: a flow that waits for the
-- MACs marks the device as verified, though no key of that device has been checked.
pub handle_mac-no_keys :
    (env : Env) (h : Header) (f : Flow)
    → names_other env h f ≡ false
    → f.state ≡ waiting_for_mac
    → let keys = env.calculate_mac f.their_key "" (
        concat (
          mac_info f.to_client f.device_id env.user_id env.device_id f.transaction_id
          ∷ "KEY_IDS"
          ∷ [])) in
      let g = handle_mac env h (record { mac = []; keys = keys }) f in
      (g.state ≡ success) × (marks g ≡ marks f + 1)
unfolding handle_mac expected_mac known_keys key_verification_mac mac_entries join_ids check_macs
handle_mac-no_keys env h f n w =
    let keys = env.calculate_mac f.their_key "" (
      concat (
        mac_info f.to_client f.device_id env.user_id env.device_id f.transaction_id
        ∷ "KEY_IDS"
        ∷ [])) in
    rw (n, eq_refl keys) (mac_accepted-no_macs env keys f w)

-- A failed flow that has not sent `accept` is brought back by another `start` for it: it accepts, and
-- waits for keys again.
pub handle_start-revives :
    (env : Env) (h : Header) (s : Message.Start) (f : Flow)
    → f.state ≡ failed
    → (f.sender ≡ false) × (f.accept_sent ≡ false)
    → Offers env h s f
    → (handle_start env h s f).state ≡ waiting_for_keys
unfolding handle_start start_accepted accept_unless_prompt accept_verification_request set_state
    send
handle_start-revives env h s f e p o = ground arith
