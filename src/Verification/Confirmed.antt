-- ===== src/Verification/Confirmed.antt =====
-- A device counts as verified only after the user compared the short strings and the MACs were right.
use nheko_library.Base.{
  ◌<◌, ◌⊎◌, not, ◌&&◌, str_eq, ◌≡◌, ◌≢◌, refl, List, [], ◌∷◌, Bool, true, false, arith, inl, inr,
  Bool-cases,
}
use nheko_library.Verification.Message
use nheko_library.Verification.Message.{Header, Content, start, accept, key, mac}
use nheko_library.Verification.Env.{Env}
use nheko_library.Verification.Flow.{
  Flow, State, prompt_start_verification, waiting_for_mac, success, compare_emoji, compare_number,
  user, timeout, key_mismatch, unknown_method, exception, emit, set_state, send,
  cancel_verification,
}
use nheko_library.Verification.Mac.{MacCheck, all_match, check_macs}
use nheko_library.Verification.Outgoing.{
  accept_device, send_verification_done, send_verification_mac, send_verification_request,
  send_verification_ready, next_in, next, unverify,
}
use nheko_library.Verification.Incoming.{
  names_other, expected_mac, handle_cancel, mac_accepted, handle_mac, handle_done, handle_timeout,
  set_event_id, handle_their_keys, handle_our_keys,
}
use nheko_library.Verification.Machine.{
  Origin, check_methods, in_room, requested, started, by_user, by_device, create, new_flow,
  new_in_room_verification, new_to_device_verification, new_started_verification,
  initiate_user_verification, initiate_device_verification, Event, user_next, user_cancel,
  user_unverify, timed_out, got_start, got_accept, got_cancel, got_done, got_key, got_mac,
  got_ready, got_event_id, got_their_keys, got_our_keys, step, run,
}
use nheko_library.Verification.Same.{
  marks, Same, cancel_verification-Same, fail_as_user-Same, accept_verification_request-Same,
  handle_start-Same, handle_accept-Same, handle_key-Same, handle_ready-Same,
}

-- The user says that the short strings agree.
abbrev pub compares : State → Bool
compares compare_emoji = true
compares compare_number = true
compares _ = false

abbrev pub Confirms : Flow → Event → Type 0
Confirms f e = (e ≡ user_next) × (compares f.state ≡ true)

abbrev is_all_match : MacCheck → Bool
is_all_match all_match = true
is_all_match _ = false

-- A mac message arrives whose every MAC is the one that our keys give.
abbrev pub right_mac : Env → Flow → Event → Bool
right_mac env f (got_mac hd m) =
    not (names_other env hd f)
    && is_all_match (check_macs (expected_mac env f m).mac m.mac)
    && str_eq m.keys (expected_mac env f m).keys
right_mac env f _ = false

-- Some event of a run has a property of it and of the flow that it reaches.
abbrev pub Occurs : Env → (Flow → Event → Type 0) → Flow → List Event → Type 0
Occurs env P f [] = ⊥
Occurs env P f (e ∷ es) = P f e ⊎ Occurs env P (step env e f) es

record Earned (f : Flow) : Type 0 where
  waiting : f.state ≡ waiting_for_mac → f.mac_sent ≡ true
  success : f.state ≡ success → (f.mac_sent ≡ true) × (f.is_mac_verified ≡ true)
  marked : 0 < marks f → (f.mac_sent ≡ true) × (f.is_mac_verified ≡ true)

Same-Earned : (f g : Flow) → Same f g → Earned f → Earned g
Same-Earned f g s h = ground arith

-- What a step may add: the mac is sent only when the user confirms, and is right only when it is checked.
record Grows (env : Env) (e : Event) (f g : Flow) : Type 0 where
  earned : Earned f → Earned g
  sent : g.mac_sent ≡ true → (f.mac_sent ≡ true) ⊎ Confirms f e
  checked : g.is_mac_verified ≡ true → (f.is_mac_verified ≡ true) ⊎ (right_mac env f e ≡ true)

Same-Grows : (env : Env) (e : Event) (f g : Flow) → Same f g → Grows env e f g
Same-Grows env e f g s = record {
  earned = Same-Earned f g s;
  sent = λ p. inl (ground arith);
  checked = λ p. inl (ground arith);
}

Same-refl : (f : Flow) → Same f f
Same-refl f = ground arith

accept_device-Earned :
    (env : Env) (f : Flow)
    → Earned f
    → (f.mac_sent ≡ true) ⊎ (f.is_mac_verified ≡ true)
    → Earned (accept_device env f)
unfolding accept_device send_verification_done set_state send
accept_device-Earned env f h p = ground arith

pub accept_device-flags :
    (env : Env) (f : Flow)
    → ((accept_device env f).mac_sent ≡ f.mac_sent)
      × ((accept_device env f).is_mac_verified ≡ f.is_mac_verified)
unfolding accept_device send_verification_done set_state send
accept_device-flags env f = ground arith

send_verification_mac-Earned :
    (env : Env) (f : Flow) → Earned f → Earned (send_verification_mac env f)
unfolding send_verification_mac
send_verification_mac-Earned env f h = elim (Bool-cases f.mac_sent) [
  | inl sent ↦ simp sent h
  | inr fresh ↦ simp fresh (
      accept_device-Earned env _ (unfold set_state send in ground arith)
        (unfold set_state send in ground arith))
]

send_verification_mac-Grows :
    (env : Env) (f : Flow)
    → compares f.state ≡ true
    → Grows env user_next f (send_verification_mac env f)
unfolding send_verification_mac set_state send
send_verification_mac-Grows env f c = record {
  earned = send_verification_mac-Earned env f;
  sent = λ p. inr (refl, c);
  checked = λ p. inl (grind (arith, accept_device-flags));
}

next_in-Grows :
    (env : Env) (s : State) (f : Flow) → f.state ≡ s → Grows env user_next f (next_in env s f)
unfolding next_in send_verification_request send_verification_ready set_state send
next_in-Grows env prompt_start_verification f e =
    Same-Grows env _ f _ (ground (arith, accept_verification_request-Same f env f (Same-refl f)))
next_in-Grows env compare_emoji f e = send_verification_mac-Grows env f (ground arith)
next_in-Grows env compare_number f e = send_verification_mac-Grows env f (ground arith)
next_in-Grows env _ f e = Same-Grows env _ f f (Same-refl f)

mac_accepted-Earned :
    (env : Env) (m : Message.KeyMac) (f : Flow) → Earned f → Earned (mac_accepted env m f)
unfolding mac_accepted
mac_accepted-Earned env m f h = accept_device-Earned env _ (ground arith) (inr refl)

mac_accepted-mac_sent :
    (env : Env) (m : Message.KeyMac) (f : Flow) → (mac_accepted env m f).mac_sent ≡ f.mac_sent
unfolding mac_accepted
mac_accepted-mac_sent env m f = grind (arith, accept_device-flags)

handle_mac-Grows :
    (env : Env) (hd : Header) (m : Message.KeyMac) (f : Flow)
    → Grows env (got_mac hd m) f (handle_mac env hd m f)
unfolding handle_mac
handle_mac-Grows env hd m f = record {
  earned = λ h. ground (
    arith,
    mac_accepted-Earned env m f,
    Same-Earned f (cancel_verification key_mismatch f) wrong,
    Same-Earned f (emit exception f) (ground arith),
  );
  sent = λ p. inl (ground (arith, mac_accepted-mac_sent env m f, wrong));
  checked = λ p. ground (arith, wrong);
}
  where
    wrong : Same f (cancel_verification key_mismatch f)
    wrong = cancel_verification-Same f key_mismatch f (Same-refl f)

step-Grows : (env : Env) (e : Event) (f : Flow) → Grows env e f (step env e f)
unfolding step next handle_timeout set_event_id handle_their_keys handle_our_keys unverify
    handle_done handle_cancel
step-Grows env user_next f = next_in-Grows env f.state f refl
step-Grows env (got_mac hd m) f = handle_mac-Grows env hd m f
step-Grows env user_cancel f =
    Same-Grows env _ f _ (cancel_verification-Same f user f (Same-refl f))
step-Grows env user_unverify f = Same-Grows env _ f _ (ground arith)
step-Grows env timed_out f =
    Same-Grows env _ f _ (ground (arith, cancel_verification-Same f timeout f (Same-refl f)))
step-Grows env (got_start hd s) f =
    Same-Grows env _ f _ (handle_start-Same f env hd s f (Same-refl f))
step-Grows env (got_accept hd a) f =
    Same-Grows env _ f _ (handle_accept-Same f env hd a f (Same-refl f))
step-Grows env (got_cancel hd) f =
    Same-Grows env _ f _ (ground (arith, fail_as_user-Same f f (Same-refl f)))
step-Grows env (got_done hd) f = Same-Grows env _ f _ (Same-refl f)
step-Grows env (got_key hd x) f = Same-Grows env _ f _ (handle_key-Same f env hd x f (Same-refl f))
step-Grows env (got_ready hd r) f =
    Same-Grows env _ f _ (handle_ready-Same f env hd r f (Same-refl f))
step-Grows env (got_event_id id) f = Same-Grows env _ f _ (ground arith)
step-Grows env (got_their_keys x) f = Same-Grows env _ f _ (ground arith)
step-Grows env (got_our_keys x verified) f = Same-Grows env _ f _ (ground arith)

run-Earned : (env : Env) (es : List Event) (f : Flow) → Earned f → Earned (run env es f)
unfolding run
run-Earned env [] f h = h
run-Earned env (e ∷ es) f h = run-Earned env es _ ((step-Grows env e f).earned h)

run-sent :
    (env : Env) (es : List Event) (f : Flow)
    → (run env es f).mac_sent ≡ true
    → (f.mac_sent ≡ true) ⊎ Occurs env Confirms f es
unfolding run
run-sent env [] f p = inl p
run-sent env (e ∷ es) f p = elim (run-sent env es (step env e f) p) [
  | inr later ↦ inr (inr later)
  | inl q ↦ elim ((step-Grows env e f).sent q) [ inl before ↦ inl before | inr now ↦ inr (inl now) ]
]

run-checked :
    (env : Env) (es : List Event) (f : Flow)
    → (run env es f).is_mac_verified ≡ true
    → (f.is_mac_verified ≡ true) ⊎ Occurs env (λ g e. right_mac env g e ≡ true) f es
unfolding run
run-checked env [] f p = inl p
run-checked env (e ∷ es) f p = elim (run-checked env es (step env e f) p) [
  | inr later ↦ inr (inr later)
  | inl q ↦ elim ((step-Grows env e f).checked q) [
    | inl before ↦ inl before
    | inr now ↦ inr (inl now)
  ]
]

-- What a new flow has.
record Fresh (f : Flow) : Type 0 where
  unsent : f.mac_sent ≡ false
  unchecked : f.is_mac_verified ≡ false
  unmarked : marks f ≡ 0
  not_waiting : f.state ≢ waiting_for_mac
  not_done : f.state ≢ success

Same-Fresh : (f g : Flow) → Fresh f → Same f g → Fresh g
Same-Fresh f g h s = ground arith

check_methods-Same : (r : Message.Request) (f : Flow) → Same f (check_methods r f)
check_methods-Same r f = ground (arith, cancel_verification-Same f unknown_method f (Same-refl f))

create-Fresh : (env : Env) (o : Origin) → Fresh (create env o)
unfolding create new_flow new_in_room_verification new_to_device_verification
    new_started_verification initiate_user_verification initiate_device_verification set_event_id
create-Fresh env (in_room m r u e) = Same-Fresh _ _ (ground arith) (check_methods-Same r _)
create-Fresh env (requested r u t) = Same-Fresh _ _ (ground arith) (check_methods-Same r _)
create-Fresh env (started hd s u t) =
    Same-Fresh _ _ (ground arith) (handle_start-Same _ env hd s _ (Same-refl _))
create-Fresh env (by_user m u) = ground arith
create-Fresh env (by_device u ds t) = ground arith

Fresh-Earned : (f : Flow) → Fresh f → Earned f
Fresh-Earned f h = ground arith

both_flags :
    (f : Flow)
    → Earned f
    → (0 < marks f) ⊎ (f.state ≡ success)
    → (f.mac_sent ≡ true) × (f.is_mac_verified ≡ true)
both_flags f h (inl m) = h.marked m
both_flags f h (inr s) = h.success s

not_before : {A : Type 0} (b : Bool) → b ≡ false → (b ≡ true) ⊎ A → A
not_before b n (inl p) = absurd (ground arith)
not_before b n (inr a) = a

-- A flow marks a device as verified, or ends in success, only if in its history the user confirmed
-- the short strings at a moment when they were shown, and a mac message came whose MACs were all
-- those that our keys of the other user give.
pub verified_needs_confirmation :
    (env : Env) (o : Origin) (es : List Event)
    → (0 < marks (run env es (create env o))) ⊎ ((run env es (create env o)).state ≡ success)
    → Occurs env Confirms (create env o) es
      × Occurs env (λ g e. right_mac env g e ≡ true) (create env o) es
verified_needs_confirmation env o es h =
    let fresh = create-Fresh env o in
    let earned = run-Earned env es _ (Fresh-Earned _ fresh) in
    let flags = both_flags _ earned h in
    (
      not_before _ fresh.unsent (run-sent env es _ flags.0),
      not_before _ fresh.unchecked (run-checked env es _ flags.1),
    )
