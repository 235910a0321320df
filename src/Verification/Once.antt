-- ===== src/Verification/Once.antt =====
-- Messages of the handshake are sent at most once in the life of a flow, whatever arrives.
use nheko_library.Base.{
  ℕ, ◌≤◌, List, [], ◌∷◌, Bool, true, false, arith, count_if, String, inl, inr, Bool-cases,
}
use nheko_library.Verification.Message
use nheko_library.Verification.Message.{Header, Content, start, accept, key, mac}
use nheko_library.Verification.Env.{Env}
use nheko_library.Verification.Flow.{
  Flow, Error, user, Effect, send_to_device, send_room_message, set_state, send,
  cancel_verification, cancel_content,
}
use nheko_library.Verification.Outgoing.{
  accept_verification_request, start_message, start_verification_request, send_verification_key,
  accept_device, send_verification_done, send_verification_mac, send_verification_request,
  send_verification_ready, next_in, next, unverify,
}
use nheko_library.Verification.Incoming.{
  accept_unless_prompt, resolve_glare, fail_as_user, start_accepted, handle_start, handle_accept,
  handle_cancel, show_sas, key_received, handle_key, mac_accepted, handle_mac, choose_device,
  handle_ready, handle_done, handle_timeout, set_event_id, handle_their_keys, handle_our_keys,
}
use nheko_library.Verification.Machine.{
  Origin, check_methods, in_room, requested, started, by_user, by_device, create, new_flow,
  new_in_room_verification, new_to_device_verification, new_started_verification,
  initiate_user_verification, initiate_device_verification, Event, user_next, user_cancel,
  user_unverify, timed_out, got_start, got_accept, got_cancel, got_done, got_key, got_mac,
  got_ready, got_event_id, got_their_keys, got_our_keys, step, run,
}

pub data Kind : Type 0 where
  start_kind accept_kind key_kind mac_kind : Kind

-- The effect sends a message of the kind.
abbrev of_kind : Kind → Content → Bool
of_kind start_kind (start s) = true
of_kind accept_kind (accept a) = true
of_kind key_kind (key k) = true
of_kind mac_kind (mac m) = true
of_kind _ _ = false

abbrev pub sends : Kind → Effect → Bool
sends k (send_to_device u ds m) = of_kind k m.content
sends k (send_room_message m) = of_kind k m.content
sends k _ = false

-- The flag by which the flow remembers that it has sent one.
abbrev pub flag : Kind → Flow → Bool
flag start_kind f = f.start_sent
flag accept_kind f = f.accept_sent
flag key_kind f = f.key_sent
flag mac_kind f = f.mac_sent

abbrev bit : Bool → ℕ
bit true = 1
bit false = 0

abbrev pub Once : Kind → Flow → Type 0
Once k f = count_if (sends k) f.log ≤ bit (flag k f)

-- The methods that send, each from a flow that has sent at most one so far.
module _ (k : Kind) where
  cancel_verification-Once : (e : Error) (f : Flow) → Once k f → Once k (cancel_verification e f)
  unfolding cancel_verification set_state send cancel_content
  cancel_verification-Once e f h = ground arith

  fail_as_user-Once : (f : Flow) → Once k f → Once k (fail_as_user f)
  unfolding fail_as_user set_state
  fail_as_user-Once f h = ground arith

  module _ (env : Env) where
    accept_verification_request-Once :
        (f : Flow) → Once k f → Once k (accept_verification_request env f)
    unfolding accept_verification_request set_state send
    accept_verification_request-Once f h = ground arith

    start_verification_request-Once :
        (f : Flow) → Once k f → Once k (start_verification_request env f)
    unfolding start_verification_request start_message set_state send
    start_verification_request-Once f h = ground arith

    send_verification_key-Once : (f : Flow) → Once k f → Once k (send_verification_key env f)
    unfolding send_verification_key send
    send_verification_key-Once f h = ground arith

    accept_device-Once : (f : Flow) → Once k f → Once k (accept_device env f)
    unfolding accept_device send_verification_done set_state send
    accept_device-Once f h = ground arith

    send_verification_mac-Once : (f : Flow) → Once k f → Once k (send_verification_mac env f)
    unfolding send_verification_mac
    send_verification_mac-Once f h = elim (Bool-cases f.mac_sent) [
      | inl sent ↦ simp sent h
      | inr fresh ↦ simp fresh (accept_device-Once _ (unfold set_state send in ground arith))
    ]

    next-Once : (f : Flow) → Once k f → Once k (next env f)
    unfolding next next_in send_verification_request send_verification_ready set_state send
    next-Once f h = ground (arith, accept_verification_request-Once f, send_verification_mac-Once f)

    accept_unless_prompt-Once : (f : Flow) → Once k f → Once k (accept_unless_prompt env f)
    unfolding accept_unless_prompt
    accept_unless_prompt-Once f h = grind (arith, accept_verification_request-Once)

    resolve_glare-Once : (json : String) (f : Flow) → Once k f → Once k (resolve_glare env json f)
    unfolding resolve_glare
    resolve_glare-Once json f h = ground arith

    start_accepted-Once :
        (hd : Header) (s : Message.Start) (f : Flow) → Once k f → Once k (start_accepted env hd s f)
    unfolding start_accepted
    start_accepted-Once hd s f h =
        grind (arith, accept_unless_prompt-Once, resolve_glare-Once, cancel_verification-Once)

    handle_start-Once :
        (hd : Header) (s : Message.Start) (f : Flow) → Once k f → Once k (handle_start env hd s f)
    unfolding handle_start
    handle_start-Once hd s f h = grind (arith, start_accepted-Once, cancel_verification-Once)

    handle_accept-Once :
        (hd : Header) (a : Message.Accept) (f : Flow) → Once k f → Once k (handle_accept env hd a f)
    unfolding handle_accept
    handle_accept-Once hd a f h =
        grind (arith, send_verification_key-Once, cancel_verification-Once)

    handle_cancel-Once : (hd : Header) (f : Flow) → Once k f → Once k (handle_cancel env hd f)
    unfolding handle_cancel
    handle_cancel-Once hd f h = ground (arith, fail_as_user-Once f)

    show_sas-Once : (info : String) (f : Flow) → Once k f → Once k (show_sas env info f)
    unfolding show_sas set_state
    show_sas-Once info f h = ground arith

    handle_key-Once :
        (hd : Header) (x : String) (f : Flow) → Once k f → Once k (handle_key env hd x f)
    unfolding handle_key key_received
    handle_key-Once hd x f h =
        grind (arith, show_sas-Once, send_verification_key-Once, cancel_verification-Once)

    mac_accepted-Once : (m : Message.KeyMac) (f : Flow) → Once k f → Once k (mac_accepted env m f)
    unfolding mac_accepted
    mac_accepted-Once m f h = accept_device-Once _ (ground arith)

    handle_mac-Once :
        (hd : Header) (m : Message.KeyMac) (f : Flow) → Once k f → Once k (handle_mac env hd m f)
    unfolding handle_mac
    handle_mac-Once hd m f h = grind (arith, mac_accepted-Once, cancel_verification-Once)

    choose_device-Once : (from : String) (f : Flow) → Once k f → Once k (choose_device env from f)
    unfolding choose_device
    choose_device-Once from f h = ground arith

    handle_ready-Once :
        (hd : Header) (r : Message.Ready) (f : Flow) → Once k f → Once k (handle_ready env hd r f)
    unfolding handle_ready
    handle_ready-Once hd r f h =
        grind (arith, start_verification_request-Once, choose_device-Once, fail_as_user-Once)

    step-Once : (e : Event) (f : Flow) → Once k f → Once k (step env e f)
    unfolding step handle_timeout set_event_id handle_their_keys handle_our_keys unverify
        handle_done
    step-Once user_next f h = next-Once f h
    step-Once user_cancel f h = cancel_verification-Once user f h
    step-Once user_unverify f h = ground arith
    step-Once timed_out f h = grind (arith, cancel_verification-Once)
    step-Once (got_start hd s) f h = handle_start-Once hd s f h
    step-Once (got_accept hd a) f h = handle_accept-Once hd a f h
    step-Once (got_cancel hd) f h = handle_cancel-Once hd f h
    step-Once (got_done hd) f h = h
    step-Once (got_key hd x) f h = handle_key-Once hd x f h
    step-Once (got_mac hd m) f h = handle_mac-Once hd m f h
    step-Once (got_ready hd r) f h = handle_ready-Once hd r f h
    step-Once (got_event_id id) f h = ground arith
    step-Once (got_their_keys x) f h = ground arith
    step-Once (got_our_keys x verified) f h = ground arith

    run-Once : (es : List Event) (f : Flow) → Once k f → Once k (run env es f)
    unfolding run
    run-Once [] f h = h
    run-Once (e ∷ es) f h = run-Once es (step env e f) (step-Once e f h)

    check_methods-Once : (r : Message.Request) (f : Flow) → Once k f → Once k (check_methods r f)
    check_methods-Once r f h = grind (arith, cancel_verification-Once)

    create-Once : (o : Origin) → Once k (create env o)
    unfolding create new_flow new_in_room_verification new_to_device_verification
        new_started_verification initiate_user_verification initiate_device_verification
        set_event_id
    create-Once (in_room m r u e) = check_methods-Once r _ (omega arith)
    create-Once (requested r u t) = check_methods-Once r _ (omega arith)
    create-Once (started hd s u t) = handle_start-Once hd s _ (omega arith)
    create-Once (by_user m u) = omega arith
    create-Once (by_device u ds t) = omega arith

-- However a flow was made and whatever events reach it, in any order, it sends at most one start,
-- at most one accept, at most one key and at most one mac message.
pub run-create-sends_once :
    (env : Env) (k : Kind) (o : Origin) (es : List Event)
    → count_if (sends k) (run env es (create env o)).log ≤ 1
run-create-sends_once env k o es =
    ground (arith, run-Once k env es (create env o) (create-Once k env o))
