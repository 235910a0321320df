-- ===== src/Verification/Same.antt =====
-- What most steps of a flow leave as it was: the flags for the mac message and its check, the devices
-- marked as verified, and whether it waits for a mac message or has succeeded.
use nheko_library.Base.{ℕ, ◌≡◌, Bool, true, false, arith, count_if, String}
use nheko_library.Verification.Message
use nheko_library.Verification.Message.{Header, Content, start, accept, key, mac}
use nheko_library.Verification.Env.{Env}
use nheko_library.Verification.Flow.{
  Flow, waiting_for_mac, success, Error, Effect, mark_verified, set_state, send,
  cancel_verification, cancel_content,
}
use nheko_library.Verification.Outgoing.{
  accept_verification_request, start_message, start_verification_request, send_verification_key,
}
use nheko_library.Verification.Incoming.{
  accept_unless_prompt, resolve_glare, fail_as_user, start_accepted, handle_start, handle_accept,
  show_sas, key_received, handle_key, choose_device, handle_ready,
}

-- The effect marks a device as verified.
abbrev pub is_mark : Effect → Bool
is_mark (mark_verified u d) = true
is_mark _ = false

abbrev pub marks : Flow → ℕ
marks f = count_if is_mark f.log

-- `g` comes of `f` by a step that has no part in the verification itself.
pub record Same (f g : Flow) : Type 0 where
  pub mac_sent : g.mac_sent ≡ f.mac_sent
  pub verified : g.is_mac_verified ≡ f.is_mac_verified
  pub marks : marks g ≡ marks f
  pub waiting : g.state ≡ waiting_for_mac → f.state ≡ waiting_for_mac
  pub success : g.state ≡ success → f.state ≡ success

module _ (o : Flow) where
  pub cancel_verification-Same :
      (e : Error) (f : Flow) → Same o f → Same o (cancel_verification e f)
  unfolding cancel_verification set_state send cancel_content
  cancel_verification-Same e f h = ground arith

  pub fail_as_user-Same : (f : Flow) → Same o f → Same o (fail_as_user f)
  unfolding fail_as_user set_state
  fail_as_user-Same f h = ground arith

  module _ (env : Env) where
    pub accept_verification_request-Same :
        (f : Flow) → Same o f → Same o (accept_verification_request env f)
    unfolding accept_verification_request set_state send
    accept_verification_request-Same f h = ground arith

    pub start_verification_request-Same :
        (f : Flow) → Same o f → Same o (start_verification_request env f)
    unfolding start_verification_request start_message set_state send
    start_verification_request-Same f h = ground arith

    pub send_verification_key-Same : (f : Flow) → Same o f → Same o (send_verification_key env f)
    unfolding send_verification_key send
    send_verification_key-Same f h = ground arith

    pub accept_unless_prompt-Same : (f : Flow) → Same o f → Same o (accept_unless_prompt env f)
    unfolding accept_unless_prompt
    accept_unless_prompt-Same f h = grind (arith, accept_verification_request-Same)

    pub resolve_glare-Same :
        (json : String) (f : Flow) → Same o f → Same o (resolve_glare env json f)
    unfolding resolve_glare
    resolve_glare-Same json f h = ground arith

    pub start_accepted-Same :
        (hd : Header) (s : Message.Start) (f : Flow) → Same o f → Same o (start_accepted env hd s f)
    unfolding start_accepted
    start_accepted-Same hd s f h =
        grind (arith, accept_unless_prompt-Same, resolve_glare-Same, cancel_verification-Same)

    pub handle_start-Same :
        (hd : Header) (s : Message.Start) (f : Flow) → Same o f → Same o (handle_start env hd s f)
    unfolding handle_start
    handle_start-Same hd s f h = grind (arith, start_accepted-Same, cancel_verification-Same)

    pub handle_accept-Same :
        (hd : Header) (a : Message.Accept) (f : Flow) → Same o f → Same o (handle_accept env hd a f)
    unfolding handle_accept
    handle_accept-Same hd a f h =
        grind (arith, send_verification_key-Same, cancel_verification-Same)

    pub show_sas-Same : (info : String) (f : Flow) → Same o f → Same o (show_sas env info f)
    unfolding show_sas set_state
    show_sas-Same info f h = ground arith

    pub handle_key-Same :
        (hd : Header) (x : String) (f : Flow) → Same o f → Same o (handle_key env hd x f)
    unfolding handle_key key_received
    handle_key-Same hd x f h =
        grind (arith, show_sas-Same, send_verification_key-Same, cancel_verification-Same)

    pub choose_device-Same :
        (from : String) (f : Flow) → Same o f → Same o (choose_device env from f)
    unfolding choose_device
    choose_device-Same from f h = ground arith

    pub handle_ready-Same :
        (hd : Header) (r : Message.Ready) (f : Flow) → Same o f → Same o (handle_ready env hd r f)
    unfolding handle_ready
    handle_ready-Same hd r f h =
        grind (arith, start_verification_request-Same, choose_device-Same, fail_as_user-Same)
