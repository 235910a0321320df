-- ===== src/Verification/Outgoing.antt =====
-- The messages that a flow sends, `acceptDevice`, `unverify` and `next`.
use nheko_library.Base.{
  String, List, [], ◌∷◌, none, some, Bool, true, false, ◌&&◌, str_eq, concat, if◌then◌else◌,
}
use nheko_library.Base.StdMap.{Map, insert}
use nheko_library.Verification.Message.{
  SasMethod, sas_v1, Content, Message, request, ready, start, accept, key, mac, done,
}
use nheko_library.Verification.Message
use nheko_library.Verification.Env.{Env}
use nheko_library.Verification.Flow.{
  Flow, State, prompt_start_verification, waiting_for_other_to_accept, waiting_for_keys,
  compare_emoji, compare_number, waiting_for_mac, success, to_device, room_msg, mark_verified,
  mark_unverified, refresh_profile, request_cross_signing_keys, is_state, emit, set_state, send,
  message, no_header, push_relation,
}
use nheko_library.Verification.Mac.{key_verification_mac, is_self}

abbrev pub sas_of : SasMethod → List SasMethod
sas_of SasMethod.emoji = SasMethod.emoji ∷ []
sas_of SasMethod.decimal = SasMethod.decimal ∷ []
sas_of SasMethod.unsupported = []

module _ (env : Env) where
  unfoldable pub accept_verification_request : Flow → Flow
  accept_verification_request f =
      if f.accept_sent
      then f
      else set_state waiting_for_keys (
          send
            (message (
              accept (record {
                method = sas_v1;
                key_agreement_protocol = "curve25519-hkdf-sha256";
                hash = "sha256";
                message_authentication_code = "hkdf-hmac-sha256";
                short_authentication_string = sas_of f.method;
                commitment = env.sha256 (concat (env.public_key ∷ f.canonical_json ∷ []));
              })))
            (record f { accept_sent = true }))

  unfoldable pub send_verification_ready : Flow → Flow
  send_verification_ready f =
      set_state waiting_for_keys
        (send (message (ready (record { from_device = env.device_id; methods = sas_v1 ∷ [] }))) f)

  unfoldable pub send_verification_done : Flow → Flow
  send_verification_done f = send (message done) f

  -- The `start` message, with the header that it has when its JSON is taken.
  unfoldable pub start_message : Flow → Message
  start_message f = record {
    header = elim f.type [
      | to_device ↦ record no_header { transaction_id = some f.transaction_id }
      | room_msg ↦ if f.has_model then push_relation f.relation no_header else no_header
    ];
    content = start (record {
      from_device = env.device_id;
      method = sas_v1;
      key_agreement_protocols = "curve25519-hkdf-sha256" ∷ [];
      hashes = "sha256" ∷ [];
      message_authentication_codes = "hkdf-hmac-sha256" ∷ [];
      short_authentication_string = SasMethod.decimal ∷ SasMethod.emoji ∷ [];
    });
  }

  -- A flow in a room without a timeline keeps its `canonical_json`.
  start_json : Flow → String
  start_json f = elim f.type [
    | to_device ↦ env.dump (start_message f)
    | room_msg ↦ if f.has_model then env.dump (start_message f) else f.canonical_json
  ]

  unfoldable pub start_verification_request : Flow → Flow
  unfolding start_json
  start_verification_request f =
      if f.start_sent
      then f
      else set_state waiting_for_other_to_accept
          (send (start_message f) (record f { start_sent = true; canonical_json = start_json f }))

  request_of : Flow → Message.Request
  request_of f = elim f.type [
    | to_device ↦ record {
      from_device = env.device_id;
      methods = sas_v1 ∷ [];
      timestamp = some env.current_ms;
      to = "";
      msgtype = "";
      body = "";
    }
    | room_msg ↦ record {
      from_device = env.device_id;
      methods = sas_v1 ∷ [];
      timestamp = none;
      to = if f.has_model then f.to_client else "";
      msgtype = if f.has_model then "m.key.verification.request" else "";
      body =
          if f.has_model
          then "User is requesting to verify keys with you. However, your client does not support this method, so you will need to use the legacy method of key verification."
          else "";
    }
  ]

  unfoldable pub send_verification_request : Flow → Flow
  unfolding request_of
  send_verification_request f =
      set_state waiting_for_other_to_accept (send (message (request (request_of f))) f)

  unfoldable pub send_verification_key : Flow → Flow
  send_verification_key f =
      if f.key_sent then f else send (message (key env.public_key)) (record f { key_sent = true })

  -- `Completes the verification flow`
  unfoldable pub accept_device : Flow → Flow
  accept_device f =
      if f.is_mac_verified
      then (if is_state f.state waiting_for_mac
          then (let g =
                set_state success
                  (send_verification_done (emit (mark_verified f.to_client f.device_id) f)) in
              let missing : Bool = elim env.self_signing_secret [
                | none ↦ true
                | some _ ↦ elim env.user_signing_secret [ none ↦ true | some _ ↦ false ]
              ] in
              if is_self env f && missing then emit request_cross_signing_keys g else g)
          else f)
      else set_state waiting_for_mac f

  -- Our device's key, and our master key where we trust it.
  unfoldable pub own_keys : Flow → Map String
  own_keys f =
      let list = insert (concat ("ed25519:" ∷ env.device_id ∷ [])) env.ed25519 [] in
      if str_eq f.our_trusted_master_key ""
      then list
      else insert (concat ("ed25519:" ∷ f.our_trusted_master_key ∷ [])) f.our_trusted_master_key
          list

  unfoldable pub own_mac : Flow → Message.KeyMac
  own_mac f =
      key_verification_mac (env.calculate_mac f.their_key) env.user_id env.device_id f.to_client
        f.device_id f.transaction_id (own_keys f)

  unfoldable pub send_verification_mac : Flow → Flow
  send_verification_mac f =
      if f.mac_sent
      then f
      else accept_device (
          set_state waiting_for_mac
            (send (message (mac (own_mac f))) (record f { mac_sent = true })))

  -- The user goes on. In the states that no clause names this is only logged.
  unfoldable pub next_in : State → Flow → Flow
  next_in prompt_start_verification f =
      if f.sender
      then send_verification_request f
      else if str_eq f.canonical_json ""
      then send_verification_ready f
      else accept_verification_request f
  next_in compare_emoji f = send_verification_mac f
  next_in compare_number f = send_verification_mac f
  next_in _ f = f

  unfoldable pub next : Flow → Flow
  next f = next_in f.state f

unfoldable pub unverify : Flow → Flow
unverify f = emit refresh_profile (emit (mark_unverified f.to_client f.device_id) f)
