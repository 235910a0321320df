-- ===== src/Verification/Incoming.antt =====
-- The slots that DeviceVerificationFlow's constructor connects: the messages of the other side, the
-- timer, the event id of a request in a room, and the replies to the key queries.
use nheko_library.Base.{
  String, List, [], ◌∷◌, Option, none, some, Bool, true, false, ◌&&◌, ◌||◌, not, length, any_of,
  contains, ltb, str_eq, str_lt, concat, if◌then◌else◌,
}
use nheko_library.Base.StdMap.{has}
use nheko_library.Verification.Message.{
  SasMethod, VerificationMethod, sas_v1, other, reference, Header, Content, Message, cancel,
}
use nheko_library.Verification.Message
use nheko_library.Verification.Env.{Env, UserKeys}
use nheko_library.Verification.Flow.{
  Flow, prompt_start_verification, waiting_for_other_to_accept, waiting_for_keys, compare_emoji,
  compare_number, success, failed, unknown_method, mismatched_commitment, key_mismatch, timeout,
  user, out_of_order, error_changed, send_to_device, upload_signatures, exception, is_state, emit,
  set_state, no_header, cancel_verification,
}
use nheko_library.Verification.Mac.{
  all_match, mismatch, out_of_range, known_keys, key_verification_mac, check_macs, signatures,
}
use nheko_library.Verification.Outgoing.{
  accept_verification_request, start_verification_request, send_verification_key, accept_device,
}

abbrev pub is_emoji : SasMethod → Bool
is_emoji SasMethod.emoji = true
is_emoji _ = false

abbrev pub is_decimal : SasMethod → Bool
is_decimal SasMethod.decimal = true
is_decimal _ = false

abbrev pub is_sas_v1 : VerificationMethod → Bool
is_sas_v1 sas_v1 = true
is_sas_v1 other = false

-- `std::find(methods.begin(), methods.end(), SASv1) != methods.end()`
abbrev pub has_sas_v1 : List VerificationMethod → Bool
has_sas_v1 = any_of is_sas_v1

-- `std::tuple(a, b) < std::tuple(c, d)`
abbrev pub pair_lt : (a b c d : String) → Bool
pair_lt a b c d = str_lt a c || (not (str_lt c a) && str_lt b d)

-- `error_ = User; emit errorChanged(); setState(Failed)`, with no message to the other side.
unfoldable pub fail_as_user : Flow → Flow
fail_as_user f = set_state failed (emit error_changed (record f { error = user }))

module _ (env : Env) where
  -- A message that names another flow. One that names none is taken.
  unfoldable pub names_other : Header → Flow → Bool
  names_other h f = elim h.transaction_id [
    | some t ↦ not (str_eq t f.transaction_id)
    | none ↦ elim (env.references h.relations) [
      | some r ↦ not (str_eq r f.relation.event_id)
      | none ↦ false
    ]
  ]

  -- The same at `start`, where a message that names no flow is dropped.
  unfoldable pub names_this : Header → Flow → Bool
  names_this h f = elim h.transaction_id [
    | some t ↦ str_eq t f.transaction_id
    | none ↦ elim (env.references h.relations) [
      | some r ↦ str_eq r f.relation.event_id
      | none ↦ false
    ]
  ]

  unfoldable pub known_protocol : Message.Start → Bool
  known_protocol s =
      contains "curve25519-hkdf-sha256" s.key_agreement_protocols
      && contains "sha256" s.hashes
      && contains "hkdf-hmac-sha256" s.message_authentication_codes

  -- The side with the smaller user id, or device id where that is one, is the sender of `start`.
  unfoldable pub loses_glare : Flow → Bool
  loses_glare f = pair_lt f.to_client f.device_id env.user_id env.device_id

  -- "If we didn't send start, accept the verification."
  unfoldable pub accept_unless_prompt : Flow → Flow
  accept_unless_prompt f =
      if not (is_state f.state prompt_start_verification) && not f.sender
      then accept_verification_request env f
      else f

  -- "resolve glare"
  unfoldable pub resolve_glare : (json : String) → Flow → Flow
  resolve_glare json f =
      if loses_glare f then record f { canonical_json = json; sender = false } else f

  -- What follows the choice of the method.
  unfoldable pub start_accepted : Header → Message.Start → Flow → Flow
  start_accepted h s f =
      let json = env.dump (record { header = h; content = Content.start s }) in
      if f.sender
      then (if is_sas_v1 s.method
          then accept_unless_prompt (resolve_glare json f)
          else cancel_verification unknown_method (resolve_glare json f))
      else accept_unless_prompt (record f { canonical_json = json })

  unfoldable pub handle_start : Header → Message.Start → Flow → Flow
  handle_start h s f =
      if names_this h f
      then (if known_protocol s
          then (if any_of is_emoji s.short_authentication_string
              then start_accepted h s (record f { method = SasMethod.emoji })
              else if any_of is_decimal s.short_authentication_string
              then start_accepted h s (record f { method = SasMethod.decimal })
              else cancel_verification unknown_method f)
          else cancel_verification unknown_method f)
      else f

  unfoldable pub handle_accept : Header → Message.Accept → Flow → Flow
  handle_accept h a f =
      if names_other h f
      then f
      else if str_eq a.key_agreement_protocol "curve25519-hkdf-sha256"
          && str_eq a.hash "sha256"
          && str_eq a.message_authentication_code "hkdf-hmac-sha256"
      then send_verification_key env (record f {
        commitment = a.commitment;
        method =
            if any_of is_emoji a.short_authentication_string
            then SasMethod.emoji
            else SasMethod.decimal;
        mac_method = a.message_authentication_code;
      })
      else cancel_verification unknown_method f

  unfoldable pub handle_cancel : Header → Flow → Flow
  handle_cancel h f = if names_other h f then f else fail_as_user f

  -- What both sides' short strings are made from.
  unfoldable pub sas_info : Flow → String → String
  sas_info f k =
      if f.sender
      then concat (
          "MATRIX_KEY_VERIFICATION_SAS|" ∷ env.user_id ∷ "|" ∷ env.device_id ∷ "|" ∷ env.public_key
          ∷ "|" ∷ f.to_client ∷ "|" ∷ f.device_id ∷ "|" ∷ k ∷ "|" ∷ f.transaction_id ∷ [])
      else concat (
          "MATRIX_KEY_VERIFICATION_SAS|" ∷ f.to_client ∷ "|" ∷ f.device_id ∷ "|" ∷ k ∷ "|"
          ∷ env.user_id ∷ "|" ∷ env.device_id ∷ "|" ∷ env.public_key ∷ "|" ∷ f.transaction_id ∷ [])

  unfoldable pub show_sas : String → Flow → Flow
  show_sas info f = elim f.method [
    | SasMethod.emoji ↦
        set_state compare_emoji (record f { sas_list = env.emoji_bytes f.their_key info })
    | SasMethod.decimal ↦
        set_state compare_number (record f { sas_list = env.decimal_bytes f.their_key info })
    | SasMethod.unsupported ↦ f
  ]

  -- The key of the other side is in order.
  unfoldable pub key_received : String → Flow → Flow
  key_received k f =
      let g = record f { their_key = some k } in
      let info = sas_info g k in
      if g.sender
      then (if str_eq g.commitment (env.sha256 (concat (k ∷ g.canonical_json ∷ [])))
          then show_sas info g
          else cancel_verification mismatched_commitment g)
      else show_sas info (send_verification_key env g)

  abbrev pub awaits_key : Flow → Bool
  awaits_key f =
      is_state f.state waiting_for_keys
      || (f.sender && is_state f.state waiting_for_other_to_accept)

  unfoldable pub handle_key : Header → String → Flow → Flow
  handle_key h k f =
      if names_other h f
      then f
      else if awaits_key f
      then key_received k f
      else cancel_verification out_of_order f

  -- `macs`: what the other side's message should hold, by the keys that we know.
  unfoldable pub expected_mac : Flow → Message.KeyMac → Message.KeyMac
  expected_mac f m =
      key_verification_mac (env.calculate_mac f.their_key) f.to_client f.device_id env.user_id
        env.device_id f.transaction_id (known_keys f.their_keys m.mac [])

  unfoldable pub mac_accepted : Message.KeyMac → Flow → Flow
  mac_accepted m f =
      let req = signatures env f m.mac in
      let g : Flow = elim req [
        | [] ↦ f
        | s ∷ rest ↦ emit (upload_signatures f.to_client (s ∷ rest)) f
      ] in
      accept_device env (record g { is_mac_verified = true })

  unfoldable pub handle_mac : Header → Message.KeyMac → Flow → Flow
  handle_mac h m f = if names_other h f then f else elim (check_macs (expected_mac f m).mac m.mac) [
    | all_match ↦
        if str_eq m.keys (expected_mac f m).keys
        then mac_accepted m f
        else cancel_verification key_mismatch f
    | mismatch ↦ cancel_verification key_mismatch f
    | out_of_range ↦ emit exception f
  ]

  -- `m.key.verification.cancel` for the devices that the other side did not answer from.
  abbrev pub accepted_elsewhere : Flow → Message
  accepted_elsewhere f = record {
    header = record no_header { transaction_id = some f.transaction_id };
    content = cancel "m.user" "accepted by other device";
  }

  abbrev pub other_than : String → List String → List String
  other_than d [] = []
  other_than d (x ∷ xs) =
      let rest = other_than d xs in elim (str_eq x d) [ true ↦ rest | false ↦ x ∷ rest ]

  -- One of several devices answers: the flow goes on with it alone.
  unfoldable pub choose_device : String → Flow → Flow
  choose_device from f =
      if str_eq f.device_id "" && ltb 1 (length f.device_ids) && contains from f.device_ids
      then record (emit
          (send_to_device f.to_client (other_than from f.device_ids) (accepted_elsewhere f)) f) {
            device_id = from;
            device_ids = from ∷ [];
          }
      else f

  unfoldable pub handle_ready : Header → Message.Ready → Flow → Flow
  handle_ready h r f =
      if f.sender
      then (elim h.transaction_id [
        | some t ↦
            if str_eq t f.transaction_id
            then start_verification_request env (choose_device r.from_device f)
            else f
        | none ↦ elim (env.references h.relations) [
          | none ↦ f
          | some e ↦
              if str_eq e f.relation.event_id
              then start_verification_request env (record f { device_id = r.from_device })
              else f
        ]
      ])
      else if str_eq r.from_device env.device_id
      then f
      else fail_as_user f

  -- Only logged.
  unfoldable pub handle_done : Header → Flow → Flow
  handle_done h f = f

-- `timeout`'s slot
unfoldable pub handle_timeout : Flow → Flow
handle_timeout f =
    if is_state f.state success || is_state f.state failed then f else cancel_verification timeout f

-- `setEventId`, which `updateFlowEventId`'s slot repeats.
unfoldable pub set_event_id : String → Flow → Flow
set_event_id id f = record f {
  relation = record { rel_type = reference; event_id = id };
  transaction_id = id;
}

-- The reply to the query for the other user's keys; `none` is an error.
unfoldable pub handle_their_keys : Option UserKeys → Flow → Flow
handle_their_keys none f = f
handle_their_keys (some k) f =
    if not (str_eq f.device_id "") && not (has f.device_id k.device_keys)
    then f
    else record f { their_keys = k }

-- The reply to the query for our own keys, and whether the cache has our user as verified.
unfoldable pub handle_our_keys : Option UserKeys → Bool → Flow → Flow
handle_our_keys none verified f = f
handle_our_keys (some k) verified f = elim k.master_keys.keys [
  | [] ↦ f
  | (_, key) ∷ _ ↦ if verified then record f { our_trusted_master_key = key } else f
]
