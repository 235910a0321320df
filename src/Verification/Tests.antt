-- ===== src/Verification/Tests.antt =====
-- A verification between two concrete devices, and the theorems at it.
use nheko_library.Base.{
  ℕ, ◌≤◌, String, List, [], ◌∷◌, ◌≡◌, ◌⊎◌, refl, inr, ◌≢◌, none, some, true, false, arith, eq_iff,
  concat, count_if, not,
}
use nheko_library.Verification.Message.{
  Header, SasMethod, sas_v1, Request, Ready, Start, Accept, KeyMac,
}
use nheko_library.Verification.Env.{Env, UserKeys}
use nheko_library.Verification.Flow.{
  failed, Flow, success, compare_emoji, send, set_state, cancel_verification, cancel_content,
}
use nheko_library.Verification.Mac.{
  check_macs, out_of_range, known_keys, known_key, device_key, take_key, mac_entries, join_ids,
  key_verification_mac, signatures, self_signatures, user_signatures, sign_with,
}
use nheko_library.Verification.Outgoing.{
  accept_verification_request, start_message, start_verification_request, send_verification_key,
  accept_device, send_verification_done, own_keys, own_mac, send_verification_mac,
  send_verification_request, send_verification_ready, next_in, next,
}
use nheko_library.Verification.Incoming.{
  handle_timeout, names_other, names_this, known_protocol, loses_glare, accept_unless_prompt,
  resolve_glare, start_accepted, handle_start, handle_accept, show_sas, sas_info, key_received,
  handle_key, expected_mac, mac_accepted, handle_mac, choose_device, handle_ready,
  handle_their_keys,
}
use nheko_library.Verification.Machine.{
  Origin, by_device, requested, create, new_flow, initiate_device_verification,
  new_to_device_verification, Event, user_next, got_start, got_accept, got_key, got_mac, got_ready,
  got_their_keys, step, run,
}
use nheko_library.Verification.Once.{key_kind, sends, run-create-sends_once}
use nheko_library.Verification.Flow.{key_mismatch}
use nheko_library.Verification.RightMacs.{MacsAreRight, handle_mac-exact}
use nheko_library.Verification.Confirmed.{Confirms, right_mac, Occurs, verified_needs_confirmation}
use nheko_library.Verification.Glare.{Ends, Offers, handle_start-agree}
use nheko_library.Verification.InRange.{expected_mac-in_range}
use nheko_library.Verification.Exchange.{handle_mac-own_mac}
use nheko_library.Verification.Strings.{handle_key-same_strings}
use nheko_library.Verification.Endings.{handle_timeout-ends, is_active, handle_mac-no_keys}

-- The libraries' functions, by texts that show what went in.
abbrev pub end_of : (user_id device key public : String) → Env
end_of own_id device key public = record {
  user_id = own_id;
  device_id = device;
  ed25519 = key;
  sign_message = λ s. concat ("olm(" ∷ s ∷ ")" ∷ []);
  public_key = public;
  emoji_bytes = λ k s. 7 ∷ 21 ∷ [];
  decimal_bytes = λ k s. 1234 ∷ [];
  calculate_mac = λ t k i. concat (k ∷ "/" ∷ i ∷ []);
  sha256 = λ s. concat ("sha(" ∷ s ∷ ")" ∷ []);
  references = λ rs. elim rs [ [] ↦ none | r ∷ _ ↦ some r.event_id ];
  dump = λ m. "json";
  dump_keys = λ k. "keys";
  self_signing_secret = some "s";
  user_signing_secret = some "u";
  pk_public_key = λ s. s;
  pk_sign = λ s t. concat (s ∷ "(" ∷ t ∷ ")" ∷ []);
  current_ms = 0;
}

abbrev pub alice : Env
alice = end_of "@alice:x" "A" "ka" "pa"

abbrev pub bob : Env
bob = end_of "@bob:x" "B" "kb" "pb"

abbrev pub to_m1 : Header
to_m1 = record { transaction_id = some "m1"; relations = []; synthesized = false }

abbrev keys_of_bob : UserKeys
keys_of_bob = record {
  device_keys = ("B", record { keys = ("ed25519:B", "kb") ∷ [] }) ∷ [];
  master_keys = record { keys = ("ed25519:mb", "mb") ∷ [] };
  user_signing_keys = record { keys = [] };
  self_signing_keys = record { keys = [] };
}

abbrev ready_from_bob : Ready
ready_from_bob = record { from_device = "B"; methods = sas_v1 ∷ [] }

abbrev accept_from_bob : Accept
accept_from_bob = record {
  method = sas_v1;
  key_agreement_protocol = "curve25519-hkdf-sha256";
  hash = "sha256";
  message_authentication_code = "hkdf-hmac-sha256";
  short_authentication_string = SasMethod.emoji ∷ [];
  commitment = "sha(pbjson)";
}

abbrev mac_from_bob : KeyMac
mac_from_bob = record {
  mac =
      ("ed25519:B", "kb/MATRIX_KEY_VERIFICATION_MAC@bob:xB@alice:xAm1ed25519:B")
      ∷ ("ed25519:mb", "mb/MATRIX_KEY_VERIFICATION_MAC@bob:xB@alice:xAm1ed25519:mb")
      ∷ [];
  keys = "ed25519:B,ed25519:mb/MATRIX_KEY_VERIFICATION_MAC@bob:xB@alice:xAm1KEY_IDS";
}

abbrev by_alice : Origin
by_alice = by_device "@bob:x" ("B" ∷ []) "m1"

-- From the request to the strings, and on to the MACs.
abbrev to_strings : List Event
to_strings =
    got_their_keys (some keys_of_bob)
    ∷ user_next
    ∷ got_ready to_m1 ready_from_bob
    ∷ got_accept to_m1 accept_from_bob
    ∷ got_key to_m1 "pb"
    ∷ []

abbrev whole : List Event
whole =
    got_their_keys (some keys_of_bob)
    ∷ user_next
    ∷ got_ready to_m1 ready_from_bob
    ∷ got_accept to_m1 accept_from_bob
    ∷ got_key to_m1 "pb"
    ∷ user_next
    ∷ got_mac to_m1 mac_from_bob
    ∷ []

-- All that a run computes with.
abbrev machine : ℕ
unfolding run step create new_flow initiate_device_verification next next_in
    send_verification_request set_state send handle_ready choose_device start_verification_request
    start_message handle_accept names_other send_verification_key handle_key key_received sas_info
    show_sas send_verification_mac own_mac own_keys accept_device send_verification_done handle_mac
    expected_mac key_verification_mac known_keys known_key device_key take_key mac_entries join_ids
    check_macs mac_accepted signatures self_signatures user_signatures sign_with handle_their_keys
    names_this known_protocol
machine = 0

abbrev bob_machine : ℕ
unfolding handle_start start_accepted accept_unless_prompt accept_verification_request resolve_glare
    loses_glare new_to_device_verification send_verification_ready cancel_verification
    cancel_content
bob_machine = 0

whole_succeeds : (run alice whole (create alice by_alice)).state ≡ success
unfolding machine
whole_succeeds = refl

shows_strings : (run alice to_strings (create alice by_alice)).state ≡ compare_emoji
unfolding machine
shows_strings = refl

run-create-sends_once_example :
    count_if (sends key_kind) (run alice whole (create alice by_alice)).log ≤ 1
run-create-sends_once_example = run-create-sends_once alice key_kind by_alice whole

verified_needs_confirmation_example :
    Occurs alice Confirms (create alice by_alice) whole
    × Occurs alice (λ g e. right_mac alice g e ≡ true) (create alice by_alice) whole
verified_needs_confirmation_example =
    verified_needs_confirmation alice by_alice whole (inr whole_succeeds)

abbrev pub request_from_alice : Request
request_from_alice = record {
  from_device = "A";
  methods = sas_v1 ∷ [];
  timestamp = some 0;
  to = "";
  msgtype = "";
  body = "";
}

abbrev pub start_from : String → Start
start_from d = record {
  from_device = d;
  method = sas_v1;
  key_agreement_protocols = "curve25519-hkdf-sha256" ∷ [];
  hashes = "sha256" ∷ [];
  message_authentication_codes = "hkdf-hmac-sha256" ∷ [];
  short_authentication_string = SasMethod.decimal ∷ SasMethod.emoji ∷ [];
}

abbrev by_request : Origin
by_request = requested request_from_alice "@alice:x" "m1"

-- Alice's flow up to `accept`, and Bob's up to `start`.
abbrev alice_waits : Flow
alice_waits =
    run alice
      (got_their_keys (some keys_of_bob)
        ∷ user_next
        ∷ got_ready to_m1 ready_from_bob
        ∷ got_accept to_m1 accept_from_bob
        ∷ [])
      (create alice by_alice)

abbrev bob_waits : Flow
bob_waits = run bob (user_next ∷ got_start to_m1 (start_from "A") ∷ []) (create bob by_request)

-- Both after the user's confirmation.
abbrev alice_confirmed : Flow
alice_confirmed = run alice (got_key to_m1 "pb" ∷ user_next ∷ []) alice_waits

abbrev bob_confirmed : Flow
bob_confirmed = run bob (got_key to_m1 "pa" ∷ user_next ∷ []) bob_waits

ends : Ends alice bob alice_waits bob_waits
unfolding machine bob_machine
ends = record {
  other_of_f = refl;
  device_of_f = refl;
  other_of_g = refl;
  device_of_g = refl;
  distinct = λ e. absurd (alice≢bob e);
}
  where
    alice≢bob : ◌≢◌ {A = String} "@alice:x" "@bob:x"
    alice≢bob = ground (arith, eq_iff "@alice:x" "@bob:x")

handle_key-same_strings_example :
    (handle_key alice to_m1 "pb" alice_waits).sas_list
    ≡ (handle_key bob to_m1 "pa" bob_waits).sas_list
unfolding machine bob_machine
handle_key-same_strings_example =
    (handle_key-same_strings alice bob alice_waits bob_waits to_m1 to_m1 ends (refl, refl)
      (refl, refl) (refl, refl)
      (record { named = refl; waits = refl; method = λ e. cc; committed = λ _. refl })
      (record { named = refl; waits = refl; method = λ e. cc; committed = λ e. cc })).2

handle_mac-own_mac_example :
    (handle_mac alice to_m1 (own_mac bob bob_confirmed) alice_confirmed).state ≡ success
unfolding machine bob_machine
handle_mac-own_mac_example =
    (handle_mac-own_mac alice bob alice_confirmed bob_confirmed to_m1
        (record { ends = confirmed_ends; transaction = refl; macs = refl }) refl refl).1
      refl
  where
    confirmed_ends : Ends alice bob alice_confirmed bob_confirmed
    confirmed_ends = record {
      other_of_f = refl;
      device_of_f = refl;
      other_of_g = refl;
      device_of_g = refl;
      distinct = ends.distinct;
    }

expected_mac-in_range_example :
    check_macs (expected_mac alice alice_confirmed mac_from_bob).mac mac_from_bob.mac ≢ out_of_range
expected_mac-in_range_example = expected_mac-in_range alice alice_confirmed mac_from_bob

handle_mac-exact_example :
    let g = handle_mac alice to_m1 mac_from_bob alice_waits in
    (MacsAreRight alice alice_waits mac_from_bob × (g.is_mac_verified ≡ true))
    ⊎ ((¬ MacsAreRight alice alice_waits mac_from_bob)
        × (g.is_mac_verified ≡ alice_waits.is_mac_verified)
        × (((is_active alice_waits ≡ true) × (g.state ≡ failed) × (g.error ≡ key_mismatch))
            ⊎ ((is_active alice_waits ≡ false) × (g ≡ alice_waits))))
unfolding machine
handle_mac-exact_example = handle_mac-exact alice to_m1 mac_from_bob alice_waits refl

-- Its MACs are right: the keys are verified.
handle_mac_test : (handle_mac alice to_m1 mac_from_bob alice_waits).is_mac_verified ≡ true
unfolding machine
handle_mac_test = refl

handle_mac-no_keys_example :
    (handle_mac alice to_m1
      (record { mac = []; keys = "/MATRIX_KEY_VERIFICATION_MAC@bob:xB@alice:xAm1KEY_IDS" })
      alice_confirmed).state
    ≡ success
unfolding machine
handle_mac-no_keys_example = (handle_mac-no_keys alice to_m1 alice_confirmed refl refl).0

bob_offer : Offers bob to_m1 (start_from "A") (create bob by_request)
unfolding machine bob_machine
bob_offer = record { named = refl; protocol = refl; strings = refl; method = refl }

-- Both have sent `start`.
abbrev alice_started : Flow
alice_started = run alice (user_next ∷ got_ready to_m1 ready_from_bob ∷ []) (create alice by_alice)

abbrev bob_started : Flow
bob_started =
    run bob (user_next ∷ got_ready to_m1 (record { from_device = "A"; methods = sas_v1 ∷ [] }) ∷ [])
      (create bob (by_device "@alice:x" ("A" ∷ []) "m1"))

handle_start-agree_example :
    (handle_start bob to_m1 (start_from "A") bob_started).sender
    ≡ not (handle_start alice to_m1 (start_from "B") alice_started).sender
unfolding machine bob_machine
handle_start-agree_example =
    (handle_start-agree alice bob alice_started bob_started to_m1 to_m1 (start_from "A")
      (start_from "B")
      (record {
        other_of_f = refl;
        device_of_f = refl;
        other_of_g = refl;
        device_of_g = refl;
        distinct = ends.distinct;
      })
      refl refl (record { named = refl; protocol = refl; strings = refl; method = refl })
      (record { named = refl; protocol = refl; strings = refl; method = refl }) refl refl).1

handle_timeout-ends_example :
    ((handle_timeout alice_waits).state ≡ success) ⊎ ((handle_timeout alice_waits).state ≡ failed)
handle_timeout-ends_example = handle_timeout-ends alice_waits
