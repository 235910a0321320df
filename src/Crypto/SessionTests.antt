-- ===== src/Crypto/SessionTests.antt =====
-- Sessions that are numbers: their first index.
use nheko_library.Base.{
  ℕ, ◌≡◌, ◌≢◌, refl, ap, String, [], ◌∷◌, Option, none, some, true, false, arith, concat,
}
use nheko_library.Cache.Tests.{distinct}
use nheko_library.Crypto.Sessions.{
  Megolm, Sessions, MegolmSessionIndex, Outcome, plain, no_data, save_inbound_megolm_session,
  create_inbound_megolm_session,
}
use nheko_library.Crypto.Decrypting.{
  EncryptedEvent, decrypt_event, read_outcome, remember, no_error, replay_attack,
}
use nheko_library.Crypto.Replay.{decrypt_events}
use nheko_library.Crypto.Replayed.{message_index_of, KeepsStart, decrypt_event-once}
use nheko_library.Crypto.KeyRequests.{
  KeyRequest, Account, Forward, megolm_algo, handle_key_request_message,
}
use nheko_library.Crypto.Forwarded.{Allowed, handle_key_request_message-Allowed}

-- All messages have the index 5.
abbrev pub five : Megolm
five = record {
  Session = ℕ;
  dump = λ i. concat (i.room_id ∷ " " ∷ i.session_id ∷ []);
  first_known_index = λ s. s;
  decrypt_group_message = λ s c. plain 5 c s;
  init_inbound_group_session = λ k. some 0;
  import_inbound_group_session = λ k. some 0;
}

abbrev after_of : Outcome ℕ → ℕ
after_of (plain i text after) = after
after_of _ = 0

five-KeepsStart : KeepsStart five
five-KeepsStart = record { keeps = λ s after c text i h. omega (arith, ap after_of h) }

abbrev in_room : MegolmSessionIndex
in_room = record { room_id = "!r"; session_id = "s" }

abbrev one_session : Sessions five
one_session = record { inbound = ("!r s", 0) ∷ []; session_data = [] }

abbrev hello : EncryptedEvent
hello = record { event_id = "$1"; sender = "@b:x"; ciphertext = "hello" }

abbrev replayed : EncryptedEvent
replayed = record { event_id = "$2"; sender = "@b:x"; ciphertext = "hello" }

abbrev text_of : String → EncryptedEvent → Option String
text_of text e = some text

abbrev once : Sessions five
once = (decrypt_event five text_of in_room hello false one_session).db

abbrev twice : Sessions five
twice =
    decrypt_events five text_of
      (record { index = in_room; event = hello; dont_write_db = true } ∷ []) once

hello-accepted : (decrypt_event five text_of in_room hello false one_session).error ≡ no_error
unfolding decrypt_event read_outcome remember
hello-accepted = refl

not_a_replay : (decrypt_event five text_of in_room hello false one_session).error ≢ replay_attack
not_a_replay h = ground (arith, hello-accepted)

still_read : message_index_of five in_room replayed twice ≡ some 5
unfolding decrypt_event read_outcome remember save_inbound_megolm_session
still_read = refl

decrypt_event-once_example :
    decrypt_event five text_of in_room replayed true twice
    ≡ record { db = twice; error = replay_attack; event = none }
decrypt_event-once_example =
    decrypt_event-once five text_of in_room hello replayed
      (record { index = in_room; event = hello; dont_write_db = true } ∷ []) true one_session 5
      five-KeepsStart refl refl not_a_replay refl still_read (distinct "$1" "$2" refl)

-- The key of a session comes again: what was read of it is forgotten, and a replay is accepted.
abbrev given_again : Sessions five
given_again =
    create_inbound_megolm_session five
      (record { room_id = "!r"; session_id = "s"; session_key = "k" }) "c" "e" once

given_again-replays :
    (decrypt_event five text_of in_room replayed false given_again).error ≡ no_error
unfolding decrypt_event read_outcome remember save_inbound_megolm_session
    create_inbound_megolm_session
given_again-replays = refl

abbrev account : Account five
account = record {
  user_id = "@a:x";
  curve25519 = "mine";
  share_keys_with_trusted_users = false;
  is_room_member = λ user room. true;
  verified_devices = λ user. some [];
  export_session = λ s i. some "key";
}

abbrev shared_session : Sessions five
shared_session = record {
  inbound = ("!r s", 0) ∷ [];
  session_data =
      ("!r s", record no_data { sender_key = "mine"; currently = ("@b:x", ("B", 3) ∷ []) ∷ [] })
      ∷ [];
}

abbrev request : KeyRequest
request = record {
  sender = "@b:x";
  algorithm = megolm_algo;
  room_id = "!r";
  session_id = "s";
  requesting_device_id = "B";
}

abbrev forwarded : Forward
forwarded = record {
  user_id = "@b:x";
  device_id = "B";
  payload = record {
    algorithm = megolm_algo;
    room_id = "!r";
    session_id = "s";
    session_key = "key";
    sender_key = "mine";
    sender_claimed_ed25519_key = "";
    forwarding_curve25519_key_chain = [];
  };
}

request-forwarded : handle_key_request_message five account request shared_session ≡ some forwarded
unfolding handle_key_request_message
request-forwarded = refl

handle_key_request_message-Allowed_example : Allowed five account request shared_session forwarded
handle_key_request_message-Allowed_example =
    handle_key_request_message-Allowed five account request shared_session forwarded
      request-forwarded
