-- ===== src/Voip/Tests.antt =====
-- Calls between two concrete users, and the theorems at them.
use nheko_library.Base.{
  ◌+◌, String, List, [], ◌∷◌, ◌≡◌, refl, ◌⊎◌, ◌≢◌, none, some, Bool, true, false, concat, arith,
  eq_iff, str_eq, if◌then◌else◌,
}
use nheko_library.Voip.Session.{
  voice, disconnected, initiated, connected, Description, MediaEnv, have_plugins, clear_session,
}
use nheko_library.Voip.Manager.{
  Candidate, CallEnv, Manager, user_reason, new_invite_state, is_on_call, clear,
  session_disconnected, end_session, hang_up, session_changed,
}
use nheko_library.Voip.Pipeline.{
  start_pipeline, offer_started, offer_parsed, accept_offer, add_candidates, accept_ice_candidates,
}
use nheko_library.Voip.Calls.{
  other_member, plugins_for, send_invite, accept_call, accept_invite, begins_ci, holds_ci,
  offers_video,
}
use nheko_library.Voip.Events.{
  CallEvent, handle_invite, handle_candidates, got_answer, got_hangup, step, run,
}
use nheko_library.Voip.Outcome.{Idle, hangups, delivered, hang_up-ends}
use nheko_library.Voip.Placing.{send_invite-outcome}
use nheko_library.Voip.Accepting.{Accepted, accept_invite-outcome}
use nheko_library.Voip.Delivery.{arrive, nonempty, joined, accept_invite-delivers}
use nheko_library.Voip.Disturbance.{
  Undisturbed, none_left, one_more, other_hangup, other_answer, run-Undisturbed,
}

abbrev audio_only : Description
audio_only = record {
  audio = some (record { payload_type = some 111; recv_only = false; send_only = false });
  video_media = none;
}

abbrev media_of : Bool → MediaEnv
media_of created = record {
  gst_init = true;
  plugins_found = λ v. true;
  plugins_error = "Missing GStreamer plugins: nice ";
  parse_sdp = λ s. if str_eq s "offer" then some audio_only else none;
  pipeline_created = created;
  webrtcbin_found = true;
  playing = true;
  have_camera = false;
  have_mic = true;
}

abbrev bob : CallEnv
bob = record {
  local_user = "@bob";
  room_info = λ r. record {
    member_count = 2;
    avatar_url = "";
    members =
        record { user_id = "@alice"; display_name = "Alice" }
        ∷ record { user_id = "@bob"; display_name = "" }
        ∷ [];
  };
  milliseconds = "17";
  media = media_of true;
}

abbrev bob_without_pipeline : CallEnv
bob_without_pipeline = record bob { media = media_of false }

abbrev at_rest : Manager
at_rest = record {
  roomid = "";
  call_party = "";
  call_party_display_name = "";
  call_party_avatar_url = "";
  callid = "";
  call_type = voice;
  have_call_invite = false;
  invite_sdp = "";
  remote_candidates = [];
  turn_uris = [];
  session = record {
    state = disconnected;
    session_type = voice;
    is_offering = false;
    remote_video_recv_only = false;
    remote_video_send_only = false;
    turn_servers = [];
    initialised = false;
    have_voice_plugins = false;
    have_video_plugins = false;
  };
  log = [];
}

abbrev rung : Manager
rung = record at_rest {
  roomid = "!r";
  callid = "c1";
  call_party = "@alice";
  call_party_display_name = "Alice";
  have_call_invite = true;
  invite_sdp = "offer";
  log = new_invite_state ∷ [];
}

-- That is what an invite makes of a manager at rest.
rung_test :
    handle_invite bob (record { room_id = "!r"; call_id = "c1"; sdp = "offer" }) at_rest ≡ rung
unfolding handle_invite other_member offers_video holds_ci begins_ci
rung_test = refl

abbrev candidate_of : String → Candidate
candidate_of s = record { mline_index = 0; candidate = s }

abbrev from_alice : CallEvent
from_alice = record { sender = "@alice"; call_id = "c1" }

abbrev of_another_call : CallEvent
of_another_call = record { sender = "@alice"; call_id = "c2" }

abbrev talking : Manager
talking = record rung {
  session = record rung.session { state = connected };
  have_call_invite = false;
}

send_invite-outcome_example :
    ((send_invite bob "!r" voice at_rest).1 ≡ true
      → ((send_invite bob "!r" voice at_rest).0.session.state ≡ initiated)
        × ((send_invite bob "!r" voice at_rest).0.callid ≡ concat ("c" ∷ "17" ∷ []))
        × ((send_invite bob "!r" voice at_rest).0.roomid ≡ "!r")
        × (is_on_call at_rest ≡ false)
        × ((bob.room_info "!r").member_count ≡ 2))
    × ((send_invite bob "!r" voice at_rest).1 ≡ false
        → (send_invite bob "!r" voice at_rest).0.session.state ≡ disconnected)
send_invite-outcome_example = send_invite-outcome bob "!r" voice at_rest

hang_up-ends_example :
    (talking.callid ≢ ""
      → Idle (hang_up user_reason talking)
        × ((hang_up user_reason talking).session.state ≡ disconnected)
        × (hangups talking.callid (hang_up user_reason talking)
            ≡ hangups talking.callid talking + 1))
    × (talking.callid ≡ "" → hang_up user_reason talking ≡ talking)
hang_up-ends_example = hang_up-ends user_reason talking

named : rung.callid ≢ ""
named = ground (arith, eq_iff "c1" "")

accept_invite-outcome_example :
    Accepted "c1" (accept_invite bob rung)
    ⊎ (Idle (accept_invite bob rung) × ((accept_invite bob rung).session.state ≡ disconnected))
accept_invite-outcome_example = accept_invite-outcome bob rung refl named refl

abbrev early : List (List Candidate)
early = (candidate_of "a" ∷ []) ∷ []

abbrev late : List (List Candidate)
late = (candidate_of "" ∷ candidate_of "b" ∷ []) ∷ []

not_bob : from_alice.sender ≢ bob.local_user
not_bob = ground (arith, eq_iff "@alice" "@bob")

runs : (accept_invite bob (arrive bob from_alice early rung)).session.state ≡ initiated
unfolding run step handle_candidates accept_invite plugins_for have_plugins accept_call accept_offer
    offer_parsed offer_started start_pipeline session_changed end_session session_disconnected clear
    clear_session add_candidates accept_ice_candidates
runs = refl

accept_invite-delivers_example :
    delivered
      (arrive bob from_alice late (accept_invite bob (arrive bob from_alice early rung))).log
    ≡ candidate_of "a" ∷ candidate_of "b" ∷ []
unfolding delivered nonempty joined
accept_invite-delivers_example =
    accept_invite-delivers bob from_alice early late rung not_bob refl refl refl runs

run-Undisturbed_example :
    Undisturbed talking
      (run bob (got_hangup of_another_call ∷ got_answer of_another_call "offer" ∷ []) talking)
run-Undisturbed_example = run-Undisturbed bob _ talking refl (
    one_more _ _ (other_hangup of_another_call refl)
      (one_more _ _ (other_answer of_another_call "offer" refl) none_left))

ready : (plugins_for bob_without_pipeline rung.call_type rung).1 ≡ true
unfolding plugins_for have_plugins
ready = refl
