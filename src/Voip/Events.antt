-- ===== src/Voip/Events.antt =====
-- The events of CallManager: call events of a room, the session's signals, the TURN server's reply, and
-- runs over lists of them.
use nheko_library.Base.{
  String, List, [], ◌∷◌, ◌++◌, none, some, true, false, not, ◌&&◌, ◌||◌, ◌==◌, str_eq,
  if◌then◌else◌,
}
use nheko_library.Voip.Session.{CallType, voice, video, State, offer_sent, is_state}
use nheko_library.Voip.Manager.{
  Candidate, CallEnv, Manager, invite_time_out, user_reason, invite, candidates, answer, hangup,
  new_message, new_invite_state, notification, start_timer, undefined_behaviour, emit, is_on_call,
  end_call, end_session, hang_up, session_changed,
}
use nheko_library.Voip.Pipeline.{accept_answer, accept_ice_candidates}
use nheko_library.Voip.Calls.{other_member, name_of, send_invite, accept_invite, offers_video}

pub record InviteEvent : Type 0 where
  pub room_id : String
  pub call_id : String
  pub sdp : String

-- The other events of a call: the sender matters to two of them.
pub record CallEvent : Type 0 where
  pub sender : String
  pub call_id : String

unfoldable pub handle_invite : CallEnv → InviteEvent → Manager → Manager
handle_invite env e m =
    let room = env.room_info e.room_id in
    if str_eq e.call_id ""
    then m
    else if is_on_call m || not (room.member_count == 2)
    then emit (new_message e.room_id (hangup e.call_id invite_time_out)) m
    else (let t = record m { roomid = e.room_id; callid = e.call_id; remote_candidates = [] } in
        elim (other_member env.local_user room.members) [
          | none ↦ emit undefined_behaviour t
          | some caller ↦ emit new_invite_state (record t {
            call_party = caller.user_id;
            call_party_display_name = name_of caller;
            call_party_avatar_url = room.avatar_url;
            have_call_invite = true;
            call_type = if offers_video e.sdp then video else voice;
            invite_sdp = e.sdp;
          })
        ])

unfoldable pub handle_candidates : CallEnv → CallEvent → List Candidate → Manager → Manager
handle_candidates env e cs m =
    if str_eq e.sender env.local_user
    then m
    else if str_eq m.callid e.call_id
    then (if is_on_call m
        then accept_ice_candidates cs m
        else record m { remote_candidates = m.remote_candidates ++ cs })
    else m

unfoldable pub handle_answer : CallEnv → CallEvent → String → Manager → Manager
handle_answer env e sdp m =
    if str_eq e.sender env.local_user && str_eq m.callid e.call_id
    then (if is_on_call m
        then m
        else emit new_invite_state
            (record (emit (notification "Call answered on another device.") m) {
              have_call_invite = false;
            }))
    else if is_on_call m && str_eq m.callid e.call_id
    then (let (t, accepted) = accept_answer env.media sdp m in
        if accepted
        then t
        else hang_up user_reason (emit (notification "Problem setting up call.") t))
    else m

unfoldable pub handle_hangup : CallEvent → Manager → Manager
handle_hangup e m = if str_eq m.callid e.call_id then end_call m else m

-- The session's `offerCreated`: the invite, the candidates, and the timer for the other side to answer.
unfoldable pub offer_created : String → List Candidate → Manager → Manager
offer_created sdp cs m = emit (start_timer 120000) (
    emit (new_message m.roomid (candidates m.callid cs))
      (emit (new_message m.roomid (invite m.callid sdp)) m))

unfoldable pub answer_created : String → List Candidate → Manager → Manager
answer_created sdp cs m =
    emit (new_message m.roomid (candidates m.callid cs))
      (emit (new_message m.roomid (answer m.callid sdp)) m)

unfoldable pub ice_candidate_found : Candidate → Manager → Manager
ice_candidate_found c m = emit (new_message m.roomid (candidates m.callid (c ∷ []))) m

-- The timer of `offerCreated`, which was started for a call id.
unfoldable pub invite_timed_out : (call_id : String) → Manager → Manager
invite_timed_out call_id m =
    if is_state m.session.state offer_sent && str_eq call_id m.callid
    then emit (notification "The remote side failed to pick up.") (hang_up invite_time_out m)
    else m

pub data Event : Type 0 where
  user_invites : (room : String) → CallType → Event
  user_accepts : Event
  user_hangs_up : Event
  got_invite : InviteEvent → Event
  got_candidates : CallEvent → List Candidate → Event
  got_answer : CallEvent → (sdp : String) → Event
  got_hangup : CallEvent → Event
  session_state : State → Event
  session_ended : Event  -- end of stream, or an error of the pipeline
  session_offer session_answer : (sdp : String) → List Candidate → Event
  session_candidate : Candidate → Event
  timer_fired : (call_id : String) → Event
  turn_uris_cleared : Event
  turn_uris_retrieved : List String → Event

unfoldable pub step : CallEnv → Event → Manager → Manager
step env (user_invites room type) m = (send_invite env room type m).0
step env user_accepts m = accept_invite env m
step env user_hangs_up m = hang_up user_reason m
step env (got_invite e) m = handle_invite env e m
step env (got_candidates e cs) m = handle_candidates env e cs m
step env (got_answer e sdp) m = handle_answer env e sdp m
step env (got_hangup e) m = handle_hangup e m
step env (session_state s) m = session_changed s m
step env session_ended m = end_session m
step env (session_offer sdp cs) m = offer_created sdp cs m
step env (session_answer sdp cs) m = answer_created sdp cs m
step env (session_candidate c) m = ice_candidate_found c m
step env (timer_fired id) m = invite_timed_out id m
step env turn_uris_cleared m = record m { turn_uris = [] }
step env (turn_uris_retrieved uris) m = record m { turn_uris = uris }

unfoldable pub run : CallEnv → List Event → Manager → Manager
run env [] m = m
run env (e ∷ es) m = run env es (step env e m)
