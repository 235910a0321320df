-- ===== src/Voip/Manager.antt =====
-- CallManager: its state, and the calls that leave it, in a log with the latest first. `clear`, and
-- what the session's signal `stateChanged` brings about.
use nheko_library.Base.{ℕ, String, List, [], ◌∷◌, Bool, false, not, str_eq, if◌then◌else◌}
use nheko_library.Voip.Session.{
  CallType, voice, State, disconnected, ice_failed, is_state, Session, MediaEnv, clear_session,
}

pub data Reason : Type 0 where
  ice_failed_reason invite_time_out ice_time_out user_hang_up user_media_failed user_busy : Reason
  unknown_error user_reason : Reason

pub record Candidate : Type 0 where
  pub mline_index : ℕ
  pub candidate : String

pub record Member : Type 0 where
  pub user_id : String
  pub display_name : String

-- What the cache knows of a room.
pub record Room : Type 0 where
  pub member_count : ℕ
  pub avatar_url : String
  pub members : List Member

-- The cache, the user, the clock and the libraries of voice over IP.
pub record CallEnv : Type 0 where
  pub local_user : String
  pub room_info : String → Room
  pub milliseconds : String  -- std::to_string of the time in milliseconds
  pub media : MediaEnv

pub data Sent : Type 0 where
  invite : (call_id sdp : String) → Sent
  candidates : (call_id : String) → List Candidate → Sent
  answer : (call_id sdp : String) → Sent
  hangup : (call_id : String) → Reason → Sent

pub data Signal : Type 0 where
  new_message : (room : String) → Sent → Signal
  new_invite_state new_call_state : Signal
  notification : String → Signal
  start_timer : ℕ → Signal
  set_remote_description : String → Signal
  add_ice_candidate : Candidate → Signal
  undefined_behaviour : Signal

pub record Manager : Type 0 where
  pub roomid : String
  pub call_party : String
  pub call_party_display_name : String
  pub call_party_avatar_url : String
  pub callid : String
  pub call_type : CallType
  pub have_call_invite : Bool
  pub invite_sdp : String
  pub remote_candidates : List Candidate
  pub turn_uris : List String
  pub session : Session
  pub log : List Signal

abbrev pub emit : Signal → Manager → Manager
emit s m = record m { log = s ∷ m.log }

abbrev pub with_session : Session → Manager → Manager
with_session s m = record m { session = s }

abbrev pub is_on_call : Manager → Bool
is_on_call m = not (is_state m.session.state disconnected)

unfoldable pub clear : Manager → Manager
clear m =
    record (emit new_invite_state (record m {
      roomid = "";
      call_party = "";
      call_party_display_name = "";
      call_party_avatar_url = "";
      callid = "";
      call_type = voice;
      have_call_invite = false;
    })) { invite_sdp = ""; remote_candidates = [] }

abbrev pub set_session_state : State → Manager → Manager
set_session_state s m = with_session (record m.session { state = s }) m

-- `emit stateChanged(DISCONNECTED)`: the session's slot, and then the manager's.
unfoldable pub session_disconnected : Manager → Manager
session_disconnected m = emit new_call_state (clear (set_session_state disconnected m))

-- `WebRTCSession::end`
unfoldable pub end_session : Manager → Manager
end_session m =
    let t = with_session (clear_session m.session) m in
    if is_state m.session.state disconnected then t else session_disconnected t

unfoldable pub end_call : Manager → Manager
end_call m = clear (end_session m)

unfoldable pub hang_up : Reason → Manager → Manager
hang_up r m =
    if str_eq m.callid "" then m else end_call (emit (new_message m.roomid (hangup m.callid r)) m)

abbrev connection_failed : List String → String
connection_failed [] = "Call connection failed. Your homeserver has no configured TURN server."
connection_failed (_ ∷ _) = "Call connection failed."

-- The slots of `stateChanged`.
unfoldable pub session_changed : State → Manager → Manager
session_changed disconnected m = session_disconnected m
session_changed ice_failed m = emit new_call_state (
    hang_up ice_failed_reason
      (emit (notification (connection_failed m.turn_uris)) (set_session_state ice_failed m)))
session_changed s m = emit new_call_state (set_session_state s m)
