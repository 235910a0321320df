-- ===== src/Voip/Session.antt =====
-- voip/WebRTCSession.{h,cpp}, the branch with GStreamer: the fields that decide what a call may do,
-- and what GStreamer and the device list answer, which is a parameter.
use nheko_library.Base.{ℕ, String, List, Option, Bool, true, false, not, ◌&&◌, ◌==◌, if◌then◌else◌}

pub data CallType : Type 0 where
  voice video : CallType

pub data State : Type 0 where
  disconnected ice_failed initiating initiated offer_sent answer_sent connecting connected : State

-- The order of the enumeration, which `state_ >= State::INITIATED` reads.
abbrev pub state_index : State → ℕ
state_index disconnected = 0
state_index ice_failed = 1
state_index initiating = 2
state_index initiated = 3
state_index offer_sent = 4
state_index answer_sent = 5
state_index connecting = 6
state_index connected = 7

abbrev pub is_state : State → State → Bool
is_state s t = state_index s == state_index t

abbrev pub is_video : CallType → Bool
is_video video = true
is_video voice = false

pub record Session : Type 0 where
  pub state : State
  pub session_type : CallType
  pub is_offering : Bool
  pub remote_video_recv_only : Bool
  pub remote_video_send_only : Bool
  pub turn_servers : List String
  pub initialised : Bool
  pub have_voice_plugins : Bool
  pub have_video_plugins : Bool

-- One media section of a session description, as `getMediaAttributes` reads it; `none` is -1.
pub record Media : Type 0 where
  pub payload_type : Option ℕ
  pub recv_only : Bool
  pub send_only : Bool

-- A session description that parses: its first audio section and its first video section.
pub record Description : Type 0 where
  pub audio : Option Media
  pub video_media : Option Media

-- How GStreamer answers. The three results of starting a pipeline are those of `createPipeline`, of
-- the search for webrtcbin, and of the change to PLAYING.
pub record MediaEnv : Type 0 where
  pub gst_init : Bool
  pub plugins_found : (is_video : Bool) → Bool
  pub plugins_error : String  -- the message that `havePlugins` composes
  pub parse_sdp : String → Option Description
  pub pipeline_created : Bool
  pub webrtcbin_found : Bool
  pub playing : Bool
  pub have_camera : Bool
  pub have_mic : Bool

-- `havePlugins`: the session after it, and its answer.
unfoldable pub have_plugins : MediaEnv → Bool → Session → Session × Bool
have_plugins env v s =
    if not s.initialised && not env.gst_init
    then (s, false)
    else (let t = record s { initialised = true } in
        if v
        then (if s.have_video_plugins
            then (t, true)
            else (record t { have_video_plugins = env.plugins_found true }, env.plugins_found true))
        else if s.have_voice_plugins
        then (t, true)
        else (record t { have_voice_plugins = env.plugins_found false }, env.plugins_found false))

-- `clear`: neither the state nor the servers.
unfoldable pub clear_session : Session → Session
clear_session s = record s {
  session_type = voice;
  is_offering = false;
  remote_video_recv_only = false;
  remote_video_send_only = false;
}
