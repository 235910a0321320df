-- ===== src/Voip/Pipeline.antt =====
-- The methods of WebRTCSession that change its state: offers, answers and candidates.
use nheko_library.Base.{
  String, List, [], ◌∷◌, Option, none, some, Bool, true, false, ◌&&◌, leb, str_eq, if◌then◌else◌,
}
use nheko_library.Voip.Session.{
  CallType, voice, video, disconnected, initiating, initiated, offer_sent, state_index, is_state,
  is_video, Session, Media, Description, MediaEnv, clear_session,
}
use nheko_library.Voip.Manager.{
  Candidate, Manager, emit, with_session, session_changed, end_session, set_remote_description,
  add_ice_candidate,
}

abbrev pub clear_in : Manager → Manager
clear_in m = with_session (clear_session m.session) m

module _ (env : MediaEnv) where
  -- `startPipeline`
  unfoldable pub start_pipeline : Manager → Manager × Bool
  start_pipeline m =
      if is_state m.session.state disconnected
      then (let t = session_changed initiating m in
          if env.pipeline_created && env.webrtcbin_found && env.playing
          then (session_changed initiated t, true)
          else (end_session t, false))
      else (m, false)

  unfoldable pub create_offer : CallType → Manager → Manager × Bool
  create_offer type m =
      let t = clear_in m in
      start_pipeline (with_session (record t.session { is_offering = true; session_type = type }) t)

  abbrev pub has_payload : Media → Bool
  has_payload a = elim a.payload_type [ none ↦ false | some _ ↦ true ]

  -- The video section of an offer: what `getMediaAttributes` writes to the two flags.
  abbrev pub with_video : Option Media → Session → Session
  with_video none s = record s { remote_video_recv_only = false; remote_video_send_only = false }
  with_video (some v) s = record s {
    remote_video_recv_only = v.recv_only;
    remote_video_send_only = v.send_only;
  }

  abbrev pub usable : Description → Bool
  usable d = elim d.audio [
    | none ↦ false
    | some a ↦ has_payload a && elim d.video_media [ none ↦ true | some v ↦ has_payload v ]
  ]

  abbrev pub type_of : Description → CallType
  type_of d = elim d.video_media [ none ↦ voice | some _ ↦ video ]

  -- An offer whose sections are usable.
  unfoldable pub offer_started : String → Description → Manager → Manager × Bool
  offer_started sdp d m =
      let s = with_video d.video_media m.session in
      let (t, started) = start_pipeline (with_session (record s { session_type = type_of d }) m) in
      if started then (emit (set_remote_description sdp) t, true) else (t, false)

  -- An offer that parses. Where the audio section is of no use the video section is not read.
  unfoldable pub offer_parsed : String → Description → Manager → Manager × Bool
  offer_parsed sdp d m = if usable d then offer_started sdp d m else elim d.audio [
    | none ↦ (m, false)
    | some a ↦
        if has_payload a
        then (with_session (with_video d.video_media m.session) m, false)
        else (m, false)
  ]

  unfoldable pub accept_offer : String → Manager → Manager × Bool
  accept_offer sdp m =
      if is_state m.session.state disconnected
      then elim (env.parse_sdp sdp) [
        | none ↦ (clear_in m, false)
        | some d ↦ offer_parsed sdp d (clear_in m)
      ]
      else (m, false)

  -- The flags after an answer to a video call; without a video section it counts as receive-only.
  abbrev answer_video : Option Media → Session → Session
  answer_video none s = record s { remote_video_recv_only = true; remote_video_send_only = false }
  answer_video (some v) s = with_video (some v) s

  unfoldable pub accept_answer : String → Manager → Manager × Bool
  accept_answer sdp m =
      if is_state m.session.state offer_sent
      then elim (env.parse_sdp sdp) [
        | none ↦ (end_session m, false)
        | some d ↦ (
          emit (set_remote_description sdp) (
              if is_video m.session.session_type
              then with_session (answer_video d.video_media m.session) m
              else m),
          true,
        )
      ]
      else (m, false)

-- The loop of `acceptICECandidates`.
unfoldable pub add_candidates : List Candidate → Manager → Manager
add_candidates [] m = m
add_candidates (c ∷ cs) m =
    add_candidates cs (if str_eq c.candidate "" then m else emit (add_ice_candidate c) m)

unfoldable pub accept_ice_candidates : List Candidate → Manager → Manager
accept_ice_candidates cs m =
    if leb (state_index initiated) (state_index m.session.state) then add_candidates cs m else m
