-- ===== src/Voip/Placing.antt =====
-- `sendInvite` and `acceptInvite` as wholes: how they come out in all their branches.
use nheko_library.Base.{
  String, [], ◌∷◌, ◌≡◌, refl, ap, ◌∙◌, inl, inr, Option, none, some, Bool, true, false, arith,
  Bool-cases, Option-cases, concat, if◌then◌else◌,
}
use nheko_library.Voip.Session.{
  CallType, Description, Media, disconnected, initiated, is_state, Session, MediaEnv, clear_session,
  have_plugins,
}
use nheko_library.Voip.Manager.{
  CallEnv, Manager, Room, new_invite_state, emit, with_session, is_on_call,
}
use nheko_library.Voip.Pipeline.{
  create_offer, accept_offer, with_video, type_of, clear_in, offer_started, offer_parsed, usable,
  has_payload,
}
use nheko_library.Voip.Calls.{plugins_for, place_call, send_invite, other_member, name_of}
use nheko_library.Voip.Outcome.{
  end_call-disconnected, delivered, Starts, start_pipeline-with_session, is_disconnected,
}

have_plugins-state :
    (env : MediaEnv) (v : Bool) (s : Session) → (have_plugins env v s).0.state ≡ s.state
unfolding have_plugins
have_plugins-state env v s = ground arith

module _ (env : CallEnv) where
  pub plugins_for-state :
      (type : CallType) (m : Manager) → (plugins_for env type m).0.session.state ≡ m.session.state
  unfolding plugins_for
  plugins_for-state type m = ground (
    arith,
    have_plugins-state env.media false m.session,
    have_plugins-state env.media true (have_plugins env.media false m.session).0,
  )

  create_offer-Starts :
      (type : CallType) (m : Manager)
      → m.session.state ≡ disconnected
      → Starts m (create_offer env.media type m)
  unfolding create_offer clear_session
  create_offer-Starts type m d =
      start_pipeline-with_session env.media
        (record (clear_session m.session) { is_offering = true; session_type = type }) m d

  place_call-outcome :
      (roomid : String) (type : CallType) (room : Room) (m : Manager)
      → m.session.state ≡ disconnected
      → ((place_call env roomid type room m).1 ≡ true
          → ((place_call env roomid type room m).0.session.state ≡ initiated)
            × ((place_call env roomid type room m).0.callid ≡ concat ("c" ∷ env.milliseconds ∷ []))
            × ((place_call env roomid type room m).0.roomid ≡ roomid))
        × ((place_call env roomid type room m).1 ≡ false
            → (place_call env roomid type room m).0.session.state ≡ disconnected)
  unfolding place_call
  place_call-outcome roomid type room m d =
      elim (Option-cases (other_member env.local_user room.members)) [
        | inl e ↦ rw (e, place_call) (ground (arith, d))
        | inr (c, e) ↦
            rw (e, place_call)
              (let s =
                  create_offer-Starts type
                    (emit new_invite_state (record m {
                      roomid = roomid;
                      call_party = c.user_id;
                      call_party_display_name = name_of c;
                      call_party_avatar_url = room.avatar_url;
                      callid = concat ("c" ∷ env.milliseconds ∷ []);
                      call_type = type;
                      session = record m.session { turn_servers = m.turn_uris };
                    }))
                    d in
                grind (arith, s.running, s.same_call, end_call-disconnected))
      ]

  -- An invite that is placed was so without a call going on and in a room of two, and leaves the session
  -- started for a new call in this room; one that is not placed leaves the session in the state it was in.
  pub send_invite-outcome :
      (roomid : String) (type : CallType) (m : Manager)
      → ((send_invite env roomid type m).1 ≡ true
          → ((send_invite env roomid type m).0.session.state ≡ initiated)
            × ((send_invite env roomid type m).0.callid ≡ concat ("c" ∷ env.milliseconds ∷ []))
            × ((send_invite env roomid type m).0.roomid ≡ roomid)
            × (is_on_call m ≡ false)
            × ((env.room_info roomid).member_count ≡ 2))
        × ((send_invite env roomid type m).1 ≡ false
            → (send_invite env roomid type m).0.session.state ≡ m.session.state)
  unfolding send_invite
  send_invite-outcome roomid type m = ground (
    arith,
    plugins_for-state type m,
    is_disconnected m.session.state,
    place_call-outcome roomid type (env.room_info roomid) (plugins_for env type m).0,
  )

  pub with_video-state :
      (v : Option Media) (s : Session) → (with_video env.media v s).state ≡ s.state
  with_video-state none s = refl
  with_video-state (some v) s = refl

  offer_started-Starts :
      (sdp : String) (d : Description) (m : Manager)
      → m.session.state ≡ disconnected
      → Starts m (offer_started env.media sdp d m)
  unfolding offer_started delivered
  offer_started-Starts sdp d m off =
      let s =
        start_pipeline-with_session env.media
          (record (with_video env.media d.video_media m.session) {
            session_type = type_of env.media d;
          })
          m (with_video-state d.video_media m.session ∙ off) in
      record {
        running = ground (arith, s.running);
        same_call = ground (arith, s.same_call);
        same_candidates = ground (arith, s.same_candidates);
        stopped = ground (arith, s.stopped);
        cleared = ground (arith, s.cleared);
      }

  unstarted :
      (m n : Manager) → n.session.state ≡ disconnected → n.callid ≡ m.callid → Starts m (n, false)
  unstarted m n off e = record {
    running = ground arith;
    same_call = ground arith;
    same_candidates = ground arith;
    stopped = λ _. off;
    cleared = λ _. inr e;
  }

  Starts-session :
      (s : Session) (m : Manager) (r : Manager × Bool) → Starts (with_session s m) r → Starts m r
  Starts-session s m r t = record {
    running = t.running;
    same_call = t.same_call;
    same_candidates = t.same_candidates;
    stopped = t.stopped;
    cleared = t.cleared;
  }

  -- The offer's audio section is of no use, or its video section is not.
  offer_unread-Starts :
      (d : Description) (a : Media) (m : Manager)
      → m.session.state ≡ disconnected
      → Starts m (
          if has_payload env.media a
          then (with_session (with_video env.media d.video_media m.session) m, false)
          else (m, false))
  offer_unread-Starts d a m off = elim (Bool-cases (has_payload env.media a)) [
    | inl h ↦ rw h (unstarted m _ (with_video-state d.video_media m.session ∙ off) refl)
    | inr h ↦ rw h (unstarted m m off refl)
  ]

  offer_parsed-Starts :
      (sdp : String) (d : Description) (m : Manager)
      → m.session.state ≡ disconnected
      → Starts m (offer_parsed env.media sdp d m)
  unfolding offer_parsed
  offer_parsed-Starts sdp d m off = elim (Bool-cases (usable env.media d)) [
    | inl u ↦ rw (u, offer_parsed) (offer_started-Starts sdp d m off)
    | inr u ↦ elim (Option-cases d.audio) [
      | inl a ↦ rw (u, a, offer_parsed) (unstarted m m off refl)
      | inr (a, e) ↦ rw (u, e, offer_parsed) (offer_unread-Starts d a m off)
    ]
  ]

  pub accept_offer-Starts :
      (sdp : String) (m : Manager)
      → m.session.state ≡ disconnected
      → Starts m (accept_offer env.media sdp m)
  unfolding accept_offer clear_session
  accept_offer-Starts sdp m off =
      let on : is_state m.session.state disconnected ≡ true =
        ap (λ s. is_state s disconnected) off in
      elim (Option-cases (env.media.parse_sdp sdp)) [
        | inl e ↦ rw (on, e, accept_offer) (unstarted m (clear_in m) off refl)
        | inr (d, e) ↦
            rw (on, e, accept_offer)
              (Starts-session _ m _ (offer_parsed-Starts sdp d (clear_in m) off))
      ]
