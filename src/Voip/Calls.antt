-- ===== src/Voip/Calls.antt =====
-- What the user does: `sendInvite`, `acceptInvite`; and the search for video in an offer.
use Prim.Native.Char.{code}
use nheko_library.Base.{
  ℕ, ◌+◌, String, List, [], ◌∷◌, Option, none, some, Bool, true, false, not, ◌&&◌, ◌||◌, leb, ◌==◌,
  str_eq, concat, if◌then◌else◌,
}
use nheko_library.Voip.Session.{CallType, is_video, have_plugins}
use nheko_library.Voip.Manager.{
  Member, Room, CallEnv, Manager, user_reason, emit, with_session, is_on_call, end_call, hang_up,
  notification, new_invite_state, undefined_behaviour,
}
use nheko_library.Voip.Pipeline.{create_offer, accept_offer, accept_ice_candidates}

abbrev last_of : Member → List Member → Member
last_of m [] = m
last_of m (n ∷ ns) = last_of n ns

-- `members.front().user_id == localUser() ? members.back() : members.front()`; `front` of an empty
-- vector is undefined.
unfoldable pub other_member : String → List Member → Option Member
other_member user_id [] = none
other_member user_id (m ∷ ms) = some (if str_eq m.user_id user_id then last_of m ms else m)

abbrev pub name_of : Member → String
name_of m = if str_eq m.display_name "" then m.user_id else m.display_name

-- Whether a pair of calls of `havePlugins` succeeds: for voice, and for video where it is needed.
unfoldable pub plugins_for : CallEnv → CallType → Manager → Manager × Bool
plugins_for env type m =
    let (s, voice_ok) = have_plugins env.media false m.session in
    if voice_ok && is_video type
    then (let (t, video_ok) = have_plugins env.media true s in (with_session t m, video_ok))
    else (with_session s m, voice_ok)

-- `sendInvite` behind its checks.
unfoldable pub place_call : CallEnv → String → CallType → Room → Manager → Manager × Bool
place_call env roomid type room m =
    let t = record m {
      call_type = type;
      roomid = roomid;
      callid = concat ("c" ∷ env.milliseconds ∷ []);
      session = record m.session { turn_servers = m.turn_uris };
    } in
    elim (other_member env.local_user room.members) [
      | none ↦ (emit undefined_behaviour t, false)
      | some callee ↦
          let u = emit new_invite_state (record t {
            call_party = callee.user_id;
            call_party_display_name = name_of callee;
            call_party_avatar_url = room.avatar_url;
          }) in
          let (v, created) = create_offer env.media type u in
          if created
          then (v, true)
          else (end_call (emit (notification "Problem setting up call.") v), false)
    ]

unfoldable pub send_invite : CallEnv → String → CallType → Manager → Manager × Bool
send_invite env roomid type m =
    let room = env.room_info roomid in
    if is_on_call m
    then (m, false)
    else if not (room.member_count == 2)
    then (emit (notification "Calls are limited to 1:1 rooms.") m, false)
    else (let (t, ready) = plugins_for env type m in
        if not ready
        then (emit (notification env.media.plugins_error) t, false)
        else if is_video type && not env.media.have_camera
        then (emit (notification "Camera not connected!") t, false)
        else if not (is_video type) && not env.media.have_mic
        then (emit (notification "Microphone not connected!") t, false)
        else place_call env roomid type room t)

-- `acceptInvite` behind its checks.
unfoldable pub accept_call : CallEnv → Manager → Manager
accept_call env m =
    let (t, accepted) =
      accept_offer env.media m.invite_sdp
        (with_session (record m.session { turn_servers = m.turn_uris }) m) in
    if accepted
    then emit new_invite_state (record (accept_ice_candidates t.remote_candidates t) {
      remote_candidates = [];
      have_call_invite = false;
    })
    else hang_up user_reason (emit (notification "Problem setting up call.") t)

unfoldable pub accept_invite : CallEnv → Manager → Manager
accept_invite env m =
    if m.have_call_invite
    then (let (t, ready) = plugins_for env m.call_type m in
        if ready
        then accept_call env t
        else hang_up user_reason (emit (notification env.media.plugins_error) t))
    else m

-- `std::tolower` in the C locale.
abbrev pub to_lower : ℕ → ℕ
to_lower c = if leb b'A' c && leb c b'Z' then c + 32 else c

abbrev pub codes : String → List ℕ
codes String.[] = []
codes (String.◌∷◌ c s) = code c ∷ codes s

-- `std::search` with letters of both cases alike: does the text begin with, or hold, the word?
unfoldable pub begins_ci : (word text : List ℕ) → Bool
begins_ci [] text = true
begins_ci (w ∷ word) [] = false
begins_ci (w ∷ word) (c ∷ text) = to_lower w == to_lower c && begins_ci word text

unfoldable pub holds_ci : (word text : List ℕ) → Bool
holds_ci word [] = begins_ci word []
holds_ci word (c ∷ text) = begins_ci word (c ∷ text) || holds_ci word text

unfoldable pub offers_video : String → Bool
offers_video sdp = holds_ci (codes "m=video") (codes sdp)
