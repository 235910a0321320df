-- ===== src/Voip/Disturbance.antt =====
-- What others can do to a call: events of other calls, a second answer; and an accepted call whose
-- pipeline does not start.
use nheko_library.Base.{
  ◌+◌, String, List, [], ◌∷◌, ◌≡◌, refl, ap, sym, ◌∙◌, ◌≢◌, some, Bool, true, false, arith,
  Bool-cases, eq_refl, eq_iff, str_eq, inl, inr,
}
use mathlib.Core.Path.{subst}
use nheko_library.Voip.Session.{
  Description, disconnected, initiating, offer_sent, is_state, Session, clear_session,
}
use nheko_library.Voip.Manager.{
  CallEnv, Candidate, Manager, user_reason, notification, Signal, emit, with_session, is_on_call,
  session_changed,
}
use nheko_library.Voip.Pipeline.{
  start_pipeline, accept_offer, accept_answer, usable, offer_parsed, offer_started, with_video,
  type_of, clear_in,
}
use nheko_library.Voip.Calls.{plugins_for, accept_call, accept_invite}
use nheko_library.Voip.Events.{
  InviteEvent, CallEvent, handle_invite, handle_candidates, handle_answer, handle_hangup, Event,
  got_invite, got_candidates, got_answer, got_hangup, step, run,
}
use nheko_library.Voip.Placing.{with_video-state, plugins_for-state}
use nheko_library.Voip.Accepting.{plugins_for-with_session, accept_invite-ready, emit-Idle}
use nheko_library.Voip.Outcome.{
  Idle, hang_up-ends, hangups, is_hangup, end_session-Idle, end_session-hangups,
}

-- Events of a room that name another call than this.
pub data Foreign (call : String) : Event → Type 0 where
  other_invite : (e : InviteEvent) → str_eq e.call_id call ≡ false → Foreign call (got_invite e)
  other_candidates :
      (e : CallEvent) (cs : List Candidate)
      → str_eq call e.call_id ≡ false
      → Foreign call (got_candidates e cs)
  other_answer :
      (e : CallEvent) (sdp : String)
      → str_eq call e.call_id ≡ false
      → Foreign call (got_answer e sdp)
  other_hangup : (e : CallEvent) → str_eq call e.call_id ≡ false → Foreign call (got_hangup e)

pub data AllForeign (call : String) : List Event → Type 0 where
  none_left : AllForeign call []
  one_more :
      (e : Event) (es : List Event) → Foreign call e → AllForeign call es → AllForeign call (e ∷ es)

-- The manager but for what it sent.
abbrev apart_from_log : Manager → Manager → Manager
apart_from_log m n = record n { log = m.log }

-- All but the log is the same, and no hang-up of the call was sent.
pub record Undisturbed (m n : Manager) : Type 0 where
  pub same : apart_from_log m n ≡ m
  pub not_hung_up : hangups m.callid n ≡ hangups m.callid m

unchanged : (m n : Manager) → n ≡ m → Undisturbed m n
unchanged m n e = record {
  same = ap (λ t. apart_from_log m t) e;
  not_hung_up = ap (λ t. hangups m.callid t) e;
}

emit-Undisturbed :
    (s : Signal) (m : Manager) → is_hangup m.callid s ≡ false → Undisturbed m (emit s m)
unfolding hangups
emit-Undisturbed s m e = record { same = refl; not_hung_up = ground (arith, e) }

step-Undisturbed :
    (env : CallEnv) (e : Event) (m : Manager)
    → is_on_call m ≡ true
    → Foreign m.callid e
    → Undisturbed m (step env e m)
unfolding step handle_invite handle_candidates handle_answer handle_hangup
step-Undisturbed env _ m on (other_invite e f) = elim (Bool-cases (str_eq e.call_id "")) [
  | inl b ↦ rw b (unchanged m m refl)
  | inr b ↦ rw (b, on) (emit-Undisturbed _ m f)
]
step-Undisturbed env _ m on (other_candidates e cs f) = unchanged m _ (ground (arith, f))
step-Undisturbed env _ m on (other_answer e sdp f) = unchanged m _ (ground (arith, f))
step-Undisturbed env _ m on (other_hangup e f) = unchanged m _ (rw f refl)

Undisturbed-trans : (m n o : Manager) → Undisturbed m n → Undisturbed n o → Undisturbed m o
Undisturbed-trans m n o d e = record {
  same = ap (λ t. apart_from_log m t) e.same ∙ d.same;
  not_hung_up =
      subst (λ i. hangups i o ≡ hangups i n) (ap (λ t. t.callid) d.same) e.not_hung_up
      ∙ d.not_hung_up;
}

-- Events of other calls, in any number, leave a running call alone: nothing changes but the log, in
-- which no hang-up of the call is added.
pub run-Undisturbed :
    (env : CallEnv) (es : List Event) (m : Manager)
    → is_on_call m ≡ true
    → AllForeign m.callid es
    → Undisturbed m (run env es m)
unfolding run
run-Undisturbed env [] m on none_left = unchanged m m refl
run-Undisturbed env (e ∷ es) m on (one_more _ _ f fs) =
    let d = step-Undisturbed env e m on f in
    Undisturbed-trans m (step env e m) _ d (
      run-Undisturbed env es (step env e m) (ap (λ t. is_on_call t) d.same ∙ on)
        (subst (λ i. AllForeign i es) (sym (ap (λ t. t.callid) d.same)) fs))

-- An answer of another user to the call that is going on, when its session is not waiting for one (in
-- any state but OFFERSENT), hangs the call up: it sends a hang-up, disconnects and clears all.
pub handle_answer-again :
    (env : CallEnv) (e : CallEvent) (sdp : String) (m : Manager)
    → e.sender ≢ env.local_user
    → m.callid ≡ e.call_id
    → m.callid ≢ ""
    → is_on_call m ≡ true
    → is_state m.session.state offer_sent ≡ false
    → Idle (handle_answer env e sdp m)
      × ((handle_answer env e sdp m).session.state ≡ disconnected)
      × (hangups m.callid (handle_answer env e sdp m) ≡ hangups m.callid m + 1)
unfolding handle_answer accept_answer hangups
handle_answer-again env e sdp m s c n on w =
    let other : str_eq e.sender env.local_user ≡ false =
      ground (arith, s, eq_iff e.sender env.local_user) in
    let this = ap (λ t. str_eq t e.call_id) c ∙ eq_refl e.call_id in
    let h = (hang_up-ends user_reason (emit (notification "Problem setting up call.") m)).0 n in
    rw (other, this, on, w) (h.0, h.1, h.2)

-- A start that fails, clears the call and sends no hang-up.
record GivesUp (id : String) (m : Manager) (r : Manager × Bool) : Type 0 where
  pub failed : r.1 ≡ false
  pub idle : Idle r.0
  pub quiet : hangups id r.0 ≡ hangups id m

hangups-same :
    (id : String) (m n : Manager) (s : Session) → n ≡ with_session s m → hangups id n ≡ hangups id m
unfolding hangups
hangups-same id m n s e = ap (λ t. hangups id t) e

module _ (env : CallEnv) (id : String) (broken : env.media.pipeline_created ≡ false) where
  start_pipeline-GivesUp :
      (s : Session) (m : Manager)
      → s.state ≡ disconnected
      → GivesUp id m (start_pipeline env.media (with_session s m))
  unfolding start_pipeline session_changed hangups
  start_pipeline-GivesUp s m off =
      let t = session_changed initiating (with_session s m) in
      let on : is_state s.state disconnected ≡ true = ap (λ t. is_state t disconnected) off in
      rw (on, broken, start_pipeline)
        (record { failed = refl; idle = end_session-Idle t refl; quiet = end_session-hangups id t })

  offer_parsed-GivesUp :
      (sdp : String) (d : Description) (m : Manager)
      → m.session.state ≡ disconnected
      → usable env.media d ≡ true
      → GivesUp id m (offer_parsed env.media sdp d m)
  unfolding offer_parsed offer_started
  offer_parsed-GivesUp sdp d m off u =
      let g =
        start_pipeline-GivesUp
          (record (with_video env.media d.video_media m.session) {
            session_type = type_of env.media d;
          })
          m (with_video-state env d.video_media m.session ∙ off) in
      rw (u, g.failed, offer_parsed, offer_started)
        (record { failed = refl; idle = g.idle; quiet = g.quiet })

  accept_offer-GivesUp :
      (sdp : String) (d : Description) (m : Manager)
      → m.session.state ≡ disconnected
      → env.media.parse_sdp sdp ≡ some d
      → usable env.media d ≡ true
      → GivesUp id m (accept_offer env.media sdp m)
  unfolding accept_offer clear_session hangups
  accept_offer-GivesUp sdp d m off p u =
      let on : is_state m.session.state disconnected ≡ true =
        ap (λ t. is_state t disconnected) off in
      let g = offer_parsed-GivesUp sdp d (clear_in m) off u in
      rw (on, p, accept_offer) (record { failed = g.failed; idle = g.idle; quiet = g.quiet })

  accept_call-silent :
      (d : Description) (m : Manager)
      → m.session.state ≡ disconnected
      → env.media.parse_sdp m.invite_sdp ≡ some d
      → usable env.media d ≡ true
      → Idle (accept_call env m) × (hangups id (accept_call env m) ≡ hangups id m)
  unfolding accept_call hangups
  accept_call-silent d m off p u =
      let t = with_session (record m.session { turn_servers = m.turn_uris }) m in
      let g = accept_offer-GivesUp m.invite_sdp d t off p u in
      let n =
        emit (notification "Problem setting up call.") (accept_offer env.media m.invite_sdp t).0 in
      rw (g.failed, (hang_up-ends user_reason n).1 g.idle.no_call, accept_call)
        (emit-Idle _ g.idle, g.quiet)

-- An invite that rings and is accepted, with the session disconnected, the plugins there and an offer
-- that is usable, while GStreamer cannot make a pipeline: all is cleared, and no hang-up is sent for
-- any call, so that the caller is not told.
pub accept_invite-silent :
    (env : CallEnv) (d : Description) (id : String) (m : Manager)
    → m.have_call_invite ≡ true
    → m.session.state ≡ disconnected
    → (plugins_for env m.call_type m).1 ≡ true
    → env.media.parse_sdp m.invite_sdp ≡ some d
    → usable env.media d ≡ true
    → env.media.pipeline_created ≡ false
    → Idle (accept_invite env m) × (hangups id (accept_invite env m) ≡ hangups id m)
accept_invite-silent env d id m i off r p u g =
    let q = plugins_for-with_session env m.call_type m in
    let t = (plugins_for env m.call_type m).0 in
    let s =
      accept_call-silent env id g d t (plugins_for-state env m.call_type m ∙ off)
        (ap (λ n. env.media.parse_sdp n.invite_sdp) q ∙ p) u in
    subst (λ n. Idle n × (hangups id n ≡ hangups id m)) (sym (accept_invite-ready env m i r))
      (s.0, s.1 ∙ hangups-same id m t _ q)
