-- ===== src/Voip/Outcome.antt =====
-- How placing, accepting and ending a call come out: in all cases either the session runs or it is
-- disconnected, and an end clears what the call left.
use nheko_library.Base.{
  ℕ, ◌+◌, String, List, [], ◌∷◌, ◌++◌, ◌≡◌, refl, ap, ◌∙◌, ◌⊎◌, ◌≢◌, Bool, true, false, arith,
  count_if, eq_refl, eq_iff, str_eq,
}
use nheko_library.Voip.Session.{
  State, disconnected, initiating, initiated, offer_sent, ice_failed, answer_sent, connecting,
  connected, is_state, Session, MediaEnv, clear_session,
}
use nheko_library.Voip.Manager.{
  Candidate, add_ice_candidate, Manager, Reason, hangup, Signal, new_message, emit, with_session,
  clear, session_disconnected, end_session, end_call, hang_up, session_changed,
}
use nheko_library.Voip.Pipeline.{start_pipeline}

-- Nothing is left of a call.
pub record Idle (m : Manager) : Type 0 where
  pub no_call : m.callid ≡ ""
  pub no_room : m.roomid ≡ ""
  pub no_party : m.call_party ≡ ""
  pub no_invite : m.have_call_invite ≡ false
  pub no_sdp : m.invite_sdp ≡ ""
  pub no_candidates : m.remote_candidates ≡ []

clear-Idle : (m : Manager) → Idle (clear m)
unfolding clear
clear-Idle m = record {
  no_call = refl;
  no_room = refl;
  no_party = refl;
  no_invite = refl;
  no_sdp = refl;
  no_candidates = refl;
}

pub end_call-Idle : (m : Manager) → Idle (end_call m)
unfolding end_call
end_call-Idle m = clear-Idle _

pub is_disconnected : (s : State) → is_state s disconnected ≡ true → s ≡ disconnected
is_disconnected disconnected e = refl
is_disconnected ice_failed e = ground arith
is_disconnected initiating e = ground arith
is_disconnected initiated e = ground arith
is_disconnected offer_sent e = ground arith
is_disconnected answer_sent e = ground arith
is_disconnected connecting e = ground arith
is_disconnected connected e = ground arith

-- `end` leaves the session disconnected whatever its state was.
end_session-disconnected : (m : Manager) → (end_session m).session.state ≡ disconnected
unfolding end_session session_disconnected clear clear_session
end_session-disconnected m = ground (arith, is_disconnected m.session.state)

clear-session : (m : Manager) → (clear m).session ≡ m.session
unfolding clear
clear-session m = refl

pub end_call-disconnected : (m : Manager) → (end_call m).session.state ≡ disconnected
unfolding end_call
end_call-disconnected m = ap (λ s. s.state) (clear-session _) ∙ end_session-disconnected m

-- The messages in a log that hang up a call.
abbrev pub is_hangup : String → Signal → Bool
is_hangup id (new_message room (hangup call r)) = str_eq call id
is_hangup id _ = false

unfoldable pub hangups : String → Manager → ℕ
hangups id m = count_if (is_hangup id) m.log

clear-hangups : (id : String) (m : Manager) → hangups id (clear m) ≡ hangups id m
unfolding hangups clear
clear-hangups id m = refl

pub end_session-hangups : (id : String) (m : Manager) → hangups id (end_session m) ≡ hangups id m
unfolding hangups end_session session_disconnected clear clear_session
end_session-hangups id m = ground arith

end_call-hangups : (id : String) (m : Manager) → hangups id (end_call m) ≡ hangups id m
unfolding end_call
end_call-hangups id m = clear-hangups id _ ∙ end_session-hangups id m

emit-hangup :
    (r : Reason) (m : Manager)
    → hangups m.callid (emit (new_message m.roomid (hangup m.callid r)) m) ≡ hangups m.callid m + 1
unfolding hangups
emit-hangup r m = ground (arith, eq_refl m.callid)

-- Hanging up a call sends one hang-up for it, disconnects the session, and leaves nothing of the call;
-- without a call it does nothing at all.
pub hang_up-ends :
    (r : Reason) (m : Manager)
    → (m.callid ≢ ""
        → Idle (hang_up r m)
          × ((hang_up r m).session.state ≡ disconnected)
          × (hangups m.callid (hang_up r m) ≡ hangups m.callid m + 1))
      × (m.callid ≡ "" → hang_up r m ≡ m)
unfolding hang_up
hang_up-ends r m = ground (
  arith,
  eq_iff m.callid "",
  end_call-Idle (emit (new_message m.roomid (hangup m.callid r)) m),
  end_call-disconnected (emit (new_message m.roomid (hangup m.callid r)) m),
  end_call-hangups m.callid (emit (new_message m.roomid (hangup m.callid r)) m),
  emit-hangup r m,
)

session_disconnected-Idle : (m : Manager) → Idle (session_disconnected m)
unfolding session_disconnected clear
session_disconnected-Idle m = record {
  no_call = refl;
  no_room = refl;
  no_party = refl;
  no_invite = refl;
  no_sdp = refl;
  no_candidates = refl;
}

pub end_session-Idle :
    (m : Manager) → is_state m.session.state disconnected ≡ false → Idle (end_session m)
unfolding end_session
end_session-Idle m e = rw e (session_disconnected-Idle _)

-- The candidates that the peer connection was given, in order.
unfoldable pub delivered : List Signal → List Candidate
delivered [] = []
delivered (add_ice_candidate c ∷ log) = delivered log ++ c ∷ []
delivered (_ ∷ log) = delivered log

-- What starting a session comes to, where it was disconnected before: the session is under way and the
-- call as it was, or the session is disconnected and the call cleared or as it was.
pub record Starts (m : Manager) (r : Manager × Bool) : Type 0 where
  pub running : r.1 ≡ true → r.0.session.state ≡ initiated
  pub same_call : r.1 ≡ true → (r.0.callid ≡ m.callid) × (r.0.roomid ≡ m.roomid)
  pub same_candidates :
      r.1 ≡ true
      → (r.0.remote_candidates ≡ m.remote_candidates) × (delivered r.0.log ≡ delivered m.log)
  pub stopped : r.1 ≡ false → r.0.session.state ≡ disconnected
  pub cleared : r.1 ≡ false → Idle r.0 ⊎ (r.0.callid ≡ m.callid)

module _ (env : MediaEnv) where
  pub start_pipeline-Starts :
      (m : Manager) → m.session.state ≡ disconnected → Starts m (start_pipeline env m)
  unfolding start_pipeline session_changed delivered
  start_pipeline-Starts m d =
      let off = end_session-disconnected (session_changed initiating m) in
      let clean = end_session-Idle (session_changed initiating m) refl in
      record {
        running = ground arith;
        same_call = ground arith;
        same_candidates = ground arith;
        stopped = ground (arith, off);
        cleared = ground (arith, clean);
      }

  pub start_pipeline-with_session :
      (s : Session) (m : Manager)
      → s.state ≡ disconnected
      → Starts m (start_pipeline env (with_session s m))
  start_pipeline-with_session s m d =
      let r = start_pipeline-Starts (with_session s m) d in
      record {
        running = r.running;
        same_call = r.same_call;
        same_candidates = r.same_candidates;
        stopped = r.stopped;
        cleared = r.cleared;
      }
