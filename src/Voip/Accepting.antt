-- ===== src/Voip/Accepting.antt =====
-- `acceptInvite` as a whole, and the candidates that came before it.
use nheko_library.Base.{
  String, List, [], ◌∷◌, ◌≡◌, refl, ap, sym, ◌∙◌, ◌⊎◌, inl, inr, ◌≢◌, true, false, ◌&&◌, arith,
  Bool-cases, str_eq,
}
use mathlib.Core.Path.{subst}
use nheko_library.Voip.Session.{CallType, disconnected, initiated, is_video, have_plugins}
use nheko_library.Voip.Manager.{
  CallEnv, Candidate, add_ice_candidate, Manager, Reason, user_reason, Signal, emit, with_session,
  hang_up, notification,
}
use nheko_library.Voip.Pipeline.{accept_offer, accept_ice_candidates, add_candidates}
use nheko_library.Voip.Calls.{plugins_for, accept_call, accept_invite}
use nheko_library.Voip.Outcome.{Idle, hang_up-ends}
use nheko_library.Voip.Placing.{accept_offer-Starts, plugins_for-state}

-- Adding candidates writes to the log alone.
pub add_candidates-same :
    (cs : List Candidate) (m : Manager)
    → ((add_candidates cs m).session ≡ m.session) × ((add_candidates cs m).callid ≡ m.callid)
unfolding add_candidates
add_candidates-same [] m = (refl, refl)
add_candidates-same (c ∷ cs) m = elim (Bool-cases (str_eq c.candidate "")) [
  | inl e ↦ rw (e, add_candidates) (add_candidates-same cs m)
  | inr e ↦ rw (e, add_candidates) (add_candidates-same cs (emit (add_ice_candidate c) m))
]

pub accept_ice_candidates-same :
    (cs : List Candidate) (m : Manager)
    → ((accept_ice_candidates cs m).session ≡ m.session)
      × ((accept_ice_candidates cs m).callid ≡ m.callid)
unfolding accept_ice_candidates
accept_ice_candidates-same cs m = ground (arith, add_candidates-same cs m)

-- A call that did not start, hung up.
hang_up-Idle :
    (r : Reason) (m : Manager)
    → m.session.state ≡ disconnected
    → Idle m ⊎ (m.callid ≢ "")
    → Idle (hang_up r m) × ((hang_up r m).session.state ≡ disconnected)
hang_up-Idle r m off (inl i) = rw ((hang_up-ends r m).1 i.no_call) (i, off)
hang_up-Idle r m off (inr c) = let h = (hang_up-ends r m).0 c in (h.0, h.1)

pub emit-Idle : (s : Signal) {m : Manager} → Idle m → Idle (emit s m)
emit-Idle s i = record {
  no_call = i.no_call;
  no_room = i.no_room;
  no_party = i.no_party;
  no_invite = i.no_invite;
  no_sdp = i.no_sdp;
  no_candidates = i.no_candidates;
}

emit-call :
    (s : Signal) (m : Manager) (call : String)
    → call ≢ ""
    → Idle m ⊎ (m.callid ≡ call)
    → Idle (emit s m) ⊎ (m.callid ≢ "")
emit-call s m call c (inl i) = inl (emit-Idle s i)
emit-call s m call c (inr e) = inr (λ z. c (sym e ∙ z))

-- The invite is accepted, or all is over.
pub record Accepted (call : String) (n : Manager) : Type 0 where
  pub running : n.session.state ≡ initiated
  pub same_call : n.callid ≡ call
  pub no_invite : n.have_call_invite ≡ false
  pub none_pending : n.remote_candidates ≡ []

module _ (env : CallEnv) where
  pub plugins_for-with_session :
      (type : CallType) (m : Manager)
      → (plugins_for env type m).0 ≡ with_session (plugins_for env type m).0.session m
  unfolding plugins_for
  plugins_for-with_session type m =
      elim (Bool-cases ((have_plugins env.media false m.session).1 && is_video type)) [
        | inl e ↦ rw (e, plugins_for) refl
        | inr e ↦ rw (e, plugins_for) refl
      ]

  accept_call-outcome :
      (m : Manager)
      → m.callid ≢ ""
      → m.session.state ≡ disconnected
      → Accepted m.callid (accept_call env m)
        ⊎ (Idle (accept_call env m) × ((accept_call env m).session.state ≡ disconnected))
  unfolding accept_call
  accept_call-outcome m c off =
      let u = with_session (record m.session { turn_servers = m.turn_uris }) m in
      let s = accept_offer-Starts env u.invite_sdp u off in
      let r = accept_offer env.media u.invite_sdp u in
      let k = accept_ice_candidates-same r.0.remote_candidates r.0 in
      elim (Bool-cases r.1) [
        | inl e ↦
            rw (e, accept_call)
              (inl (record {
                running = ap (λ t. t.state) k.0 ∙ s.running e;
                same_call = k.1 ∙ (s.same_call e).0;
                no_invite = refl;
                none_pending = refl;
              }))
        | inr e ↦
            rw (e, accept_call)
              (inr (
                hang_up-Idle user_reason (emit (notification "Problem setting up call.") r.0)
                  (s.stopped e) (emit-call _ r.0 m.callid c (s.cleared e))))
      ]

  pub accept_invite-ready :
      (m : Manager)
      → m.have_call_invite ≡ true
      → (plugins_for env m.call_type m).1 ≡ true
      → accept_invite env m ≡ accept_call env (plugins_for env m.call_type m).0
  unfolding accept_invite
  accept_invite-ready m i e = simp (i, e) refl

  pub accept_invite-missing :
      (m : Manager)
      → m.have_call_invite ≡ true
      → (plugins_for env m.call_type m).1 ≡ false
      → accept_invite env m
        ≡ hang_up user_reason
            (emit (notification env.media.plugins_error) (plugins_for env m.call_type m).0)
  unfolding accept_invite
  accept_invite-missing m i e = simp (i, e) refl

  -- Accepting the invite that rings, with a call id and the session disconnected: the session runs for this call,
  -- the invite is gone and its candidates are handed on; or the call is over and all is cleared.
  pub accept_invite-outcome :
      (m : Manager)
      → m.have_call_invite ≡ true
      → m.callid ≢ ""
      → m.session.state ≡ disconnected
      → Accepted m.callid (accept_invite env m)
        ⊎ (Idle (accept_invite env m) × ((accept_invite env m).session.state ≡ disconnected))
  unfolding accept_invite
  accept_invite-outcome m i c off =
      let q = plugins_for-with_session m.call_type m in
      let r = plugins_for env m.call_type m in
      let c' : r.0.callid ≢ "" = λ z. c (sym (ap (λ t. t.callid) q) ∙ z) in
      elim (Bool-cases r.1) [
        | inl e ↦
            subst (λ t. Accepted m.callid t ⊎ (Idle t × (t.session.state ≡ disconnected)))
              (sym (accept_invite-ready m i e))
              (subst
                (λ call.
                  Accepted call (accept_call env r.0)
                  ⊎ (Idle (accept_call env r.0)
                      × ((accept_call env r.0).session.state ≡ disconnected)))
                (ap (λ t. t.callid) q)
                (accept_call-outcome r.0 c' (plugins_for-state env m.call_type m ∙ off)))
        | inr e ↦
            subst (λ t. Accepted m.callid t ⊎ (Idle t × (t.session.state ≡ disconnected)))
              (sym (accept_invite-missing m i e))
              (inr
                (hang_up-Idle user_reason _ (plugins_for-state env m.call_type m ∙ off) (inr c')))
      ]
