-- ===== src/Voip/Delivery.antt =====
-- The candidates of the caller: those that come before `acceptInvite` and those that come after it.
use nheko_library.Base.{
  List, [], ◌∷◌, ◌++◌, ◌≡◌, refl, ap, sym, ◌∙◌, inl, inr, ◌≢◌, true, false, arith, Bool-cases,
  eq_refl, eq_iff, if◌then◌else◌, str_eq, map,
}
use mathlib.Core.Path.{subst}
use mathlib.Core.List.{append_assoc, append-nil}
use nheko_library.Voip.Session.{disconnected, initiated, is_state}
use nheko_library.Voip.Manager.{
  CallEnv, Candidate, add_ice_candidate, Manager, Reason, user_reason, emit, with_session, hang_up,
  notification,
}
use nheko_library.Voip.Pipeline.{accept_offer, accept_ice_candidates, add_candidates}
use nheko_library.Voip.Calls.{plugins_for, accept_call, accept_invite}
use nheko_library.Voip.Outcome.{hang_up-ends, delivered}
use nheko_library.Voip.Placing.{accept_offer-Starts, plugins_for-state}
use nheko_library.Voip.Events.{CallEvent, handle_candidates, got_candidates, run, step}
use nheko_library.Voip.Accepting.{
  add_candidates-same, accept_ice_candidates-same, plugins_for-with_session, accept_invite-ready,
  accept_invite-missing,
}

-- The candidates that `acceptICECandidates` does not skip.
unfoldable pub nonempty : List Candidate → List Candidate
nonempty [] = []
nonempty (c ∷ cs) = let rest = nonempty cs in if str_eq c.candidate "" then rest else c ∷ rest

add_candidates-delivered :
    (cs : List Candidate) (m : Manager)
    → delivered (add_candidates cs m).log ≡ delivered m.log ++ nonempty cs
unfolding add_candidates delivered nonempty
add_candidates-delivered [] m = sym (append-nil (delivered m.log))
add_candidates-delivered (c ∷ cs) m = elim (Bool-cases (str_eq c.candidate "")) [
  | inl e ↦ rw (e, add_candidates, nonempty) (add_candidates-delivered cs m)
  | inr e ↦
      rw (e, add_candidates, nonempty)
        (add_candidates-delivered cs (emit (add_ice_candidate c) m)
          ∙ append_assoc (delivered m.log) (c ∷ []) (nonempty cs))
]

nonempty-append : (xs ys : List Candidate) → nonempty (xs ++ ys) ≡ nonempty xs ++ nonempty ys
unfolding nonempty
nonempty-append [] ys = refl
nonempty-append (c ∷ xs) ys = elim (Bool-cases (str_eq c.candidate "")) [
  | inl e ↦ rw (e, nonempty) (nonempty-append xs ys)
  | inr e ↦ rw (e, nonempty) (ap (λ l. c ∷ l) (nonempty-append xs ys))
]

-- The lists of several messages in one.
unfoldable pub joined : List (List Candidate) → List Candidate
joined [] = []
joined (cs ∷ css) = cs ++ joined css

module _ (env : CallEnv) where
  abbrev pub arrive : CallEvent → List (List Candidate) → Manager → Manager
  arrive e css m = run env (map (got_candidates e) css) m

  handle_candidates-pending :
      (e : CallEvent) (cs : List Candidate) (m : Manager)
      → str_eq e.sender env.local_user ≡ false
      → str_eq m.callid e.call_id ≡ true
      → is_state m.session.state disconnected ≡ true
      → handle_candidates env e cs m ≡ record m { remote_candidates = m.remote_candidates ++ cs }
  unfolding handle_candidates
  handle_candidates-pending e cs m s c off = rw (s, c, off, handle_candidates) refl

  handle_candidates-now :
      (e : CallEvent) (cs : List Candidate) (m : Manager)
      → str_eq e.sender env.local_user ≡ false
      → str_eq m.callid e.call_id ≡ true
      → m.session.state ≡ initiated
      → handle_candidates env e cs m ≡ add_candidates cs m
  unfolding handle_candidates accept_ice_candidates
  handle_candidates-now e cs m s c on = ground (arith, s, c, on)

  arrive-pending :
      (e : CallEvent) (css : List (List Candidate)) (m : Manager)
      → str_eq e.sender env.local_user ≡ false
      → str_eq m.callid e.call_id ≡ true
      → is_state m.session.state disconnected ≡ true
      → arrive e css m ≡ record m { remote_candidates = m.remote_candidates ++ joined css }
  unfolding run step joined
  arrive-pending e [] m s c off =
      ap (λ l. record m { remote_candidates = l }) (sym (append-nil m.remote_candidates))
  arrive-pending e (cs ∷ css) m s c off =
      ap (λ t. arrive e css t) (handle_candidates-pending e cs m s c off)
      ∙ arrive-pending e css (record m { remote_candidates = m.remote_candidates ++ cs }) s c off
      ∙ ap (λ l. record m { remote_candidates = l })
          (append_assoc m.remote_candidates cs (joined css))

  arrive-delivered :
      (e : CallEvent) (css : List (List Candidate)) (m : Manager)
      → str_eq e.sender env.local_user ≡ false
      → str_eq m.callid e.call_id ≡ true
      → m.session.state ≡ initiated
      → delivered (arrive e css m).log ≡ delivered m.log ++ nonempty (joined css)
  unfolding run step joined nonempty
  arrive-delivered e [] m s c on = sym (append-nil (delivered m.log))
  arrive-delivered e (cs ∷ css) m s c on =
      let k = add_candidates-same cs m in
      ap (λ t. delivered (arrive e css t).log) (handle_candidates-now e cs m s c on)
      ∙ arrive-delivered e css (add_candidates cs m) s (ap (λ i. str_eq i e.call_id) k.1 ∙ c)
          (ap (λ t. t.state) k.0 ∙ on)
      ∙ ap (λ l. l ++ nonempty (joined css)) (add_candidates-delivered cs m)
      ∙ append_assoc (delivered m.log) (nonempty cs) (nonempty (joined css))
      ∙ ap (λ l. delivered m.log ++ l) (sym (nonempty-append cs (joined css)))

  accept_ice_candidates-running :
      (cs : List Candidate) (m : Manager)
      → m.session.state ≡ initiated
      → accept_ice_candidates cs m ≡ add_candidates cs m
  unfolding accept_ice_candidates
  accept_ice_candidates-running cs m on = ground (arith, on)

  hang_up-disconnected :
      (r : Reason) (m : Manager)
      → m.session.state ≡ disconnected
      → (hang_up r m).session.state ≡ disconnected
  hang_up-disconnected r m off = elim (Bool-cases (str_eq m.callid "")) [
    | inl e ↦
        ap (λ t. t.session.state) ((hang_up-ends r m).1 (ground (arith, eq_iff m.callid ""))) ∙ off
    | inr e ↦ ((hang_up-ends r m).0 (ground (arith, eq_iff m.callid ""))).1
  ]

  -- An accepted call whose session runs has handed all pending candidates on.
  accept_call-delivered :
      (m : Manager)
      → m.session.state ≡ disconnected
      → (accept_call env m).session.state ≡ initiated
      → ((accept_call env m).callid ≡ m.callid)
        × (delivered (accept_call env m).log ≡ delivered m.log ++ nonempty m.remote_candidates)
  unfolding accept_call delivered
  accept_call-delivered m off on =
      let u = with_session (record m.session { turn_servers = m.turn_uris }) m in
      let s = accept_offer-Starts env u.invite_sdp u off in
      let r = accept_offer env.media u.invite_sdp u in
      elim (Bool-cases r.1) [
        | inl e ↦
            rw (e, accept_call)
              (
                ((accept_ice_candidates-same r.0.remote_candidates r.0).1 ∙ (s.same_call e).0),
                ap (λ t. delivered t.log)
                      (accept_ice_candidates-running r.0.remote_candidates r.0 (s.running e))
                    ∙ add_candidates-delivered r.0.remote_candidates r.0
                    ∙ ap (λ l. l ++ nonempty r.0.remote_candidates) (s.same_candidates e).1
                    ∙ ap (λ l. delivered m.log ++ nonempty l) (s.same_candidates e).0,
              )
        | inr e ↦
            (let t = emit (notification "Problem setting up call.") r.0 in
              let off' = hang_up-disconnected user_reason t (s.stopped e) in
              let over : (accept_call env m).session.state ≡ disconnected =
                rw (e, accept_call) off' in
              ground arith)
      ]

  accept_invite-delivered :
      (m : Manager)
      → m.have_call_invite ≡ true
      → m.session.state ≡ disconnected
      → (accept_invite env m).session.state ≡ initiated
      → ((accept_invite env m).callid ≡ m.callid)
        × (delivered (accept_invite env m).log ≡ delivered m.log ++ nonempty m.remote_candidates)
  unfolding delivered
  accept_invite-delivered m i off on =
      let q = plugins_for-with_session env m.call_type m in
      let r = plugins_for env m.call_type m in
      let off' = plugins_for-state env m.call_type m ∙ off in
      elim (Bool-cases r.1) [
        | inl e ↦
            (let a = accept_invite-ready env m i e in
              let d = accept_call-delivered r.0 off' (sym (ap (λ t. t.session.state) a) ∙ on) in
              (
                ap (λ t. t.callid) a ∙ d.0 ∙ ap (λ t. t.callid) q,
                ap (λ t. delivered t.log) a
                    ∙ d.1
                    ∙ ap (λ t. delivered t.log ++ nonempty t.remote_candidates) q,
              ))
        | inr e ↦
            (let a = accept_invite-missing env m i e in
              let off'' =
                ap (λ t. t.session.state) a
                ∙ hang_up-disconnected user_reason (emit (notification env.media.plugins_error) r.0)
                    off' in
              ground arith)
      ]

  -- For an invite that rings, from another user, while the session is disconnected, and that the user
  -- accepts with the effect that the session runs: the candidates for this call that came before, and
  -- those that come after, all reach the peer connection, in the order of their arrival and the empty
  -- ones apart.
  pub accept_invite-delivers :
      (e : CallEvent) (before after : List (List Candidate)) (m : Manager)
      → e.sender ≢ env.local_user
      → m.callid ≡ e.call_id
      → m.have_call_invite ≡ true
      → m.session.state ≡ disconnected
      → (accept_invite env (arrive e before m)).session.state ≡ initiated
      → delivered (arrive e after (accept_invite env (arrive e before m))).log
        ≡ delivered m.log ++ nonempty ((m.remote_candidates ++ joined before) ++ joined after)
  accept_invite-delivers e before after m s c i off on =
      let s' : str_eq e.sender env.local_user ≡ false =
        ground (arith, s, eq_iff e.sender env.local_user) in
      let c' = ap (λ t. str_eq t e.call_id) c ∙ eq_refl e.call_id in
      let t = record m { remote_candidates = m.remote_candidates ++ joined before } in
      let p = arrive-pending e before m s' c' (ap (λ t. is_state t disconnected) off) in
      let on' = subst (λ t. (accept_invite env t).session.state ≡ initiated) p on in
      let a = accept_invite-delivered t i off on' in
      ap (λ t. delivered (arrive e after (accept_invite env t)).log) p
      ∙ arrive-delivered e after (accept_invite env t) s' (ap (λ t. str_eq t e.call_id) a.0 ∙ c')
          on'
      ∙ ap (λ l. l ++ nonempty (joined after)) a.1
      ∙ append_assoc (delivered m.log) (nonempty t.remote_candidates) (nonempty (joined after))
      ∙ ap (λ l. delivered m.log ++ l) (sym (nonempty-append t.remote_candidates (joined after)))
