-- ===== src/Timeline/Throttled.antt =====
-- Requests for the key of a session are at least a minute apart.
use mathlib.Core.Path.{subst}
use nheko_library.Base.{
  ℕ, ◌+◌, ◌<◌, ◌≡◌, refl, sym, ap, ◌∙◌, String, List, [], ◌∷◌, Option, none, some, Bool, true, ◌&&◌,
  ltb, str_eq, if◌then◌else◌, arith, eq_iff, Bool-cases, Option-cases, inl, inr,
}
use nheko_library.Base.StdMap.{lookup, lookup-insert}
use nheko_library.Cache.Room.{Tables}
use nheko_library.Timeline.Store.{Store, Signal, send_key_request, id_to_index}
use nheko_library.Timeline.Keys.{
  EncryptedEvent, PendingKeyRequests, KeyStore, KeyCall, request, received, enable, request_again,
  request_session, refresh_all, received_session_key, enable_key_requests, handle, run,
  cancel_first, set_pending, ask,
}

-- The seconds at which a session's key was asked for, the latest first.
abbrev pub request_times : (session_id : String) → List Signal → List ℕ
request_times id [] = []
request_times id (send_key_request session event_id request_id now ∷ l) =
    let before = request_times id l in if str_eq session id then now ∷ before else before
request_times id (_ ∷ l) = request_times id l

abbrev is_after : (delay time : ℕ) → List ℕ → Bool
is_after d t [] = true
is_after d t (u ∷ us) = ltb (u + d) t

abbrev pub are_apart : (delay : ℕ) → List ℕ → Bool
are_apart d [] = true
are_apart d (t ∷ ts) = is_after d t ts && are_apart d ts

abbrev head : List ℕ → Option ℕ
head [] = none
head (t ∷ ts) = some t

abbrev time_of : Option PendingKeyRequests → Option ℕ
time_of none = none
time_of (some r) = some r.requested_at

-- The entry of a session has the time of its latest request.
pub record Throttled {T : Tables} (id : String) (s : KeyStore T) : Type 0 where
  pub apart : are_apart 60 (request_times id s.store.log) ≡ true
  pub latest : head (request_times id s.store.log) ≡ time_of (lookup id s.pending_key_requests)

-- Enough time since the latest request.
is_after-head :
    (d now : ℕ) (ts : List ℕ)
    → (h : (u : ℕ) → head ts ≡ some u → u + d < now) → is_after d now ts ≡ true
is_after-head d now [] h = refl
is_after-head d now (u ∷ us) h = ground (arith, h u refl)

module _ {T : Tables} where
  refresh_all-request_times :
      (id : String) (es : List EncryptedEvent) (s : Store T)
      → request_times id (refresh_all es s).log ≡ request_times id s.log
  unfolding refresh_all
  refresh_all-request_times id [] s = refl
  refresh_all-request_times id (e ∷ es) s = elim (Option-cases (id_to_index e.event_id s)) [
    | inl n ↦ rw (n, refresh_all) (refresh_all-request_times id es s)
    | inr (i, n) ↦ rw (n, refresh_all) (refresh_all-request_times id es _)
  ]

  -- A new entry for a session whose time is the old one.
  kept-Throttled :
      (id k : String) (r : PendingKeyRequests) (s : KeyStore T)
      → time_of (lookup k s.pending_key_requests) ≡ some r.requested_at
      → Throttled id s
      → Throttled id (set_pending k r s)
  kept-Throttled id k r s f t = record {
    apart = t.apart;
    latest =
        t.latest
        ∙ ground (
          arith,
          lookup-insert k id r s.pending_key_requests,
          eq_iff k id,
          f,
          ap (λ j. time_of (lookup j s.pending_key_requests)),
        );
  }

  -- A request that comes late enough.
  asked-Throttled :
      (id request_id : String) (now : ℕ) (e : EncryptedEvent) (r : PendingKeyRequests)
      (s : KeyStore T)
      → is_after 60 now (request_times e.session_id s.store.log) ≡ true
      → r.requested_at ≡ now
      → Throttled id s
      → Throttled id (ask request_id now e (set_pending e.session_id r s))
  asked-Throttled id request_id now e r s f g t = elim (Bool-cases (str_eq e.session_id id)) [
    | inl h ↦
        (let same : e.session_id ≡ id = ground (eq_iff e.session_id id, h, arith) in
          let late : is_after 60 now (request_times id s.store.log) ≡ true =
            subst (λ j. is_after 60 now (request_times j s.store.log) ≡ true) same f in
          record {
            apart = rw (h, late) t.apart;
            latest =
                rw (lookup-insert e.session_id id r s.pending_key_requests, h) (ap some (sym g));
          })
    | inr h ↦ record {
      apart = rw h t.apart;
      latest = rw (lookup-insert e.session_id id r s.pending_key_requests, h) t.latest;
    }
  ]

  cancel_first-request_times :
      (id : String) (r : PendingKeyRequests) (s : Store T)
      → request_times id (cancel_first r s).log ≡ request_times id s.log
  cancel_first-request_times id r s = events r.events refl
    where
      events :
          (es : List EncryptedEvent)
          → r.events ≡ es
          → request_times id (cancel_first r s).log ≡ request_times id s.log
      events [] h = rw h refl
      events (e ∷ es) h = rw h refl

  request_again-Throttled :
      (id : String) (now : ℕ) (e : EncryptedEvent) (manual : Bool) (r : PendingKeyRequests)
      (s : KeyStore T)
      → lookup e.session_id s.pending_key_requests ≡ some r
      → ((j : String) → Throttled j s)
      → Throttled id (request_again now e manual r s)
  unfolding request_again
  request_again-Throttled id now e manual r s f t =
      elim (Bool-cases (ltb (r.requested_at + (if manual then 60 else 600)) now)) [
        | inl h ↦ rw h (
            asked-Throttled id r.request_id now e _ s
              (is_after-head 60 now (request_times e.session_id s.store.log) λ u p.
                (let q : some u ≡ some r.requested_at =
                    sym p ∙ (t e.session_id).latest ∙ ap time_of f in
                  elim (Bool-cases manual) [
                    | inl m ↦ ground (arith, h, q, m)
                    | inr m ↦ ground (arith, h, q, m)
                  ]))
              refl (t id))
        | inr h ↦ rw h (kept-Throttled id e.session_id _ s (ap time_of f) (t id))
      ]

  request_session-Throttled :
      (id : String) (now : ℕ) (txn_id : String) (e : EncryptedEvent) (manual : Bool)
      (s : KeyStore T)
      → ((j : String) → Throttled j s)
      → Throttled id (request_session now txn_id e manual s)
  unfolding request_session
  request_session-Throttled id now txn_id e manual s t = elim (Bool-cases s.suppress_key_requests) [
    | inl b ↦ simp b (t id)
    | inr b ↦ elim (Option-cases (lookup e.session_id s.pending_key_requests)) [
      | inr (r, f) ↦ rw (b, f) (request_again-Throttled id now e manual r s f t)
      | inl f ↦
          rw (b, f)
            (asked-Throttled id _ now e _ s
              (is_after-head 60 now (request_times e.session_id s.store.log)
                λ u p. ground (arith, sym p ∙ (t e.session_id).latest ∙ ap time_of f))
              refl (t id))
    ]
  ]

  received_session_key-Throttled :
      (id k : String) (s : KeyStore T) → Throttled id s → Throttled id (received_session_key k s)
  unfolding received_session_key
  received_session_key-Throttled id k s t = elim (Option-cases (lookup k s.pending_key_requests)) [
    | inl f ↦ rw (f, received_session_key) t
    | inr (r, f) ↦
        (let u = kept-Throttled id k (record r { events = [] }) s (ap time_of f) t in
          let same : request_times id (refresh_all r.events (cancel_first r s.store)).log
              ≡ request_times id s.store.log =
            refresh_all-request_times id r.events (cancel_first r s.store)
            ∙ cancel_first-request_times id r s.store in
          rw (f, received_session_key)
            (record { apart = ap (are_apart 60) same ∙ u.apart; latest = ap head same ∙ u.latest }))
  ]

  handle-Throttled :
      (id : String) (c : KeyCall) (s : KeyStore T)
      → ((j : String) → Throttled j s)
      → Throttled id (handle c s)
  unfolding handle enable_key_requests
  handle-Throttled id (request now txn_id e manual) s t =
      request_session-Throttled id now txn_id e manual s t
  handle-Throttled id (received k) s t = received_session_key-Throttled id k s (t id)
  handle-Throttled id (enable b) s t = record { apart = (t id).apart; latest = (t id).latest }

  run-all_Throttled :
      (cs : List KeyCall) (s : KeyStore T)
      → ((j : String) → Throttled j s)
      → (j : String) → Throttled j (run cs s)
  unfolding run
  run-all_Throttled [] s t j = t j
  run-all_Throttled (c ∷ cs) s t j =
      run-all_Throttled cs (handle c s) (λ i. handle-Throttled i c s t) j

  -- In a new store, whatever is called, in whatever order and at whatever times, two requests for the key
  -- of one session are more than 60 seconds apart, also where the key came in between.
  pub run-apart :
      (cs : List KeyCall) (s : KeyStore T) (id : String)
      → s.store.log ≡ []
      → s.pending_key_requests ≡ []
      → are_apart 60 (request_times id (run cs s).store.log) ≡ true
  run-apart cs s id l p =
      let start : (j : String) → Throttled j s = λ j. record {
        apart = ap (λ w. are_apart 60 (request_times j w)) l;
        latest = ap (λ w. head (request_times j w)) l ∙ sym (ap (λ w. time_of (lookup j w)) p);
      } in
      (run-all_Throttled cs s start id).apart
