-- ===== src/Timeline/Sending.antt =====
-- What becomes of messages in the queue: those that fail are given up, and one that cannot be sent
-- blocks the queue.
use mathlib.Core.Path.{subst}
use nheko_library.Base.{
  ℕ, zero, suc, ◌+◌, ◌<◌, ◌≤◌, ◌≡◌, ◌≢◌, refl, sym, ap, ◌∙◌, String, List, [], ◌∷◌, Option, some,
  true, false, ◌&&◌, str_eq, if◌then◌else◌, arith, eq_iff, eq_refl, Bool-cases, inl, inr,
}
use nheko_library.Cache.Lmdb.{Listed}
use nheko_library.Cache.Room.{Tables, Room}
use nheko_library.Cache.Saving.{del_pending, remove_pending_status}
use nheko_library.Cache.Reading.{first_pending_message}
use nheko_library.Timeline.Store.{Store, Signal, send_message, start_timer, emit}
use nheko_library.Timeline.Queue.{
  QueueEnv, starts_with_m, is_sendable, process_message, process_pending, message_failed, retry,
}

module _ (T : Tables) where
  -- Deleting makes no entries.
  del_pending-older :
      (k : ℕ) (v txn : String) (es : List (ℕ × String)) (p : T.pending.Table)
      → T.pending.get k (del_pending T es txn p) ≡ some v
      → T.pending.get k p ≡ some v
  unfolding del_pending
  del_pending-older k v txn [] p h = h
  del_pending-older k v txn ((j, w) ∷ es) p h =
      let before = del_pending-older k v txn es (if str_eq w txn then T.pending.del j p else p) h in
      ground (arith, before, T.pending.get-del j k p)

  del_pending-Listed :
      (k : ℕ) (txn : String) (es : List (ℕ × String)) (p : T.pending.Table)
      → Listed k txn es
      → T.pending.get k (del_pending T es txn p) ≢ some txn
  unfolding del_pending
  del_pending-Listed k txn [] p l h = elim l [ ]
  del_pending-Listed k txn ((j, w) ∷ es) p (inl (a, b)) h =
      let before =
        del_pending-older k txn txn es (if str_eq w txn then T.pending.del j p else p) h in
      ground (arith, a, b, before, T.pending.get-del j k p, eq_iff w txn)
  del_pending-Listed k txn ((j, w) ∷ es) p (inr l) h =
      del_pending-Listed k txn es (if str_eq w txn then T.pending.del j p else p) l h

  pub remove_pending_status-gone :
      (txn : String) (r : Room T) (k : ℕ)
      → T.pending.get k (remove_pending_status T txn r).pending_db ≢ some txn
  unfolding remove_pending_status
  remove_pending_status-gone txn r k h =
      let p = r.pending_db in
      let before = del_pending-older k txn txn (T.pending.entries p) p h in
      del_pending-Listed k txn (T.pending.entries p) p (T.pending.entries-get k txn p before) h

abbrev pub times_sent : String → List Signal → ℕ
times_sent txn [] = 0
times_sent txn (send_message id ∷ l) = (if str_eq id txn then 1 else 0) + times_sent txn l
times_sent txn (_ ∷ l) = times_sent txn l

-- The message that is with the server, which failed `c` times and was sent again `n` times.
record Waiting {T : Tables} (txn : String) (r : Room T) (c n : ℕ) (s : Store T) : Type 0 where
  room : s.room ≡ r
  current : s.current_txn ≡ txn
  count : s.current_txn_error_count ≡ c
  sent : times_sent txn s.log ≡ n

module _ {T : Tables} (env : QueueEnv) where
  -- The answer to a request fails, and its timer ends.
  abbrev pub fail_times : ℕ → String → Store T → Store T
  fail_times zero txn s = s
  fail_times (suc n) txn s = fail_times n txn (retry env (message_failed env txn s))

  message_failed-Waiting :
      (txn : String) (r : Room T) (c n : ℕ) (s : Store T)
      → Waiting txn r c n s
      → c < 10
      → message_failed env txn s
        ≡ emit (start_timer 1000) (record s { current_txn_error_count = c + 1 })
  unfolding message_failed
  message_failed-Waiting txn r c n s w h = ground (arith, w.current, w.count, eq_refl txn, h)

  process_message-sends :
      (txn : String) (s : Store T)
      → starts_with_m txn ≡ true
      → is_sendable env txn s.room ≡ true
      → process_message env txn s ≡ emit (send_message txn) (record s { current_txn = txn })
  unfolding process_message
  process_message-sends txn s h k = rw (h, k) refl

  process_pending-takes :
      (txn : String) (r : Room T) (s : Store T)
      → s.current_txn ≡ ""
      → first_pending_message T env.parses s.room ≡ (r, some txn)
      → process_pending env s ≡ process_message env txn (record s { room = r })
  unfolding process_pending process_message
  process_pending-takes txn r s h f =
      rw (h, ap (λ (p : Room T × Option String). p.1) f)
        (ap (λ (p : Room T × Option String). process_message env txn (record s { room = p.0 })) f)

  process_pending-busy : (s : Store T) → str_eq s.current_txn "" ≡ false → process_pending env s ≡ s
  unfolding process_pending
  process_pending-busy s h = rw (h) refl

  process_message-unsent :
      (txn : String) (s : Store T)
      → (starts_with_m txn && is_sendable env txn s.room) ≡ false
      → let t = process_message env txn s in (t.log ≡ s.log) × (t.current_txn ≡ txn)
  unfolding process_message
  process_message-unsent txn s h = elim (Bool-cases (starts_with_m txn)) [
    | inl m ↦
        (let no : is_sendable env txn s.room ≡ false =
            sym (ap (λ b. b && is_sendable env txn s.room) m) ∙ h in
          rw (m, no) (refl, refl))
    | inr m ↦ rw (m) (refl, refl)
  ]

  retry-sends :
      (txn : String) (s : Store T)
      → first_pending_message T env.parses s.room ≡ (s.room, some txn)
      → starts_with_m txn ≡ true
      → is_sendable env txn s.room ≡ true
      → retry env s ≡ emit (send_message txn) (record s { current_txn = txn })
  unfolding retry
  retry-sends txn s f h k =
      let t : Store T = record s { current_txn = "" } in
      process_pending-takes txn s.room t refl f ∙ process_message-sends txn t h k

  -- One more failure and one more try.
  again-Waiting :
      (txn : String) (r : Room T) (c n : ℕ) (s : Store T)
      → first_pending_message T env.parses r ≡ (r, some txn)
      → starts_with_m txn ≡ true
      → is_sendable env txn r ≡ true
      → Waiting txn r c n s
      → c < 10
      → Waiting txn r (suc c) (suc n) (retry env (message_failed env txn s))
  again-Waiting txn r c n s f h k w l =
      let t : Store T = emit (start_timer 1000) (record s { current_txn_error_count = c + 1 }) in
      let there : first_pending_message T env.parses s.room ≡ (s.room, some txn) =
        subst (λ (q : Room T). first_pending_message T env.parses q ≡ (q, some txn)) (sym w.room)
          f in
      let sendable : is_sendable env txn s.room ≡ true =
        subst (λ (q : Room T). is_sendable env txn q ≡ true) (sym w.room) k in
      let step : retry env (message_failed env txn s)
          ≡ emit (send_message txn) (record t { current_txn = txn }) =
        ap (retry env) (message_failed-Waiting txn r c n s w l)
        ∙ retry-sends txn t there h sendable in
      subst (Waiting txn r (suc c) (suc n)) (sym step) (record {
        room = w.room;
        current = refl;
        count = ground arith;
        sent = ground (arith, eq_refl txn, w.sent);
      })

  fail_times-Waiting :
      (m : ℕ) (txn : String) (r : Room T) (c n : ℕ) (s : Store T)
      → first_pending_message T env.parses r ≡ (r, some txn)
      → starts_with_m txn ≡ true
      → is_sendable env txn r ≡ true
      → Waiting txn r c n s
      → m + c ≤ 10
      → Waiting txn r (m + c) (m + n) (fail_times m txn s)
  fail_times-Waiting zero txn r c n s f h k w l = record {
    room = w.room;
    current = w.current;
    count = ground (arith, w.count);
    sent = ground (arith, w.sent);
  }
  fail_times-Waiting (suc m) txn r c n s f h k w l =
      let next = retry env (message_failed env txn s) in
      let done =
        fail_times-Waiting m txn r (suc c) (suc n) next f h k
          (again-Waiting txn r c n s f h k w (omega arith)) (omega arith) in
      record {
        room = done.room;
        current = done.current;
        count = ground (arith, done.count);
        sent = ground (arith, done.sent);
      }

  last_failure :
      (txn : String) (r : Room T) (n : ℕ) (s : Store T)
      → Waiting txn r 10 n s
      → message_failed env txn s
        ≡ emit
            (start_timer 1000)
            (record s { room = remove_pending_status T txn s.room; current_txn_error_count = 0 })
  unfolding message_failed
  last_failure txn r n s w = ground (arith, w.current, w.count, eq_refl txn)

  -- A message that is the first of the queue and can be sent, is with the server and has not failed yet,
  -- is sent ten times more when each request fails and each timer ends. The eleventh failure takes it out
  -- of the queue, where nothing else changes, under whatever times it stands there.
  pub message_failed-gives_up :
      (txn : String) (s : Store T)
      → first_pending_message T env.parses s.room ≡ (s.room, some txn)
      → starts_with_m txn ≡ true
      → is_sendable env txn s.room ≡ true
      → s.current_txn ≡ txn
      → s.current_txn_error_count ≡ 0
      → let t = message_failed env txn (fail_times 10 txn s) in
        (t.room ≡ remove_pending_status T txn s.room)
        × (times_sent txn t.log ≡ 10 + times_sent txn s.log)
        × ((time : ℕ) → T.pending.get time t.room.pending_db ≢ some txn)
  message_failed-gives_up txn s f h k current no_failure =
      let n = times_sent txn s.log in
      let t = fail_times 10 txn s in
      let start : Waiting txn s.room 0 n s = record {
        room = refl;
        current = current;
        count = no_failure;
        sent = refl;
      } in
      let w : Waiting txn s.room 10 (10 + n) t =
        fail_times-Waiting 10 txn s.room 0 n s f h k start (omega arith) in
      let last = last_failure txn s.room (10 + n) t w in
      let room : (message_failed env txn t).room ≡ remove_pending_status T txn s.room =
        ap (λ (u : Store T). u.room) last ∙ ap (remove_pending_status T txn) w.room in
      (
        room,
        ap (λ (u : Store T). times_sent txn u.log) last ∙ w.sent,
        λ time h.
            remove_pending_status-gone T txn s.room time
              (sym (ap (λ (q : Room T). T.pending.get time q.pending_db) room) ∙ h),
      )

  -- If the first message of a free queue has a transaction id that is not empty, and that does not begin
  -- with `m` or is of an event that cannot be sent, then nothing is sent, the queue stays with this
  -- message, and processing it does nothing from then on, whatever the tables become.
  pub process_pending-blocked :
      (txn : String) (r : Room T) (s : Store T) (later : Room T)
      → s.current_txn ≡ ""
      → first_pending_message T env.parses s.room ≡ (r, some txn)
      → str_eq txn "" ≡ false
      → (starts_with_m txn && is_sendable env txn r) ≡ false
      → let t = process_pending env s in
        (t.log ≡ s.log)
        × (t.current_txn ≡ txn)
        × (process_pending env (record t { room = later }) ≡ record t { room = later })
  process_pending-blocked txn r s later free f named odd =
      let e = process_pending-takes txn r s free f in
      let kept : (t : Store T)
          → t.current_txn ≡ txn
          → process_pending env (record t { room = later }) ≡ record t { room = later } =
        λ t h. process_pending-busy (record t { room = later }) (ap (λ w. str_eq w "") h ∙ named) in
      let after = process_message-unsent txn (record s { room = r }) odd in
      let current = ap (λ (t : Store T). t.current_txn) e ∙ after.1 in
      (ap (λ (t : Store T). t.log) e ∙ after.0, current, kept (process_pending env s) current)
