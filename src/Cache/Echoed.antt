-- ===== src/Cache/Echoed.antt =====
-- A sent message that comes back from the server: its id takes the place of its transaction id.
use mathlib.Core.Path.{subst}
use nheko_library.Base.{
  ℕ, ◌≡◌, ◌≢◌, refl, sym, String, List, [], ◌∷◌, none, some, ◌&&◌, ltb, leb, str_eq, arith, eq_iff,
  Bool-cases, Option-cases, inl, inr,
}
use nheko_library.Cache.Room.{OrderEntry, Event, Tables, Room}
use nheko_library.Cache.Saving.{move_relations, remove_pending_status, replace_message, save_sent}
use nheko_library.Cache.Coherence.{Coherent, other-Coherent, is_some}

module _ (T : Tables) where
  module _ {lo hi : ℕ} (r : Room T) (c : Coherent T lo hi r) (txn new : String) (m k : ℕ)
      (sent : T.indices.get txn r.msg2order_db ≡ some m)
      (fresh : T.indices.get new r.ev_to_order_db ≡ none) (differ : txn ≢ new) where
    replaced-forward :
        (i : ℕ) (id : String)
        → T.messages.get i (T.messages.put m new r.order2msg_db) ≡ some id
        → T.indices.get id (T.indices.del txn (T.indices.put new m r.msg2order_db)) ≡ some i
    replaced-forward i id h = ground (
      arith,
      T.messages.get-put m i new r.order2msg_db,
      T.indices.get-del txn id (T.indices.put new m r.msg2order_db),
      T.indices.get-put new id m r.msg2order_db,
      c.forward i id,
      c.arrived new,
      eq_iff new id,
      eq_iff txn id,
    )

    replaced-back :
        (i : ℕ) (id : String)
        → T.indices.get id (T.indices.del txn (T.indices.put new m r.msg2order_db)) ≡ some i
        → T.messages.get i (T.messages.put m new r.order2msg_db) ≡ some id
    replaced-back i id h = ground (
      arith,
      T.messages.get-put m i new r.order2msg_db,
      T.indices.get-del txn id (T.indices.put new m r.msg2order_db),
      T.indices.get-put new id m r.msg2order_db,
      c.back i id,
      c.back m txn,
      eq_iff new id,
      eq_iff txn id,
    )

    replaced-arrived :
        (id : String)
        → T.indices.get id (T.indices.del txn (T.indices.put new k r.ev_to_order_db)) ≡ none
        → T.indices.get id (T.indices.del txn (T.indices.put new m r.msg2order_db)) ≡ none
    replaced-arrived id h = ground (
      arith,
      T.indices.get-del txn id (T.indices.put new m r.msg2order_db),
      T.indices.get-del txn id (T.indices.put new k r.ev_to_order_db),
      T.indices.get-put new id m r.msg2order_db,
      T.indices.get-put new id k r.ev_to_order_db,
      c.arrived id,
      eq_iff new id,
      eq_iff txn id,
    )

    replaced-shown :
        (i : ℕ)
        → is_some (T.messages.get i (T.messages.put m new r.order2msg_db)) ≡ (leb lo i && ltb i hi)
    replaced-shown i =
        ground (arith, T.messages.get-put m i new r.order2msg_db, c.shown i, c.back m txn)

  unshown-arrived :
      {lo hi : ℕ} (r : Room T) (c : Coherent T lo hi r) (txn new : String) (k : ℕ)
      → T.indices.get txn r.msg2order_db ≡ none
      → (id : String)
      → T.indices.get id (T.indices.del txn (T.indices.put new k r.ev_to_order_db)) ≡ none
      → T.indices.get id r.msg2order_db ≡ none
  unshown-arrived r c txn new k n id h = ground (
    arith,
    T.indices.get-del txn id (T.indices.put new k r.ev_to_order_db),
    T.indices.get-put new id k r.ev_to_order_db,
    c.arrived id,
    eq_iff new id,
    eq_iff txn id,
  )

  move_relations-same :
      (rels : List String) (txn id : String) (r : Room T)
      → (d : T.related.Table) × (move_relations T rels txn id r ≡ record r { relations_db = d })
  unfolding move_relations
  move_relations-same [] txn id r = (r.relations_db, refl)
  move_relations-same (to ∷ rels) txn id r = elim (Bool-cases (str_eq to "")) [
    | inl e ↦ rw (e, move_relations) (move_relations-same rels txn id r)
    | inr e ↦
        rw (e, move_relations)
          (let h = move_relations-same rels txn id (record r {
            relations_db = T.related.put to id (T.related.del to txn r.relations_db);
          }) in
            (h.0, h.1))
  ]

  -- The room of `save_sent` before its relations and the queue are looked at.
  abbrev echoed : OrderEntry → ℕ → Event → Room T → Room T
  echoed entry k e r =
      let s = replace_message T e (record r {
        events_db = T.events.del e.transaction_id (T.events.put e.event_id e.json r.events_db);
      }) in
      record s {
        order_db = T.order.put k entry s.order_db;
        ev_to_order_db =
            T.indices.del e.transaction_id (T.indices.put e.event_id k s.ev_to_order_db);
      }

  echoed-Coherent :
      {lo hi : ℕ} (entry : OrderEntry) (k : ℕ) (e : Event) (r : Room T)
      → Coherent T lo hi r
      → T.indices.get e.event_id r.ev_to_order_db ≡ none
      → e.transaction_id ≢ e.event_id
      → Coherent T lo hi (echoed entry k e r)
  unfolding replace_message
  echoed-Coherent entry k e r c fresh differ =
      elim (Option-cases (T.indices.get e.transaction_id r.msg2order_db)) [
        | inl n ↦
            rw (n, replace_message)
              (record {
                ordered = c.ordered;
                shown = c.shown;
                forward = c.forward;
                back = c.back;
                arrived = unshown-arrived r c e.transaction_id e.event_id k n;
              })
        | inr (m, n) ↦
            rw (n, replace_message)
              (record {
                ordered = c.ordered;
                shown = replaced-shown r c e.transaction_id e.event_id m k n fresh differ;
                forward = replaced-forward r c e.transaction_id e.event_id m k n fresh differ;
                back = replaced-back r c e.transaction_id e.event_id m k n fresh differ;
                arrived = replaced-arrived r c e.transaction_id e.event_id m k n fresh differ;
              })
      ]

  pub save_sent-Coherent :
      {lo hi : ℕ} (entry : OrderEntry) (k : ℕ) (e : Event) (r : Room T)
      → Coherent T lo hi r
      → T.indices.get e.event_id r.ev_to_order_db ≡ none
      → e.transaction_id ≢ e.event_id
      → Coherent T lo hi (save_sent T entry k e r)
  unfolding save_sent remove_pending_status
  save_sent-Coherent {lo} {hi} entry k e r c fresh differ =
      let t = echoed entry k e r in
      let h = move_relations-same e.relations e.transaction_id e.event_id t in
      let d = echoed-Coherent entry k e r c fresh differ in
      subst (λ u. Coherent T lo hi (remove_pending_status T e.transaction_id u)) (sym h.1)
        (other-Coherent T t d t.order_db t.events_db h.0 _)
