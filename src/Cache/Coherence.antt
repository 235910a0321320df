-- ===== src/Cache/Coherence.antt =====
-- The message tables of a room: what is shown has consecutive indices, and each table inverts the other.
use nheko_library.Base.{
  ℕ, suc, ◌-◌, ◌≤◌, ◌≡◌, ap, String, Option, none, some, Bool, true, false, ◌&&◌, ltb, leb, arith,
  eq_iff, Option-cases, inl, inr,
}
use nheko_library.Cache.Saving.{known}
use nheko_library.Cache.Room.{Tables, Room}

abbrev pub is_some {ℓ} : {A : Type ℓ} → Option A → Bool
is_some none = false
is_some (some a) = true

module _ (T : Tables) where
  -- Messages have the indices from `lo` on, below `hi`.
  pub record Coherent (lo hi : ℕ) (r : Room T) : Type 0 where
    pub ordered : lo ≤ hi
    pub shown : (i : ℕ) → is_some (T.messages.get i r.order2msg_db) ≡ (leb lo i && ltb i hi)
    pub forward :
        (i : ℕ) (id : String)
        → T.messages.get i r.order2msg_db ≡ some id
        → T.indices.get id r.msg2order_db ≡ some i
    pub back :
        (i : ℕ) (id : String)
        → T.indices.get id r.msg2order_db ≡ some i
        → T.messages.get i r.order2msg_db ≡ some id
    pub arrived :
        (id : String)
        → T.indices.get id r.ev_to_order_db ≡ none
        → T.indices.get id r.msg2order_db ≡ none

  -- The room where an id has been put at a message index, and has some index of arrival.
  abbrev pub with_message : ℕ → String → T.indices.Table → T.order.Table → Room T → Room T
  with_message m new arrivals entries r = record r {
    order_db = entries;
    ev_to_order_db = arrivals;
    order2msg_db = T.messages.put m new r.order2msg_db;
    msg2order_db = T.indices.put new m r.msg2order_db;
  }

  module _ {lo hi : ℕ} (r : Room T) (c : Coherent lo hi r) (new : String) (m k : ℕ)
      (fresh : T.indices.get new r.ev_to_order_db ≡ none)
      (free : T.messages.get m r.order2msg_db ≡ none) where
    add-forward :
        (i : ℕ) (id : String)
        → T.messages.get i (T.messages.put m new r.order2msg_db) ≡ some id
        → T.indices.get id (T.indices.put new m r.msg2order_db) ≡ some i
    add-forward i id h = ground (
      arith,
      T.messages.get-put m i new r.order2msg_db,
      T.indices.get-put new id m r.msg2order_db,
      c.forward i id,
      c.arrived new,
      eq_iff new id,
    )

    add-back :
        (i : ℕ) (id : String)
        → T.indices.get id (T.indices.put new m r.msg2order_db) ≡ some i
        → T.messages.get i (T.messages.put m new r.order2msg_db) ≡ some id
    add-back i id h = ground (
      arith,
      T.messages.get-put m i new r.order2msg_db,
      T.indices.get-put new id m r.msg2order_db,
      c.back i id,
      eq_iff new id,
    )

    add-arrived :
        (id : String)
        → T.indices.get id (T.indices.put new k r.ev_to_order_db) ≡ none
        → T.indices.get id (T.indices.put new m r.msg2order_db) ≡ none
    add-arrived id h = ground (
      arith,
      T.indices.get-put new id k r.ev_to_order_db,
      T.indices.get-put new id m r.msg2order_db,
      c.arrived id,
      eq_iff new id,
    )

  free_above :
      {lo hi : ℕ} (r : Room T) (c : Coherent lo hi r) → T.messages.get hi r.order2msg_db ≡ none
  free_above {hi} r c = elim (Option-cases (T.messages.get hi r.order2msg_db)) [
    | inl n ↦ n
    | inr (v, e) ↦ ground (arith, c.shown hi, e)
  ]

  free_below :
      {lo hi : ℕ} (r : Room T) (c : Coherent lo hi r) (m : ℕ)
      → suc m ≡ lo
      → T.messages.get m r.order2msg_db ≡ none
  free_below r c m b = elim (Option-cases (T.messages.get m r.order2msg_db)) [
    | inl n ↦ n
    | inr (v, e) ↦ ground (arith, c.shown m, e)
  ]

  pub append-Coherent :
      {lo hi : ℕ} (r : Room T) (c : Coherent lo hi r) (new : String) (k : ℕ)
      (entries : T.order.Table)
      → T.indices.get new r.ev_to_order_db ≡ none
      → Coherent lo (suc hi) (with_message hi new (T.indices.put new k r.ev_to_order_db) entries r)
  append-Coherent {hi} r c new k entries fresh = record {
    ordered = omega (arith, c.ordered);
    shown = λ i. ground (arith, T.messages.get-put hi i new r.order2msg_db, c.shown i, c.ordered);
    forward = add-forward r c new hi k fresh (free_above r c);
    back = add-back r c new hi k fresh (free_above r c);
    arrived = add-arrived r c new hi k fresh (free_above r c);
  }

  pub prepend-Coherent :
      {lo hi : ℕ} (r : Room T) (c : Coherent lo hi r) (new : String) (m k : ℕ)
      (entries : T.order.Table)
      → T.indices.get new r.ev_to_order_db ≡ none
      → suc m ≡ lo
      → Coherent m hi (with_message m new (T.indices.put new k r.ev_to_order_db) entries r)
  prepend-Coherent r c new m k entries fresh b = record {
    ordered = omega (arith, c.ordered);
    shown = λ i. ground (arith, T.messages.get-put m i new r.order2msg_db, c.shown i, c.ordered, b);
    forward = add-forward r c new m k fresh (free_below r c m b);
    back = add-back r c new m k fresh (free_below r c m b);
    arrived = add-arrived r c new m k fresh (free_below r c m b);
  }

  -- An event that is not shown has an index of arrival only.
  pub hide-Coherent :
      {lo hi : ℕ} (r : Room T) (c : Coherent lo hi r) (new : String) (k : ℕ)
      (entries : T.order.Table)
      → Coherent lo hi
          (record r { order_db = entries; ev_to_order_db = T.indices.put new k r.ev_to_order_db })
  hide-Coherent r c new k entries = record {
    ordered = c.ordered;
    shown = c.shown;
    forward = c.forward;
    back = c.back;
    arrived = λ id h.
        ground (arith, h, T.indices.get-put new id k r.ev_to_order_db, c.arrived id, eq_iff new id);
  }

  -- Whatever else is written.
  pub other-Coherent :
      {lo hi : ℕ} (r : Room T) (c : Coherent lo hi r) (entries : T.order.Table)
      (events : T.events.Table) (relations : T.related.Table) (pending : T.pending.Table)
      → Coherent lo hi (record r {
        order_db = entries;
        events_db = events;
        relations_db = relations;
        pending_db = pending;
      })
  other-Coherent r c entries events relations pending = record {
    ordered = c.ordered;
    shown = c.shown;
    forward = c.forward;
    back = c.back;
    arrived = c.arrived;
  }

  -- A room without messages.
  pub empty-Coherent :
      {lo hi m : ℕ} (r : Room T) (c : Coherent lo hi r)
      → ((i : ℕ) → T.messages.get i r.order2msg_db ≡ none)
      → Coherent m m r
  empty-Coherent r c none_there = record {
    ordered = omega arith;
    shown = λ i. ground (arith, none_there i);
    forward = c.forward;
    back = c.back;
    arrived = c.arrived;
  }

  is_some-some :
      (i : ℕ) (v : String) (t : T.messages.Table)
      → T.messages.get i t ≡ some v
      → is_some (T.messages.get i t) ≡ true
  is_some-some i v t e = ap is_some e

  pub some_of :
      (i : ℕ) (t : T.messages.Table)
      → is_some (T.messages.get i t) ≡ true
      → (v : String) × (T.messages.get i t ≡ some v)
  some_of i t e = elim (Option-cases (T.messages.get i t)) [
    | inl n ↦ absurd (ground (arith, e, n))
    | inr p ↦ p
  ]

  -- The bounds are those that LMDB's cursor finds.
  pub first-lo :
      {lo hi : ℕ} (r : Room T) (c : Coherent lo hi r) (k : ℕ)
      → T.messages.first r.order2msg_db ≡ some k
      → k ≡ lo
  first-lo {lo} {hi} r c k e =
      let (v, f) = T.messages.first-some k r.order2msg_db e in
      let (w, g) =
        some_of lo r.order2msg_db
          (ground (arith, c.shown k, c.shown lo, is_some-some k v r.order2msg_db f)) in
      ground (
        arith,
        c.shown k,
        is_some-some k v r.order2msg_db f,
        T.messages.first-le k lo w r.order2msg_db e g,
      )

  pub last-hi :
      {lo hi : ℕ} (r : Room T) (c : Coherent lo hi r) (k : ℕ)
      → T.messages.last r.order2msg_db ≡ some k
      → suc k ≡ hi
  last-hi {lo} {hi} r c k e =
      let (v, f) = T.messages.last-some k r.order2msg_db e in
      let s = is_some-some k v r.order2msg_db f in
      let (w, g) =
        some_of (hi - 1) r.order2msg_db (ground (arith, c.shown k, c.shown (hi - 1), s)) in
      ground (arith, c.shown k, s, T.messages.last-le k (hi - 1) w r.order2msg_db e g)

  pub not_known :
      (id : String) (r : Room T) → known T id r ≡ false → T.indices.get id r.ev_to_order_db ≡ none
  not_known id r k = elim (Option-cases (T.indices.get id r.ev_to_order_db)) [
    | inl n ↦ n
    | inr (v, e) ↦ ground (arith, k, e)
  ]
