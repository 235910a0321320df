-- ===== src/Timeline/Rows.antt =====
-- Rows of the view, indices of the cache and ids.
use nheko_library.Base.{
  ℕ, suc, ◌+◌, ◌-◌, ◌^◌, ◌≤◌, ◌<◌, ◌≡◌, ◌≢◌, sym, ap, ◌∙◌, String, some, true, arith, eq_iff,
  Option-cases, inl, inr,
}
use nheko_library.Base.Int.{ℤ, pos}
use nheko_library.Cache.Room.{Tables}
use nheko_library.Cache.Reading.{get_timeline_index, get_timeline_event_id}
use nheko_library.Cache.Coherence.{Coherent, is_some}
use nheko_library.Timeline.Store.{
  Store, size, to_external_idx, to_internal_idx, id_to_index, index_to_id,
}

-- The store shows the messages of the cache, and there are fewer than an `int` counts.
pub record Shows (T : Tables) (lo hi : ℕ) (s : Store T) : Type 0 where
  pub coherent : Coherent T lo hi s.room
  pub from_first : s.first ≡ lo
  pub to_last : suc s.last ≡ hi
  pub some_shown : lo < hi
  pub not_many : hi < lo + 2 ^ 31
  pub in_range : hi < 2 ^ 64

module _ {T : Tables} where
  pub external-row :
      (s : Store T) (i : ℕ)
      → s.first ≤ i
      → i < s.first + 2 ^ 31
      → i < 2 ^ 64
      → to_external_idx i s ≡ pos (i - s.first)
  unfolding to_external_idx
  external-row s i a b c = ground arith

  internal-row :
      (s : Store T) (n : ℕ) → s.first + n < 2 ^ 64 → to_internal_idx (pos n) s ≡ s.first + n
  unfolding to_internal_idx
  internal-row s n a = ground arith

  within :
      {lo hi : ℕ} {s : Store T} (h : Shows T lo hi s) (i : ℕ) (id : String)
      → T.messages.get i s.room.order2msg_db ≡ some id
      → (lo ≤ i) × (i < hi)
  within h i id e = ground (arith, h.coherent.shown i, ap is_some e)

  index_stands :
      {lo hi : ℕ} {s : Store T} (h : Shows T lo hi s) (id : String) (i : ℕ)
      → get_timeline_index T id s.room ≡ some i
      → T.messages.get i s.room.order2msg_db ≡ some id
  unfolding get_timeline_index
  index_stands h id i e = ground (arith, e, h.coherent.back i id)

  row_of :
      {lo hi : ℕ} {s : Store T} (h : Shows T lo hi s) (id : String) (i : ℕ)
      → get_timeline_index T id s.room ≡ some i
      → id_to_index id s ≡ some (pos (i - s.first))
  unfolding id_to_index
  row_of {s = s} h id i n =
      let w = within h i id (index_stands h id i n) in
      rw (n, id_to_index)
        (ap some (
          external-row s i (omega (arith, h.from_first, w.0))
            (omega (arith, h.from_first, h.not_many, w.1)) (omega (arith, h.in_range, w.1))))

  id_of_row :
      {lo hi : ℕ} {s : Store T} (h : Shows T lo hi s) (n : ℕ)
      → n < hi - lo
      → index_to_id (pos n) s ≡ T.messages.get (s.first + n) s.room.order2msg_db
  unfolding index_to_id get_timeline_event_id
  id_of_row {s = s} h n b =
      ap (λ k. T.messages.get k s.room.order2msg_db)
        (internal-row s n (omega (arith, h.from_first, h.in_range, b)))

  -- The row that is found for an id has this id.
  row-id :
      {lo hi : ℕ} {s : Store T} (h : Shows T lo hi s) (id : String) (z : ℤ)
      → id_to_index id s ≡ some z
      → index_to_id z s ≡ some id
  unfolding id_to_index
  row-id {s = s} h id z e = elim (Option-cases (get_timeline_index T id s.room)) [
    | inl n ↦ ground (arith, n, e)
    | inr (i, n) ↦
        (let g = index_stands h id i n in
          let w = within h i id g in
          let q = row_of h id i n in
          let p : z ≡ pos (i - s.first) = cc in
          let k : s.first + (i - s.first) ≡ i = omega (arith, h.from_first, w.0) in
          ap (λ y. index_to_id y s) p
          ∙ id_of_row h (i - s.first) (omega (arith, h.from_first, w.0, w.1))
          ∙ ap (λ y. T.messages.get y s.room.order2msg_db) k
          ∙ g)
  ]

  -- The id in a row is found in that row.
  id-row :
      {lo hi : ℕ} {s : Store T} (h : Shows T lo hi s) (id : String) (n : ℕ)
      → n < hi - lo
      → id ≢ ""
      → index_to_id (pos n) s ≡ some id
      → id_to_index id s ≡ some (pos n)
  unfolding get_timeline_index
  id-row {s = s} h id n b m e =
      let f = h.coherent.forward (s.first + n) id (sym (id_of_row h n b) ∙ e) in
      let g : get_timeline_index T id s.room ≡ some (s.first + n) =
        ground (arith, f, m, eq_iff id "") in
      row_of h id (s.first + n) g ∙ ap (λ k. some (pos k)) (omega arith)

  -- A store that shows its messages has a row for each; every row has an id; the row that is found for an id has that id,
  -- and the id of a row, if it is not empty, is found in that row.
  pub row_round_trip :
      {lo hi : ℕ} {s : Store T} (h : Shows T lo hi s) (id : String) (n : ℕ) (z : ℤ)
      → (size s ≡ pos (hi - lo))
        × (n < hi - lo → is_some (index_to_id (pos n) s) ≡ true)
        × (id_to_index id s ≡ some z → index_to_id z s ≡ some id)
        × (n < hi - lo
            → id ≢ ""
            → index_to_id (pos n) s ≡ some id
            → id_to_index id s ≡ some (pos n))
  unfolding size
  row_round_trip {lo} {hi} {s} h id n z =
      let e : size s ≡ pos (hi - lo) =
        ground (arith, h.from_first, h.to_last, h.some_shown, h.in_range, h.not_many) in
      (
        e,
        λ b.
            (ap is_some (id_of_row h n b)
              ∙ h.coherent.shown (s.first + n)
              ∙ ground (arith, h.from_first, h.some_shown)),
        row-id h id z,
        λ b. id-row h id n b,
      )
