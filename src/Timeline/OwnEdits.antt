-- ===== src/Timeline/OwnEdits.antt =====
-- Who may edit a message.
use Prim.{tt}
use mathlib.Core.Path.{subst}
use nheko_library.Base.{
  eq_iff, ◌≡◌, refl, sym, ap, ◌∙◌, String, List, [], ◌∷◌, Option, some, Bool, true, false, str_eq,
  ◌⊎◌, arith, Bool-cases, Option-cases, inl, inr,
}
use nheko_library.Cache.Room.{Tables, Room}
use nheko_library.Timeline.Store.{Store}
use nheko_library.Cache.Reading.{related_events}
use nheko_library.Timeline.Edits.{
  Parsed, is_edit, as_edit, last_of, get_event, get_stored, collect_edits, arrived_before,
  insert_edit, sort_edits, edits_of, edits, latest_edit, get_edited,
}

-- What holds of every event of a list.
abbrev pub All : (Parsed → Bool) → List Parsed → Type 0
All p [] = Unit
All p (e ∷ es) = (p e ≡ true) × All p es

last_of-All :
    (p : Parsed → Bool) (es : List Parsed) (e : Parsed)
    → All p es
    → last_of es ≡ some e
    → p e ≡ true
last_of-All p [] e a h = ground arith
last_of-All p (d ∷ ds) e (b, a) h = elim (Option-cases (last_of ds)) [
  | inl n ↦ ground (arith, ap p, h, n, b)
  | inr (c, n) ↦ last_of-All p ds e a (n ∙ ground (arith, h, n))
]

as_edit-is_edit :
    (id : String) (o e : Parsed) → is_edit id o e ≡ true → is_edit id o (as_edit o e) ≡ true
as_edit-is_edit id o e h = ground (arith, h)

replaces_own :
    (id : String) (o e : Parsed)
    → is_edit id o e ≡ true
    → o.redacted ≡ false
    → (e.replaces ≡ some id) × (e.sender ≡ o.sender) × (o.redacted ≡ false)
replaces_own id o e h b = elim (Option-cases e.replaces) [
  | inl n ↦ ground (arith, n, h, b)
  | inr (i, n) ↦ ground (arith, n, h, b, eq_iff i id, eq_iff o.sender e.sender)
]

module _ {T : Tables} where
  insert_edit-All :
      (p : Parsed → Bool) (r : Room T) (e : Parsed) (es : List Parsed)
      → p e ≡ true
      → All p es
      → All p (insert_edit r e es)
  unfolding insert_edit
  insert_edit-All p r e [] b a = (b, a)
  insert_edit-All p r e (d ∷ ds) b (c, a) = elim (Bool-cases (arrived_before r e d)) [
    | inl n ↦ rw (n, insert_edit) (b, (c, a))
    | inr n ↦ rw (n, insert_edit) (c, insert_edit-All p r e ds b a)
  ]

  sort_edits-All :
      (p : Parsed → Bool) (r : Room T) (es : List Parsed) → All p es → All p (sort_edits r es)
  unfolding sort_edits
  sort_edits-All p r [] a = a
  sort_edits-All p r (e ∷ es) (b, a) =
      insert_edit-All p r e (sort_edits r es) b (sort_edits-All p r es a)

module _ {T : Tables} (parse : String → Option Parsed) where
  collect_edits-All :
      (id : String) (o : Parsed) (is : List String) (s : Store T)
      → All (is_edit id o) (collect_edits parse id o is s).1
  unfolding collect_edits
  collect_edits-All id o [] s = tt
  collect_edits-All id o (i ∷ is) s = elim (Option-cases (get_stored parse i id s).1) [
    | inl n ↦ rw (n, collect_edits) (collect_edits-All id o is (get_stored parse i id s).0)
    | inr (e, n) ↦ elim (Bool-cases (is_edit id o e)) [
      | inl b ↦
          rw (n, b, collect_edits)
            (as_edit-is_edit id o e b, collect_edits-All id o is (get_stored parse i id s).0)
      | inr b ↦ rw (n, b, collect_edits) (collect_edits-All id o is (get_stored parse i id s).0)
    ]
  ]

  get_stored-event :
      (id related_to : String) (o : Parsed) (s : Store T)
      → str_eq id "" ≡ false
      → get_event parse id s.room ≡ some o
      → get_stored parse id related_to s ≡ (s, some o)
  unfolding get_stored
  get_stored-event id related_to o s n h = rw (n, h) refl

  get_stored-room :
      (id related_to : String) (s : Store T) → (get_stored parse id related_to s).0.room ≡ s.room
  unfolding get_stored
  get_stored-room id related_to s = elim (Bool-cases (str_eq id "")) [
    | inl n ↦ rw n refl
    | inr n ↦ elim (Option-cases (get_event parse id s.room)) [
      | inl h ↦ rw (n, h) refl
      | inr (o, h) ↦ rw (n, h) refl
    ]
  ]

  collect_edits-room :
      (id : String) (o : Parsed) (is : List String) (s : Store T)
      → (collect_edits parse id o is s).0.room ≡ s.room
  unfolding collect_edits
  collect_edits-room id o [] s = refl
  collect_edits-room id o (i ∷ is) s =
      let t = (get_stored parse i id s).0 in
      let same : (collect_edits parse id o is t).0.room ≡ s.room =
        collect_edits-room id o is t ∙ get_stored-room i id s in
      elim (Option-cases (get_stored parse i id s).1) [
        | inl n ↦ rw (n, collect_edits) same
        | inr (e, n) ↦ elim (Bool-cases (is_edit id o e)) [
          | inl b ↦ rw (n, b, collect_edits) same
          | inr b ↦ rw (n, b, collect_edits) same
        ]
      ]

  edits-cases :
      (id : String) (o : Parsed) (s : Store T)
      → get_stored parse id "" s ≡ (s, some o)
      → (edits parse id s ≡ (s, []))
        ⊎ ((o.redacted ≡ false)
            × (let p = collect_edits parse id o (related_events T id s.room) s in
                edits parse id s ≡ (p.0, sort_edits p.0.room p.1)))
  unfolding edits edits_of
  edits-cases id o s h =
      let e = ap (edits_of parse id (related_events T id s.room)) h in
      elim (Bool-cases o.redacted) [ inl b ↦ inl (e ∙ rw b refl) | inr b ↦ inr (b, e ∙ rw b refl) ]

  -- An event that was edited is the last one of its edits, and any other is read as it is stored.
  latest_edit-All :
      (p : Parsed → Bool) (id related_to : String) (o e : Parsed) (es : List Parsed) (s : Store T)
      → get_stored parse id related_to s ≡ (s, some o)
      → All p es
      → (latest_edit parse id related_to (s, es)).1 ≡ some e
      → (e ≡ o) ⊎ (p e ≡ true)
  unfolding latest_edit
  latest_edit-All p id related_to o e es s h a g = elim (Option-cases (last_of es)) [
    | inl n ↦
        (let q : some o ≡ some e =
            sym (ap (λ (r : Store T × Option Parsed). r.1) h) ∙ (rw (n, latest_edit) at g) in
          inl (sym (ground (arith, q))))
    | inr (d, n) ↦ inr (last_of-All p es e a (n ∙ (rw (n, latest_edit) at g)))
  ]

  -- What is shown for an id whose event is stored is this event, or an edit of it: an event of the same
  -- sender that replaces this id. A redacted event is shown as it is.
  pub get_edited-own :
      (id related_to : String) (o e : Parsed) (s : Store T)
      → get_event parse id s.room ≡ some o
      → (get_edited parse id related_to s).1 ≡ some e
      → (e ≡ o) ⊎ ((e.replaces ≡ some id) × (e.sender ≡ o.sender) × (o.redacted ≡ false))
  unfolding get_edited
  get_edited-own id related_to o e s h g = elim (Bool-cases (str_eq id "")) [
    | inl n ↦ absurd (ground (arith, rw n at g))
    | inr n ↦
        (let g' : (latest_edit parse id related_to (edits parse id s)).1 ≡ some e = rw n at g in
          let shown : Store T × List Parsed → Type 0 =
            λ r. (latest_edit parse id related_to r).1 ≡ some e in
          elim (edits-cases id o s (get_stored-event id "" o s n h)) [
            | inl k ↦
                elim (latest_edit-All (λ d. false) id related_to o e [] s
                  (get_stored-event id related_to o s n h) tt (subst shown k g')) [
                    | inl q ↦ inl q
                    | inr q ↦ absurd (ground (arith, q))
                  ]
            | inr (b, k) ↦
                (let c = collect_edits parse id o (related_events T id s.room) s in
                  let there : get_event parse id c.0.room ≡ some o =
                    ap (get_event parse id) (collect_edits-room id o (related_events T id s.room) s)
                    ∙ h in
                  elim (latest_edit-All (is_edit id o) id related_to o e (sort_edits c.0.room c.1)
                    c.0 (get_stored-event id related_to o c.0 n there)
                    (sort_edits-All (is_edit id o) c.0.room c.1
                      (collect_edits-All id o (related_events T id s.room) s))
                    (subst shown k g')) [ inl q ↦ inl q | inr q ↦ inr (replaces_own id o e q b) ])
          ])
  ]
