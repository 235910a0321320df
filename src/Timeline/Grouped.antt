-- ===== src/Timeline/Grouped.antt =====
-- The reactions to a message are those of the events that react to it, grouped by their keys.
use mathlib.Core.Path.{subst}
use nheko_library.Base.{
  ◌≡◌, refl, sym, ap, ◌∙◌, String, List, [], ◌∷◌, ◌++◌, map, Option, none, some, ◌==◌, str_eq,
  if◌then◌else◌, length, length-append, arith, eq_iff, Bool-cases, Option-cases, inl, inr,
}
use nheko_library.Base.StdMap.{lookup, lookup-insert}
use nheko_library.Cache.Room.{Tables}
use nheko_library.Cache.Reading.{related_events}
use nheko_library.Timeline.Store.{Store}
use nheko_library.Timeline.Edits.{Parsed, get_edited}
use nheko_library.Timeline.Reactions.{
  ReactionEnv, TempReaction, Reaction, entry_of, Aggregated, with_user, add_reaction, aggregate_one,
  aggregate, to_reaction, reactions,
}

-- An event that reacts, and its key.
pub record Reacting : Type 0 where
  pub key : String
  pub event : Parsed

abbrev pub selected : (key : String) → List Reacting → List Parsed
selected k [] = []
selected k (r ∷ rs) = let rest = selected k rs in if str_eq r.key k then r.event ∷ rest else rest

abbrev pub remove : String → List String → List String
remove k [] = []
remove k (j ∷ js) = let rest = remove k js in if str_eq j k then rest else j ∷ rest

-- The keys without repetition, in the order in which they first come.
abbrev pub first_keys : List Reacting → List String
first_keys [] = []
first_keys (r ∷ rs) = r.key ∷ remove r.key (first_keys rs)

-- The last event of this sender.
abbrev pub last_of_sender : (sender : String) → List Parsed → (otherwise : String) → String
last_of_sender u [] o = o
last_of_sender u (e ∷ es) o = last_of_sender u es (if str_eq e.sender u then e.event_id else o)

abbrev pub group_of : ReactionEnv → List Parsed → TempReaction
group_of env es = record {
  count = length es;
  users = map (λ (e : Parsed). env.display_name e.sender) es;
  reacted_by_self = last_of_sender env.self es "";
}

abbrev pub group : ReactionEnv → String → List Reacting → TempReaction
group env k rs = group_of env (selected k rs)

append_none {ℓ} : {A : Type ℓ} (xs : List A) → xs ++ [] ≡ xs
append_none [] = refl
append_none (x ∷ xs) = ap (λ l. x ∷ l) (append_none xs)

append_assoc {ℓ} : {A : Type ℓ} (xs ys zs : List A) → (xs ++ ys) ++ zs ≡ xs ++ (ys ++ zs)
append_assoc [] ys zs = refl
append_assoc (x ∷ xs) ys zs = ap (λ l. x ∷ l) (append_assoc xs ys zs)

map-same :
    (f g : String → Reaction)
    → ((k : String) → f k ≡ g k)
    → (ks : List String) → map f ks ≡ map g ks
map-same f g h [] = refl
map-same f g h (k ∷ ks) = rw (h k, map-same f g h ks) refl

selected-append :
    (k : String) (rs : List Reacting) (r : Reacting)
    → selected k (rs ++ r ∷ [])
      ≡ (if str_eq r.key k then selected k rs ++ r.event ∷ [] else selected k rs)
selected-append k [] r = refl
selected-append k (q ∷ rs) r = ground (arith, selected-append k rs r)

map-append :
    (f : Parsed → String) (es : List Parsed) (e : Parsed)
    → map f (es ++ e ∷ []) ≡ map f es ++ f e ∷ []
map-append f [] e = refl
map-append f (d ∷ es) e = ap (λ l. f d ∷ l) (map-append f es e)

last_of_sender-append :
    (u : String) (es : List Parsed) (e : Parsed) (o : String)
    → last_of_sender u (es ++ e ∷ []) o
      ≡ (if str_eq e.sender u then e.event_id else last_of_sender u es o)
last_of_sender-append u [] e o = refl
last_of_sender-append u (d ∷ es) e o = last_of_sender-append u es e _

remove-append :
    (k j : String) (js : List String)
    → remove k (js ++ j ∷ []) ≡ (if str_eq j k then remove k js else remove k js ++ j ∷ [])
remove-append k j [] = ground arith
remove-append k j (i ∷ js) = ground (arith, remove-append k j js)

first_keys-append :
    (rs : List Reacting) (r : Reacting)
    → first_keys (rs ++ r ∷ [])
      ≡ (if length (selected r.key rs) == 0 then first_keys rs ++ r.key ∷ [] else first_keys rs)
first_keys-append [] r = refl
first_keys-append (q ∷ rs) r =
    let ih = ap (remove q.key) (first_keys-append rs r) in
    let step = remove-append q.key r.key (first_keys rs) in
    elim (Bool-cases (length (selected r.key rs) == 0)) [
      | inl n ↦ ground (arith, ih, step, n, eq_iff q.key r.key, eq_iff r.key q.key)
      | inr n ↦ ground (arith, ih, n)
    ]

-- A message's reactions group the events so far.
record Groups {T : Tables} (env : ReactionEnv) (rs : List Reacting) (a : Aggregated T)
    : Type 0 where
  entries : (k : String) → entry_of (lookup k a.aggregation) ≡ group env k rs
  in_order : a.keys ≡ first_keys rs

group_of-append :
    (env : ReactionEnv) (es : List Parsed) (e : Parsed)
    → group_of env (es ++ e ∷ []) ≡ with_user env e (group_of env es)
group_of-append env es e =
    rw
      (
        length-append es (e ∷ []),
        map-append (λ (d : Parsed). env.display_name d.sender) es e,
        last_of_sender-append env.self es e "",
      )
      refl

group-append :
    (env : ReactionEnv) (k : String) (rs : List Reacting) (r : Reacting)
    → group env k (rs ++ r ∷ [])
      ≡ (if str_eq r.key k then with_user env r.event (group env k rs) else group env k rs)
group-append env k rs r = elim (Bool-cases (str_eq r.key k)) [
  | inl h ↦ rw h (
      ap (group_of env) (selected-append k rs r ∙ rw h refl)
      ∙ group_of-append env (selected k rs) r.event)
  | inr h ↦ rw h (ap (group_of env) (selected-append k rs r ∙ rw h refl))
]

abbrev pub reacting_in : ReactionEnv → Option Parsed → List Reacting
reacting_in env none = []
reacting_in env (some e) = elim (env.read_key e) [
  | none ↦ []
  | some k ↦ record { key = k; event = e } ∷ []
]

module _ {T : Tables} (env : ReactionEnv) where
  add_reaction-Groups :
      (rs : List Reacting) (k : String) (e : Parsed) (a : Aggregated T)
      → Groups env rs a
      → Groups env (rs ++ (record { key = k; event = e }) ∷ []) (add_reaction env k e a)
  unfolding add_reaction
  add_reaction-Groups rs k e a g =
      let new = with_user env e (entry_of (lookup k a.aggregation)) in
      let r : Reacting = record { key = k; event = e } in
      record {
        entries = λ j. elim (Bool-cases (str_eq k j)) [
          | inl h ↦
              (let same : k ≡ j = ground (arith, h, eq_iff k j) in
                rw (lookup-insert k j new a.aggregation, h)
                  (ap (with_user env e) (g.entries k ∙ ap (λ i. group env i rs) same)
                    ∙ sym (group-append env j rs r ∙ rw h refl)))
          | inr h ↦
              rw (lookup-insert k j new a.aggregation, h)
                (g.entries j ∙ sym (group-append env j rs r ∙ rw h refl))
        ];
        in_order =
            rw (ap (λ (t : TempReaction). t.count) (g.entries k), g.in_order)
              (sym (first_keys-append rs r));
      }

  -- The reactions among events with these ids.
  abbrev pub reacting : (event_id : String) → List String → Store T → List Reacting
  reacting id [] s = []
  reacting id (i ∷ is) s =
      let (t, found) = get_edited env.parse i id s in
      let rest = reacting id is t in reacting_in env found ++ rest

  aggregate_one-Groups :
      (rs : List Reacting) (found : Option Parsed) (a : Aggregated T)
      → Groups env rs a
      → Groups env (rs ++ reacting_in env found) (aggregate_one env found a)
  unfolding aggregate_one
  aggregate_one-Groups rs none a g = rw (append_none rs) g
  aggregate_one-Groups rs (some e) a g = elim (Option-cases (env.read_key e)) [
    | inl n ↦ rw (reacting_in, aggregate_one, n, append_none rs) g
    | inr (k, n) ↦ rw (reacting_in, aggregate_one, n) (add_reaction-Groups rs k e a g)
  ]

  aggregate_one-store :
      (found : Option Parsed) (a : Aggregated T) → (aggregate_one env found a).store ≡ a.store
  unfolding aggregate_one add_reaction
  aggregate_one-store none a = refl
  aggregate_one-store (some e) a = elim (Option-cases (env.read_key e)) [
    | inl n ↦ rw (n, aggregate_one) refl
    | inr (k, n) ↦ rw (n, aggregate_one) refl
  ]

  aggregate-Groups :
      (id : String) (is : List String) (rs : List Reacting) (a : Aggregated T)
      → Groups env rs a
      → Groups env (rs ++ reacting id is a.store) (aggregate env id is a)
  unfolding aggregate
  aggregate-Groups id [] rs a g = rw (append_none rs) g
  aggregate-Groups id (i ∷ is) rs a g =
      let p = get_edited env.parse i id a.store in
      let b = aggregate_one env p.1 (record a { store = p.0 }) in
      let before : Groups env rs (record a { store = p.0 }) = record {
        entries = g.entries;
        in_order = g.in_order;
      } in
      let one = aggregate_one-Groups rs p.1 (record a { store = p.0 }) before in
      let all = aggregate-Groups id is (rs ++ reacting_in env p.1) b one in
      subst (λ l. Groups env l (aggregate env id is b))
        (append_assoc rs (reacting_in env p.1) (reacting id is b.store)
          ∙ ap (λ t. rs ++ (reacting_in env p.1 ++ reacting id is t))
              (aggregate_one-store p.1 (record a { store = p.0 })))
        all

  -- There is one entry for each key that reactions to the message have, in the order in which the keys
  -- first come. It counts the reactions with this key and names their senders in their order, and its
  -- own reaction is the last one that the user sent.
  pub reactions-grouped :
      (id : String) (s : Store T)
      → let rs = reacting id (related_events T id s.room) s in
        (reactions env id s).1
        ≡ map (λ (k : String). to_reaction k (group env k rs)) (first_keys rs)
  unfolding reactions
  reactions-grouped id s =
      let start : Aggregated T = record { store = s; aggregation = []; keys = [] } in
      let g =
        aggregate-Groups id (related_events T id s.room) [] start
          (record { entries = λ k. refl; in_order = refl }) in
      rw g.in_order (map-same _ _ (λ k. ap (to_reaction k) (g.entries k)) (first_keys _))
