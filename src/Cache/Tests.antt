-- ===== src/Cache/Tests.antt =====
-- A room with two messages, and what is saved to it.
use nheko_library.Base.{
  ℕ, ◌≡◌, refl, String, [], ◌∷◌, none, some, false, arith, eq_iff, eq_refl, str_eq, ◌≢◌, ap,
}
use nheko_library.Cache.Room.{OrderEntry, Event, CacheEnv, Room}
use nheko_library.Cache.Saving.{save_timeline_messages, start_saving, save_event}
use nheko_library.Cache.Old.{save_old_messages}
use nheko_library.Cache.ListTables.{list_tables}
use nheko_library.Cache.Coherence.{Coherent}
use nheko_library.Cache.Loaded.{save_old_messages-Coherent}
use nheko_library.Cache.Saved.{save_timeline_messages-Coherent, AllFitting, none_left, one_more}

pub distinct : (s t : String) → str_eq s t ≡ false → s ≢ t
distinct s t h e = ground (arith, ap (λ w. str_eq w t) e, eq_refl t, h)

abbrev pub note : (event_id : String) → Event
note id = record {
  event_id = id;
  transaction_id = "";
  redacts = none;
  relations = [];
  replaces = none;
  json = "{}";
}

abbrev pub show_all_env : CacheEnv
show_all_env = record { is_hidden = λ e. false; redacted = λ old e. some e.json }

abbrev entry : String → OrderEntry
entry id = record { event_id = id; prev_batch = none }

-- `m1` is not at the server yet.
abbrev pub two_notes : Room list_tables
two_notes = record {
  order_db = (20, entry "$a") ∷ (21, entry "m1") ∷ [];
  ev_to_order_db = ("$a", 20) ∷ ("m1", 21) ∷ [];
  order2msg_db = (100, "$a") ∷ (101, "m1") ∷ [];
  msg2order_db = ("$a", 100) ∷ ("m1", 101) ∷ [];
  events_db = ("$a", "{}") ∷ ("m1", "{}") ∷ [];
  relations_db = [];
  pending_db = (1700, "m1") ∷ [];
}

abbrev Apart : String → String → Type 0
Apart a b = a ≢ b

apart : Apart "$a" "m1"
apart = distinct "$a" "m1" refl

third_differs : Apart "$a" "$c"
third_differs = distinct "$a" "$c" refl

third_is_new : Apart "m1" "$c"
third_is_new = distinct "m1" "$c" refl

pub two_notes-Coherent : Coherent list_tables 100 102 two_notes
two_notes-Coherent = record {
  ordered = omega arith;
  shown = λ i. ground arith;
  forward = λ i id h. ground (arith, eq_iff "$a" id, eq_iff "m1" id, apart);
  back = λ i id h. ground (arith, eq_iff "$a" id, eq_iff "m1" id, apart);
  arrived = λ id h. ground (arith, eq_iff "$a" id, eq_iff "m1" id, apart);
}

save_old_messages-Coherent_example :
    let n =
      save_old_messages list_tables show_all_env "t1" (note "$y" ∷ note "$x" ∷ []) two_notes in
    (j : ℕ) × Coherent list_tables n.1 j n.0
save_old_messages-Coherent_example =
    save_old_messages-Coherent list_tables show_all_env "t1" (note "$y") (note "$x" ∷ []) 100 102
      two_notes two_notes-Coherent (omega arith) (omega arith) (omega arith)

abbrev echo : Event
echo = record (note "$b") { transaction_id = "m1" }

two_events-AllFitting :
    AllFitting list_tables show_all_env "t0"
      (echo ∷ note "$c" ∷ [])
      (start_saving list_tables two_notes)
unfolding save_event
two_events-AllFitting =
    one_more echo (note "$c" ∷ []) _ (λ at h. (refl, distinct "m1" "$b" refl))
      (one_more (note "$c") [] _ (λ at h. ground arith) (none_left _))

save_timeline_messages-Coherent_example :
    (k : ℕ) × (j : ℕ) × Coherent list_tables k j
      (save_timeline_messages list_tables show_all_env false "t0" (echo ∷ note "$c" ∷ []) two_notes)
save_timeline_messages-Coherent_example =
    save_timeline_messages-Coherent list_tables show_all_env false "t0" (echo ∷ note "$c" ∷ []) 100
      102 two_notes two_notes-Coherent (omega arith) (omega arith) two_events-AllFitting

abbrev redaction : Event
redaction = record (note "$r") { redacts = some "$q" }

abbrev pub three_notes : Room list_tables
three_notes = record two_notes {
  order_db = (20, entry "$a") ∷ (21, entry "m1") ∷ (22, entry "$c") ∷ [];
  ev_to_order_db = ("$a", 20) ∷ ("m1", 21) ∷ ("$c", 22) ∷ [];
  order2msg_db = (100, "$a") ∷ (101, "m1") ∷ (102, "$c") ∷ [];
  msg2order_db = ("$a", 100) ∷ ("m1", 101) ∷ ("$c", 102) ∷ [];
}

pub three_notes-Coherent : Coherent list_tables 100 103 three_notes
three_notes-Coherent = record {
  ordered = omega arith;
  shown = λ i. ground arith;
  forward = λ i id h.
      ground
        (arith, eq_iff "$a" id, eq_iff "m1" id, eq_iff "$c" id, apart, third_differs, third_is_new);
  back = λ i id h.
      ground
        (arith, eq_iff "$a" id, eq_iff "m1" id, eq_iff "$c" id, apart, third_differs, third_is_new);
  arrived = λ id h.
      ground
        (arith, eq_iff "$a" id, eq_iff "m1" id, eq_iff "$c" id, apart, third_differs, third_is_new);
}
