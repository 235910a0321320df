-- ===== src/Cache/Forgotten.antt =====
-- What the last entry of `saveOldMessages` overwrites.
use nheko_library.Base.{ℕ, ◌≡◌, refl, ◌∙◌, String, List, [], ◌∷◌, some, arith}
use nheko_library.Cache.Room.{Event, CacheEnv, Tables, Room}
use nheko_library.Cache.Old.{Loading, load_event, load_events, start_loading, save_old_messages}

pub data AllRedactions : List Event → Type 0 where
  none_left : AllRedactions []
  one_more :
      (e : Event) (es : List Event) (id : String)
      → e.redacts ≡ some id
      → AllRedactions es
      → AllRedactions (e ∷ es)

module _ (T : Tables) where
  load_events-redactions :
      (env : CacheEnv) (es : List Event) (s : Loading T)
      → AllRedactions es
      → load_events T env es s ≡ s
  unfolding load_events load_event
  load_events-redactions env [] s none_left = refl
  load_events-redactions env (e ∷ es) s (one_more _ _ id r rs) =
      rw r (load_events-redactions env es s rs)

  -- Old messages of which all are redactions: the entry of the first event that is there, which is to get
  -- the token, loses its event id.
  pub save_old_messages-forgets :
      (env : CacheEnv) (end_token : String) (e : Event) (es : List Event) (r : Room T) (k : ℕ)
      → AllRedactions (e ∷ es)
      → T.order.first r.order_db ≡ some k
      → T.order.get k (save_old_messages T env end_token (e ∷ es) r).0.order_db
        ≡ some (record { event_id = ""; prev_batch = some end_token })
  unfolding save_old_messages
  save_old_messages-forgets env end_token e es r k all f =
      rw (load_events-redactions env (e ∷ es) (start_loading T r) all)
        (rw f (T.order.get-put k k _ r.order_db ∙ ground arith))
