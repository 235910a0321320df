-- ===== src/Crypto/PinnedRuns.antt =====
-- Runs of `Cache::updateUserKeys` and `Cache::markUserKeysOutOfDate`: a device that was seen keeps its keys.
use nheko_library.Base.{
  ◌≡◌, ◌∙◌, sym, String, List, [], ◌∷◌, some, Bool-cases, inl, inr, arith, eq_iff, str_eq,
  Option-cases, ltb, some-injective,
}
use nheko_library.Base.Text.{byte_size}
use nheko_library.Base.StdMap.{Map, lookup, insert, lookup-insert}
use nheko_library.Crypto.Keys.{UserKeyCache}
use nheko_library.Crypto.DeviceList.{
  Verifies, QueryKeys, update_entry, update_user, update_users, mark_user, mark_users_out_of_date,
  updates_of,
}
use nheko_library.Crypto.Pinned.{IsPinned, update_entry-IsPinned}

-- What changes the table of users' keys.
pub data Change : Type 0 where
  queried : (sync_token : String) (answer : QueryKeys) → Change
  marked : (sync_token : String) (user_ids : List String) → Change

abbrev pub apply_changes : Verifies → List Change → Map UserKeyCache → Map UserKeyCache
apply_changes verifies [] db = db
apply_changes verifies (queried token q ∷ cs) db =
    apply_changes verifies cs (update_users verifies token (updates_of q) db)
apply_changes verifies (marked token users ∷ cs) db =
    apply_changes verifies cs (mark_users_out_of_date token users db)

-- The user has an entry, and it has the device pinned.
abbrev pub Pins : (user id : String) → Map String → Map UserKeyCache → Type 0
Pins user id keys db = (c : UserKeyCache) × (lookup user db ≡ some c) × IsPinned id keys c

module _ (verifies : Verifies) (user id : String) (keys : Map String) where
  -- The entry of another user is as it was; that of this one has what is put there.
  Pins-insert :
      (other : String) (c : UserKeyCache) (db : Map UserKeyCache)
      → Pins user id keys db
      → (other ≡ user → IsPinned id keys c)
      → Pins user id keys (insert other c db)
  Pins-insert other c db (o, at, pinned) put = elim (Bool-cases (str_eq other user)) [
    | inl same ↦ (
      c,
      lookup-insert other user c db ∙ ground (arith, same),
      put (ground (arith, same, eq_iff other user)),
    )
    | inr differs ↦ (o, lookup-insert other user c db ∙ ground (arith, differs, at), pinned)
  ]

  Pins-read :
      (db : Map UserKeyCache) (c : UserKeyCache)
      → Pins user id keys db
      → lookup user db ≡ some c
      → IsPinned id keys c
  Pins-read db c (o, at, pinned) h = rw (some-injective (sym h ∙ at)) pinned

  update_user-Pins :
      (token other : String) (u : UserKeyCache) (db : Map UserKeyCache)
      → Pins user id keys db
      → Pins user id keys (update_user verifies other token u db)
  unfolding update_user
  update_user-Pins token other u db p = elim (Option-cases (lookup other db)) [
    | inl new ↦
        rw (update_user, new)
          (Pins-insert other _ db p (λ e. absurd (ground (arith, p.1, rw e at new))))
    | inr (o, at) ↦ elim (Option-cases (update_entry verifies other token u o)) [
      | inl kept ↦ rw (update_user, at, kept) p
      | inr (c, stored) ↦
          rw (update_user, at, stored)
            (Pins-insert other c db p (λ e.
              update_entry-IsPinned verifies other id keys token u o c
                (Pins-read db o p (rw (sym e) at)) stored))
    ]
  ]

  mark_user-Pins :
      (token other : String) (db : Map UserKeyCache)
      → Pins user id keys db
      → Pins user id keys (mark_user token other db)
  mark_user-Pins token other db p = elim (Bool-cases (ltb 255 (byte_size other))) [
    | inl skipped ↦ rw skipped p
    | inr asked ↦ rw asked (Pins-insert other _ db p (λ e. rw (e, p.1) p.2))
  ]

  update_users-Pins :
      (token : String) (us db : Map UserKeyCache)
      → Pins user id keys db
      → Pins user id keys (update_users verifies token us db)
  unfolding update_users
  update_users-Pins token [] db p = p
  update_users-Pins token ((other, u) ∷ us) db p =
      update_users-Pins token us (update_user verifies other token u db)
        (update_user-Pins token other u db p)

  mark_users-Pins :
      (token : String) (users : List String) (db : Map UserKeyCache)
      → Pins user id keys db
      → Pins user id keys (mark_users_out_of_date token users db)
  unfolding mark_users_out_of_date
  mark_users-Pins token [] db p = p
  mark_users-Pins token (other ∷ users) db p =
      mark_users-Pins token users (mark_user token other db) (mark_user-Pins token other db p)

  -- For a user that has an entry with a device id that was seen, and that is listed with no other than the
  -- given keys if it is listed: whatever is marked out of date and answered from then on, for this user
  -- and others, the user has an entry, and the id is never listed with other keys.
  pub apply_changes-Pins :
      (cs : List Change) (db : Map UserKeyCache)
      → Pins user id keys db
      → Pins user id keys (apply_changes verifies cs db)
  apply_changes-Pins [] db p = p
  apply_changes-Pins (queried token q ∷ cs) db p =
      apply_changes-Pins cs _ (update_users-Pins token (updates_of q) db p)
  apply_changes-Pins (marked token users ∷ cs) db p =
      apply_changes-Pins cs _ (mark_users-Pins token users db p)
