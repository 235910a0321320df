-- ===== src/Crypto/FreshStatus.antt =====
-- `Cache`: a remembered verification status is the one that would be computed.
use mathlib.Core.Path.{subst}
use nheko_library.Base.{
  ◌≡◌, refl, ◌∙◌, sym, ap, String, [], ◌∷◌, none, some, Bool, true, false, if◌then◌else◌, str_eq,
  arith, Option-cases, inl, inr, contains,
}
use nheko_library.Base.StdMap.{Map, lookup, has, insert, insert-cases, lookup-insert, lookup-erase}
use nheko_library.Crypto.Keys.{UserKeyCache}
use nheko_library.Crypto.DeviceList.{
  Verifies, QueryKeys, update_user, update_users, update_entry, updates_of,
}
use nheko_library.Crypto.Status.{
  VerificationStatus, VerificationCache, Own, Trusted, is_local, compute_status, current_status,
  verification_status,
}
use nheko_library.Crypto.Marking.{
  none_by_hand, forget_status, forget_all, mark_device_verified, mark_device_unverified,
  update_user_keys,
}

pub data Use : Type 0 where
  asked : (user_id : String) → Use
  marked_verified marked_unverified : (user_id key : String) → Use
  queried : (sync_token : String) (answer : QueryKeys) → Use

module _ (o : Own) where
  -- What is remembered of a user is what would be computed.
  abbrev pub IsFresh : Trusted → Type 0
  IsFresh db =
      (user : String) (s : VerificationStatus)
      → lookup user db.status ≡ some s
      → s ≡ current_status o user db

  abbrev pub use_status : Use → Trusted → Trusted
  use_status (asked user) db = (verification_status o user db).0
  use_status (marked_verified user key) db = mark_device_verified o user key db
  use_status (marked_unverified user key) db = mark_device_unverified o user key db
  use_status (queried token q) db = update_user_keys o token q db

  pub known-unchanged :
      (user : String) (s : VerificationStatus) (db : Trusted)
      → lookup user db.status ≡ some s
      → (verification_status o user db).0 ≡ db
  unfolding verification_status
  known-unchanged user s db at = rw (verification_status, at) refl

  pub new-remembered :
      (user : String) (db : Trusted)
      → lookup user db.status ≡ none
      → (verification_status o user db).0
        ≡ record db { status = insert user (current_status o user db) db.status }
  unfolding verification_status
  new-remembered user db new = rw (verification_status, new) refl

  remembered-IsFresh :
      (user : String) (db : Trusted)
      → IsFresh db
      → IsFresh (record db { status = insert user (current_status o user db) db.status })
  remembered-IsFresh user db fresh u s h =
      elim (insert-cases user u (current_status o user db) s db.status h) [
        | inl (here, is) ↦ subst (λ w. s ≡ current_status o w db) here (sym is)
        | inr at ↦ fresh u s at
      ]

  pub asked-IsFresh :
      (user : String) (db : Trusted) → IsFresh db → IsFresh ((verification_status o user db).0)
  unfolding verification_status
  asked-IsFresh user db fresh = elim (Option-cases (lookup user db.status)) [
    | inr (known, at) ↦ subst IsFresh (sym (known-unchanged user known db at)) fresh
    | inl new ↦ subst IsFresh (sym (new-remembered user db new)) (remembered-IsFresh user db fresh)
  ]

  -- Of the users that are still remembered, none is the one that changed.
  forget_status-cases :
      (user u : String) (status : Map VerificationStatus) (s : VerificationStatus)
      → lookup u (forget_status o user status) ≡ some s
      → (str_eq user u ≡ false) × (is_local o user ≡ false) × (lookup u status ≡ some s)
  forget_status-cases user u status s h = ground (arith, lookup-erase user u status)

  by_hand-IsFresh :
      (user : String) (v : VerificationCache) (db : Trusted)
      → IsFresh db
      → IsFresh (record db {
        verified_by_hand = insert user v db.verified_by_hand;
        status = forget_status o user db.status;
      })
  by_hand-IsFresh user v db fresh u s h =
      let (other, _, at) = forget_status-cases user u db.status s h in
      fresh u s at
      ∙ ap (compute_status o u (lookup o.local_user db.keys) (lookup u db.keys))
          (sym (lookup-insert user u v db.verified_by_hand ∙ rw other refl))

  if-IsFresh : (b : Bool) (x y : Trusted) → IsFresh x → IsFresh y → IsFresh (if b then x else y)
  if-IsFresh true x y f g = f
  if-IsFresh false x y f g = g

  mark_device_verified-IsFresh :
      (user key : String) (db : Trusted) → IsFresh db → IsFresh (mark_device_verified o user key db)
  unfolding mark_device_verified
  mark_device_verified-IsFresh user key db fresh =
      if-IsFresh (contains key (none_by_hand o (lookup user db.verified_by_hand)).device_verified) _
        _ fresh (by_hand-IsFresh user _ db fresh)

  mark_device_unverified-IsFresh :
      (user key : String) (db : Trusted)
      → IsFresh db
      → IsFresh (mark_device_unverified o user key db)
  unfolding mark_device_unverified
  mark_device_unverified-IsFresh user key db fresh = by_hand-IsFresh user _ db fresh

  forget_all-cases :
      (us : Map UserKeyCache) (u : String) (status : Map VerificationStatus)
      (s : VerificationStatus)
      → lookup u (forget_all o us status) ≡ some s
      → (has u us ≡ false) × (has o.local_user us ≡ false) × (lookup u status ≡ some s)
  forget_all-cases [] u status s h = (refl, refl, h)
  forget_all-cases ((user, _) ∷ us) u status s h =
      let (other, local, at) = forget_all-cases us u (forget_status o user status) s h in
      let (differs, not_local, there) = forget_status-cases user u status s at in
      (rw differs other, rw not_local local, there)

  update_user-other :
      (verifies : Verifies) (token user : String) (v : UserKeyCache) (db : Map UserKeyCache)
      (u : String)
      → str_eq user u ≡ false
      → lookup u (update_user verifies user token v db) ≡ lookup u db
  unfolding update_user
  update_user-other verifies token user v db u differs = elim (Option-cases (lookup user db)) [
    | inl new ↦ rw (update_user, new) (lookup-insert user u _ db ∙ rw differs refl)
    | inr (old, at) ↦ elim (Option-cases (update_entry verifies user token v old)) [
      | inl kept ↦ rw (update_user, at, kept) refl
      | inr (c, stored) ↦ rw (update_user, at, stored) (lookup-insert user u c db ∙ rw differs refl)
    ]
  ]

  update_users-other :
      (verifies : Verifies) (token : String) (us db : Map UserKeyCache) (u : String)
      → has u us ≡ false
      → lookup u (update_users verifies token us db) ≡ lookup u db
  unfolding update_users
  update_users-other verifies token [] db u h = refl
  update_users-other verifies token ((user, v) ∷ us) db u h =
      update_users-other verifies token us (update_user verifies user token v db) u (ground arith)
      ∙ update_user-other verifies token user v db u (ground arith)

  update_user_keys-IsFresh :
      (token : String) (q : QueryKeys) (db : Trusted)
      → IsFresh db
      → IsFresh (update_user_keys o token q db)
  unfolding update_user_keys
  update_user_keys-IsFresh token q db fresh u s h =
      let (other, local, at) = forget_all-cases (updates_of q) u db.status s h in
      fresh u s at
      ∙ ap (λ k. compute_status o u k (lookup u db.keys) (lookup u db.verified_by_hand))
          (sym (update_users-other o.verifies token (updates_of q) db.keys o.local_user local))
      ∙ ap
          (λ k.
            compute_status o u
              (lookup o.local_user (update_users o.verifies token (updates_of q) db.keys)) k
              (lookup u db.verified_by_hand))
          (sym (update_users-other o.verifies token (updates_of q) db.keys u other))

  -- Where what is remembered is what would be computed, it stays so whatever is asked for, marked as
  -- verified or not, and taken over from the server.
  pub use_status-IsFresh : (x : Use) (db : Trusted) → IsFresh db → IsFresh (use_status x db)
  use_status-IsFresh (asked user) db fresh = asked-IsFresh user db fresh
  use_status-IsFresh (marked_verified user key) db fresh =
      mark_device_verified-IsFresh user key db fresh
  use_status-IsFresh (marked_unverified user key) db fresh =
      mark_device_unverified-IsFresh user key db fresh
  use_status-IsFresh (queried token q) db fresh = update_user_keys-IsFresh token q db fresh
