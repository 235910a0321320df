-- ===== src/Crypto/Targeted.antt =====
-- `olm::encrypt_group_message`: which devices a session that is used further is sent to.
use nheko_library.Base.{
  ℕ, ◌≡◌, refl, ◌∙◌, String, List, [], ◌∷◌, ◌++◌, Option, none, some, Bool, true, false, not, ◌&&◌,
  ◌||◌, if◌then◌else◌, str_eq, str_lt, arith, eq_iff, Bool-cases, inl, inr, contains,
}
use nheko_library.Base.Text.{str_lt_irrefl}
use nheko_library.Base.Sorted.{IsSorted}
use nheko_library.Base.StdMap.{Map, lookup, has, insert, lookup-insert}
use nheko_library.Crypto.Keys.{DeviceKeys, UserKeyCache}
use nheko_library.Crypto.Sessions.{SharedWithUsers}
use nheko_library.Crypto.Sharing.{
  Members, Targets, devices_of, or_nil, push, is_own_device, push_devices, share_with_member,
}
use nheko_library.Crypto.StillMembers.{has_device}

-- The device is one to send the session to.
abbrev pub is_target : (user device : String) → Targets → Bool
is_target user device t = contains device (or_nil (lookup user t))

contains-append :
    (d e : String) (l : List String) → contains d (l ++ e ∷ []) ≡ (contains d l || str_eq e d)
contains-append d e [] = ground arith
contains-append d e (x ∷ l) = ground (arith, contains-append d e l)

is_target-push :
    (u d v e : String) (t : Targets)
    → is_target v e (push u d t) ≡ (is_target v e t || (str_eq u v && str_eq d e))
is_target-push u d v e t = ground (
  arith,
  lookup-insert u v (or_nil (lookup u t) ++ d ∷ []) t,
  eq_iff u v,
  contains-append e d (or_nil (lookup u t)),
)

module _ (own_user own_device : String) where
  -- A device of the list, not known, and not this one.
  abbrev pub is_new : (user : String) → (known : Map ℕ) → Map DeviceKeys → (device : String) → Bool
  is_new user known ds d =
      has d ds && (not (has d known) && not (is_own_device own_user own_device user d))

  pub is_target-push_devices :
      (u : String) (known : Map ℕ) (ds : Map DeviceKeys) (t : Targets) (v e : String)
      → is_target v e (push_devices own_user own_device u known ds t)
        ≡ (is_target v e t || (str_eq u v && is_new u known ds e))
  is_target-push_devices u known [] t v e = ground arith
  is_target-push_devices u known ((d, k) ∷ ds) t v e =
      is_target-push_devices u known ds
        (if has d known || is_own_device own_user own_device u d then t else push u d t) v e
      ∙ ground (arith, is_target-push u d v e t, eq_iff d e)

  -- The users are not among the targets yet.
  abbrev pub IsFresh : Members → Targets → Type 0
  IsFresh ms t = (v e : String) → has v ms ≡ true → is_target v e t ≡ false

  abbrev pub is_shared : (user device : String) → SharedWithUsers → Bool
  is_shared user device shared = elim (lookup user shared) [
    | none ↦ false
    | some ds ↦ has device ds
  ]

  -- A device of a member that does not have the session, and is not this one.
  abbrev pub is_wanted : (user device : String) → Members → SharedWithUsers → Bool
  is_wanted v e ms shared =
      has_device v e ms
      && (not (is_shared v e shared) && not (is_own_device own_user own_device v e))

  pub is_target-share_with_member :
      (u : String) (k : Option UserKeyCache) (t : Targets) (v e : String)
      → (str_eq u v ≡ true → is_target v e t ≡ false)
      → is_target v e (share_with_member own_user own_device u k t)
        ≡ (is_target v e t || (str_eq u v && is_new u [] (devices_of k) e))
  is_target-share_with_member u k t v e fresh =
      is_target-push_devices u [] (devices_of k) (insert u [] t) v e
      ∙ ground (arith, lookup-insert u v [] t, fresh)

  absent : (v e : String) (ms : Members) → has v ms ≡ false → has_device v e ms ≡ false
  absent v e [] h = refl
  absent v e ((u, k) ∷ ms) h = ground (arith, absent v e ms)

  not_after :
      (u v : String) (ms : Members)
      → ((j : String) → has j ms ≡ true → str_lt u j ≡ true)
      → str_eq u v ≡ true
      → has v ms ≡ false
  not_after u v ms above here = ground (arith, above v, eq_iff u v, str_lt_irrefl u)

  pub is_wanted-first :
      (u : String) (k : Option UserKeyCache) (ms : Members) (known : Map ℕ)
      (shared shared' : SharedWithUsers) (v e : String)
      → IsSorted ((u, k) ∷ ms)
      → (str_eq u v ≡ true → is_shared v e shared ≡ has e known)
      → (str_eq u v ≡ false → is_shared v e shared' ≡ is_shared v e shared)
      → ((str_eq u v && is_new u known (devices_of k) e) || is_wanted v e ms shared')
        ≡ is_wanted v e ((u, k) ∷ ms) shared
  is_wanted-first u k ms known shared shared' v e (above, sorted) at_u else_where =
      elim (Bool-cases (str_eq u v)) [
        | inl here ↦
            let gone = absent v e ms (not_after u v ms above here) in
            ground (arith, here, at_u here, gone, eq_iff u v)
        | inr differs ↦ ground (arith, differs, else_where)
      ]

  pub Fresh-next :
      (u : String) (k : Option UserKeyCache) (ms : Members) (t : Targets)
      → IsSorted ((u, k) ∷ ms)
      → IsFresh ((u, k) ∷ ms) t
      → (t' : Targets) → ((v e : String) → str_eq u v ≡ false → is_target v e t' ≡ is_target v e t)
      → IsFresh ms t'
  Fresh-next u k ms t (above, sorted) fresh t' same v e there = elim (Bool-cases (str_eq u v)) [
    | inl here ↦ absurd (ground (arith, not_after u v ms above here, there))
    | inr differs ↦ same v e differs ∙ fresh v e (rw (has, differs) there)
  ]
