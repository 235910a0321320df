-- ===== src/Crypto/Recipients.antt =====
-- `olm::encrypt_group_message`: who has a session after a message was encrypted with it.
use mathlib.Core.Path.{subst}
use nheko_library.Base.{
  ℕ, ◌≡◌, refl, ◌∙◌, String, List, [], ◌∷◌, none, some, Bool, true, false, ◌||◌, if◌then◌else◌,
  str_eq, arith, eq_iff, Bool-cases, inl, inr, some-injective, contains,
}
use nheko_library.Base.Text.{str_lt_irrefl}
use nheko_library.Base.Sorted.{IsSorted, IsBefore, insert-IsSorted}
use nheko_library.Base.StdMap.{Map, lookup, has, insert, lookup-insert, has-insert}
use nheko_library.Crypto.Keys.{DeviceKeys}
use nheko_library.Crypto.Sessions.{SharedWithUsers}
use nheko_library.Crypto.Sharing.{
  Members, Targets, devices_of, push, is_own_device, push_devices, share_with_all, compare_members,
}
use nheko_library.Crypto.StillMembers.{compare_members-Compared, none≢some}
use nheko_library.Crypto.Targeted.{is_target}
use nheko_library.Crypto.GroupEncryption.{or_empty, record_devices, record_targets}

-- The device is recorded to have the session.
abbrev pub holds : (user device : String) → SharedWithUsers → Bool
holds user device shared = has device (or_empty (lookup user shared))

has-record_devices :
    (i : ℕ) (ds : List String) (known : Map ℕ) (e : String)
    → has e (record_devices i ds known) ≡ (has e known || contains e ds)
has-record_devices i [] known e = ground arith
has-record_devices i (d ∷ ds) known e =
    has-record_devices i ds (if has d known then known else insert d i known) e
    ∙ ground (arith, has-insert d e i known, eq_iff d e)

has-lookup-none {ℓ} : {V : Type ℓ} (k : String) (m : Map V) → has k m ≡ false → lookup k m ≡ none
has-lookup-none k [] h = refl
has-lookup-none k ((j, v) ∷ m) h = ground (arith, has-lookup-none k m)

-- Of what comes after a key, none has that key.
not-after {ℓ} :
    {V : Type ℓ} (u v : String) (m : Map V) → IsBefore u m → str_eq u v ≡ true → lookup v m ≡ none
not-after u v m before here =
    has-lookup-none v m (ground (arith, before v, eq_iff u v, str_lt_irrefl u))

pub holds-record_targets :
    (i : ℕ) (t : Targets) (shared : SharedWithUsers) (v e : String)
    → IsSorted t
    → holds v e (record_targets i t shared) ≡ (holds v e shared || is_target v e t)
holds-record_targets i [] shared v e sorted = ground arith
holds-record_targets i ((u, ds) ∷ t) shared v e (before, sorted) =
    holds-record_targets i t (insert u (record_devices i ds (or_empty (lookup u shared))) shared) v
      e sorted
    ∙ elim (Bool-cases (str_eq u v)) [
      | inl here ↦ ground (
        arith,
        here,
        eq_iff u v,
        lookup-insert u v (record_devices i ds (or_empty (lookup u shared))) shared,
        has-record_devices i ds (or_empty (lookup u shared)) e,
        not-after u v t before here,
      )
      | inr differs ↦ ground (
        arith,
        differs,
        lookup-insert u v (record_devices i ds (or_empty (lookup u shared))) shared,
      )
    ]

module _ (own_user own_device : String) where
  push_devices-IsSorted :
      (u : String) (known : Map ℕ) (ds : Map DeviceKeys) (t : Targets)
      → IsSorted t
      → IsSorted (push_devices own_user own_device u known ds t)
  push_devices-IsSorted u known [] t sorted = sorted
  push_devices-IsSorted u known ((d, _) ∷ ds) t sorted =
      push_devices-IsSorted u known ds _ (
        pushed (has d known || is_own_device own_user own_device u d)
          (insert-IsSorted u _ t sorted))
    where
      pushed : (b : Bool) → IsSorted (push u d t) → IsSorted (if b then t else push u d t)
      pushed true s = sorted
      pushed false s = s

  pub share_with_all-IsSorted :
      (ms : Members) (t : Targets) → IsSorted t → IsSorted (share_with_all own_user own_device ms t)
  share_with_all-IsSorted [] t sorted = sorted
  share_with_all-IsSorted ((u, k) ∷ ms) t sorted =
      share_with_all-IsSorted ms _
        (push_devices-IsSorted u [] (devices_of k) (insert u [] t) (insert-IsSorted u [] t sorted))

  pub compare_members-IsSorted :
      (ms : Members) (shared : SharedWithUsers) (t t' : Targets)
      → IsSorted t
      → compare_members own_user own_device ms shared t ≡ some t'
      → IsSorted t'
  unfolding compare_members
  compare_members-IsSorted [] shared t t' sorted h = absurd (none≢some h)
  compare_members-IsSorted ((u, k) ∷ ms) [] t t' sorted h =
      subst IsSorted (some-injective h) (share_with_all-IsSorted ((u, k) ∷ ms) t sorted)
  compare_members-IsSorted ((u, k) ∷ ms) ((w, es) ∷ shared) t t' sorted h =
      elim (compare_members-Compared own_user own_device u k ms w es shared t t' h) [
        | inl (_, rest) ↦
            compare_members-IsSorted ms ((w, es) ∷ shared) _ t'
              (push_devices-IsSorted u [] (devices_of k) (insert u [] t)
                (insert-IsSorted u [] t sorted))
              rest
        | inr (_, _, inl rest) ↦
            compare_members-IsSorted ms shared _ t'
              (push_devices-IsSorted u es (devices_of k) t sorted) rest
        | inr (_, _, inr (_, _, last)) ↦
            subst IsSorted last (push_devices-IsSorted u es (devices_of k) t sorted)
      ]
