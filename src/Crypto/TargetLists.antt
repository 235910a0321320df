-- ===== src/Crypto/TargetLists.antt =====
-- `olm::encrypt_group_message`: which lists of targets may be empty, and so name all devices of a user.
use Prim.Native.Nat.{Ordering}
use Prim.Native.String.{compare}
use mathlib.Core.Path.{subst}
use nheko_library.Base.{
  ℕ, ◌≡◌, ◌≢◌, refl, sym, String, List, [], ◌∷◌, ◌++◌, Option, none, some, true, false, ◌||◌,
  str_eq, arith, eq_iff, Bool-cases, Option-cases, inl, inr, some-injective, contains,
}
use nheko_library.Base.StdMap.{Map, lookup, has, insert, lookup-insert}
use nheko_library.Crypto.Keys.{DeviceKeys, UserKeyCache}
use nheko_library.Crypto.Status.{Own, verification_status}
use nheko_library.Crypto.RoomMembers.{put_devices, Gathered, gather_member, get_members_with_keys}
use nheko_library.Crypto.OnlyVerified.{put_verified-cases}
use nheko_library.Base.Sorted.{place, insert-place}
use nheko_library.Crypto.Sessions.{SharedWithUsers}
use nheko_library.Crypto.Sharing.{
  Members, Targets, devices_of, or_nil, push, is_own_device, push_devices, share_with_member,
  share_with_all, compare_members,
}
use nheko_library.Crypto.StillMembers.{compare_members-Compared, none≢some}
use nheko_library.Crypto.Targeted.{is_target}
use nheko_library.Crypto.SendingKeys.{sent_devices, sent_to, recipients}

-- Each member has a device.
abbrev pub AllHave : Members → Type 0
AllHave [] = Unit {0}
AllHave ((_, k) ∷ ms) = (devices_of k ≢ []) × AllHave ms

snoc-some : (l : List String) (d : String) → l ++ d ∷ [] ≢ []
snoc-some [] d e = cc
snoc-some (x ∷ l) d e = cc

place-AllHave :
    (u : String) (k : Option UserKeyCache) (j : String) (l : Option UserKeyCache)
    (ms rest : Members) (o : Ordering)
    → devices_of k ≢ []
    → AllHave ((j, l) ∷ ms)
    → AllHave rest
    → AllHave (place u k j l ms rest o)
place-AllHave u k j l ms rest Ordering.lt one all others = (one, all)
place-AllHave u k j l ms rest Ordering.eq one all others = (one, all.1)
place-AllHave u k j l ms rest Ordering.gt one all others = (all.0, others)

insert-AllHave :
    (u : String) (k : Option UserKeyCache) (ms : Members)
    → devices_of k ≢ []
    → AllHave ms
    → AllHave (insert u k ms)
insert-AllHave u k [] one all = (one, tt)
insert-AllHave u k ((j, l) ∷ ms) one all = subst AllHave (sym (insert-place u k j l ms)) (
    place-AllHave u k j l ms (insert u k ms) (compare u j) one all
      (insert-AllHave u k ms one all.1))

put_devices-AllHave :
    (user : String) (k : UserKeyCache) (ds : Map DeviceKeys) (ms : Members)
    → AllHave ms
    → AllHave (put_devices user k ds ms)
put_devices-AllHave user k [] ms all = all
put_devices-AllHave user k (d ∷ ds) ms all =
    insert-AllHave user (some (record k { device_keys = d ∷ ds })) ms (λ e. cc) all

-- Where only verified members are asked for, each of them has a device.
pub get_members_with_keys-AllHave :
    (o : Own) (users : List String) (g : Gathered o)
    → AllHave g.members
    → AllHave (get_members_with_keys o true users g).members
unfolding get_members_with_keys gather_member
get_members_with_keys-AllHave o [] g all = all
get_members_with_keys-AllHave o (user ∷ users) g all =
    get_members_with_keys-AllHave o users (gather_member o true user g)
      (elim (Option-cases (lookup user g.db.keys)) [
        | inl missing ↦ rw (gather_member, missing) all
        | inr (k, there) ↦
            rw (gather_member, there)
              (put_verified-cases o g.db AllHave user k ((verification_status o user g.db).1)
                g.members all (put_devices-AllHave user k _ g.members all))
      ])

module _ (own_user own_device : String) where
  -- The list of another user is not empty.
  abbrev pub NoneEmpty : Targets → Type 0
  NoneEmpty t =
      (user : String) (l : List String)
      → str_eq user own_user ≡ false
      → lookup user t ≡ some l
      → l ≢ []

  -- The same, but for one user.
  abbrev NoneEmptyBut : String → Targets → Type 0
  NoneEmptyBut u t =
      (user : String) (l : List String)
      → str_eq user own_user ≡ false
      → str_eq u user ≡ false
      → lookup user t ≡ some l
      → l ≢ []

  push-NoneEmpty : (u d : String) (t : Targets) → NoneEmptyBut u t → NoneEmpty (push u d t)
  push-NoneEmpty u d t some_are user l other at = elim (Bool-cases (str_eq u user)) [
    | inl here ↦
        subst (λ x. x ≢ [])
          (some-injective
            (ground (arith, lookup-insert u user (or_nil (lookup u t) ++ d ∷ []) t, here, at)))
          (snoc-some (or_nil (lookup u t)) d)
    | inr differs ↦
        some_are user l other differs
          (ground (arith, lookup-insert u user (or_nil (lookup u t) ++ d ∷ []) t, differs, at))
  ]

  but : (u : String) (t : Targets) → NoneEmpty t → NoneEmptyBut u t
  but u t all user l other differs at = all user l other at

  push_devices-NoneEmpty :
      (u : String) (known : Map ℕ) (ds : Map DeviceKeys) (t : Targets)
      → NoneEmpty t
      → NoneEmpty (push_devices own_user own_device u known ds t)
  push_devices-NoneEmpty u known [] t all = all
  push_devices-NoneEmpty u known ((d, k) ∷ ds) t all =
      elim (Bool-cases (has d known || is_own_device own_user own_device u d)) [
        | inl left_out ↦ rw left_out (push_devices-NoneEmpty u known ds t all)
        | inr new ↦
            rw new
              (push_devices-NoneEmpty u known ds (push u d t) (push-NoneEmpty u d t (but u t all)))
      ]

  own-NoneEmpty :
      (u : String) (t : Targets)
      → str_eq u own_user ≡ true
      → NoneEmpty t
      → NoneEmpty (insert u [] t)
  own-NoneEmpty u t own all user l other at =
      all user l other
        (ground (arith, lookup-insert u user [] t, at, eq_iff u own_user, eq_iff u user))

  fresh-NoneEmpty :
      (u : String) (ds : Map DeviceKeys) (t : Targets)
      → str_eq u own_user ≡ false
      → ds ≢ []
      → NoneEmpty t
      → NoneEmpty (push_devices own_user own_device u [] ds (insert u [] t))
  fresh-NoneEmpty u [] t other have all = absurd (have refl)
  fresh-NoneEmpty u ((d, k) ∷ ds) t other have all = rw other (
      push_devices-NoneEmpty u [] ds (push u d (insert u [] t)) (
        push-NoneEmpty u d (insert u [] t) (λ user l o differs at.
          all user l o (ground (arith, lookup-insert u user [] t, at, differs)))))

  share_with_member-NoneEmpty :
      (u : String) (k : Option UserKeyCache) (t : Targets)
      → devices_of k ≢ []
      → NoneEmpty t
      → NoneEmpty (share_with_member own_user own_device u k t)
  share_with_member-NoneEmpty u k t have all = elim (Bool-cases (str_eq u own_user)) [
    | inl own ↦
        push_devices-NoneEmpty u [] (devices_of k) (insert u [] t) (own-NoneEmpty u t own all)
    | inr other ↦ fresh-NoneEmpty u (devices_of k) t other have all
  ]

  pub share_with_all-NoneEmpty :
      (ms : Members) (t : Targets)
      → AllHave ms
      → NoneEmpty t
      → NoneEmpty (share_with_all own_user own_device ms t)
  share_with_all-NoneEmpty [] t have all = all
  share_with_all-NoneEmpty ((u, k) ∷ ms) t (has_one, have) all =
      share_with_all-NoneEmpty ms (share_with_member own_user own_device u k t) have
        (share_with_member-NoneEmpty u k t has_one all)

  pub compare_members-NoneEmpty :
      (ms : Members) (shared : SharedWithUsers) (t t' : Targets)
      → AllHave ms
      → NoneEmpty t
      → compare_members own_user own_device ms shared t ≡ some t'
      → NoneEmpty t'
  unfolding compare_members
  compare_members-NoneEmpty [] shared t t' have all h = absurd (none≢some h)
  compare_members-NoneEmpty ((u, k) ∷ ms) [] t t' have all h =
      subst NoneEmpty (some-injective h) (share_with_all-NoneEmpty ((u, k) ∷ ms) t have all)
  compare_members-NoneEmpty ((u, k) ∷ ms) ((w, es) ∷ shared) t t' (has_one, have) all h =
      elim (compare_members-Compared own_user own_device u k ms w es shared t t' h) [
        | inl (_, rest) ↦
            compare_members-NoneEmpty ms ((w, es) ∷ shared) _ t' have
              (share_with_member-NoneEmpty u k t has_one all) rest
        | inr (_, _, inl rest) ↦
            compare_members-NoneEmpty ms shared _ t' have
              (push_devices-NoneEmpty u es (devices_of k) t all) rest
        | inr (_, _, inr (_, _, last)) ↦
            subst NoneEmpty last (push_devices-NoneEmpty u es (devices_of k) t all)
      ]

module _ (our_curve : String) where
  sent-known :
      (known : Map DeviceKeys) (id : String) (ids : List String)
      → contains id (sent_devices our_curve known ids) ≡ true
      → contains id ids ≡ true
  sent-known known id [] h = h
  sent-known known id (j ∷ ids) h = ground (arith, sent-known known id ids)

  sent_to-known :
      (k : Option UserKeyCache) (ids : List String) (id : String)
      → ids ≢ []
      → contains id (sent_to our_curve k ids) ≡ true
      → contains id ids ≡ true
  sent_to-known none ids id have h = absurd (ground arith)
  sent_to-known (some k) [] id have h = absurd (have refl)
  sent_to-known (some k) (j ∷ ids) id have h = sent-known k.device_keys id (j ∷ ids) h

  -- Where no list is empty, each device that is sent the message is a target.
  pub recipients-are_targets :
      (cached : Map UserKeyCache) (t : Targets) (user device : String)
      → ((l : List String) → lookup user t ≡ some l → l ≢ [])
      → is_target user device (recipients our_curve cached t) ≡ true
      → is_target user device t ≡ true
  unfolding recipients
  recipients-are_targets cached [] user device some_are h = h
  recipients-are_targets cached ((u, ds) ∷ t) user device some_are h =
      elim (Bool-cases (str_eq u user)) [
        | inl here ↦
            rw here (
              sent_to-known (lookup u cached) ds device (some_are ds (rw here refl)) (rw here at h))
        | inr differs ↦ rw differs (
            recipients-are_targets cached t user device (λ l at. some_are l (rw differs at))
              (rw differs at h))
      ]
