-- ===== src/Crypto/Readers.antt =====
-- `olm::encrypt_group_message`: the session of a message is had by the members' devices, and by no other.
use mathlib.Core.Path.{subst}
use nheko_library.Base.{
  ℕ, ◌≡◌, refl, ◌∙◌, sym, ap, String, [], Option, none, some, Bool, true, false, not, ◌&&◌,
  if◌then◌else◌, arith, eq_iff, Option-cases, inl, inr, some-injective,
}
use nheko_library.Base.Sorted.{IsSorted}
use nheko_library.Base.StdMap.{lookup}
use nheko_library.Crypto.Sessions.{Megolm, SharedWithUsers, value_or, get_megolm_session_data}
use nheko_library.Crypto.Sharing.{Members, Targets, is_own_device, share_with_all, compare_members}
use nheko_library.Crypto.StillMembers.{has_device, compare_members-StillHas, none≢some}
use nheko_library.Crypto.Targeted.{is_shared}
use nheko_library.Crypto.SentTo.{share_with_all-targets, compare_members-targets}
use nheko_library.Crypto.GroupEncryption.{
  OutboundMegolm, Encryption, Store, Chosen, Encrypted, record_targets, index_of, is_in_period,
  chosen_with, reuse, create, encrypt_with, encrypt_group_message,
}
use nheko_library.Crypto.Recipients.{
  holds, holds-record_targets, share_with_all-IsSorted, compare_members-IsSorted,
}

module _ (own_user own_device : String) where
  -- The device is one of a member, but not this one.
  abbrev pub may_read : (user device : String) → Members → Bool
  may_read v e ms = has_device v e ms && not (is_own_device own_user own_device v e)

  -- What is kept with a session: its holders are in order, and this device is none.
  abbrev pub IsKept : SharedWithUsers → Type 0
  IsKept shared = IsSorted shared × (holds own_user own_device shared ≡ false)

  is_shared-holds :
      (v e : String) (shared : SharedWithUsers)
      → is_shared own_user own_device v e shared ≡ holds v e shared
  is_shared-holds v e shared = ground arith

  holder-member :
      (ms : Members) (shared : SharedWithUsers) (t t' : Targets) (v e : String)
      → IsSorted shared
      → compare_members own_user own_device ms shared t ≡ some t'
      → holds v e shared ≡ true
      → has_device v e ms ≡ true
  holder-member ms shared t t' v e sorted h held = elim (Option-cases (lookup v shared)) [
    | inl missing ↦ absurd (ground (arith, missing, held))
    | inr (ds, at) ↦
        (compare_members-StillHas own_user own_device ms shared t t' v ds sorted h at).1 e
          (ground (arith, at, held))
  ]

  own-not :
      (v e : String) (shared : SharedWithUsers)
      → holds own_user own_device shared ≡ false
      → holds v e shared ≡ true
      → is_own_device own_user own_device v e ≡ false
  own-not v e shared none_of held = ground (arith, eq_iff v own_user, eq_iff e own_device)

  pub kept-readers :
      (ms : Members) (shared : SharedWithUsers) (t : Targets) (i : ℕ) (v e : String)
      → IsSorted ms
      → IsKept shared
      → compare_members own_user own_device ms shared [] ≡ some t
      → holds v e (record_targets i t shared) ≡ may_read v e ms
  kept-readers ms shared t i v e sorted (sorted', none_of) h =
      holds-record_targets i t shared v e
        (compare_members-IsSorted own_user own_device ms shared [] t tt h)
      ∙ ground (
        arith,
        compare_members-targets own_user own_device ms shared [] t v e sorted sorted'
            (λ w d m. refl) h,
        is_shared-holds v e shared,
        holder-member ms shared [] t v e sorted' h,
        own-not v e shared none_of,
      )

  pub new-readers :
      (ms : Members) (i j : ℕ) (v e : String)
      → IsSorted ms
      → holds v e (
          record_targets i
            (share_with_all own_user own_device ms [])
            (record_targets j (share_with_all own_user own_device ms []) []))
        ≡ may_read v e ms
  new-readers ms i j v e sorted =
      let t = share_with_all own_user own_device ms [] in
      let ordered = share_with_all-IsSorted own_user own_device ms [] tt in
      holds-record_targets i t (record_targets j t []) v e ordered
      ∙ ground (
        arith,
        holds-record_targets j t [] v e ordered,
        share_with_all-targets own_user own_device ms [] v e sorted (λ w d m. refl),
      )

pub if-else-some {ℓ} :
    {A : Type ℓ} (b : Bool) (o : Option A) (x : A) → (if b then o else none) ≡ some x → o ≡ some x
if-else-some true o x h = h
if-else-some false o x h = absurd (none≢some h)

module _ (M : Megolm) (O : OutboundMegolm) (e : Encryption M O) where
  -- What the data of the session of the room says of it.
  abbrev pub currently_of : O.Outbound → Store M O → SharedWithUsers
  currently_of o st =
      (value_or (get_megolm_session_data M (index_of M O e o) st.sessions)).currently

  abbrev pub StoreIsKept : Store M O → Type 0
  StoreIsKept st =
      (o : O.Outbound)
      → lookup e.room_id st.outbound ≡ some o
      → IsKept e.own_user_id e.device_id (currently_of o st)

  -- The session is had by the devices that may read it, once those that it is sent to are recorded.
  abbrev AllRead : Chosen M O → Type 0
  AllRead c =
      (i : ℕ) (user device : String)
      → holds user device (record_targets i c.send_session_to c.data_of.currently)
        ≡ may_read e.own_user_id e.device_id user device e.members

  chosen_with-AllRead :
      (o : O.Outbound) (st : Store M O) (r : Option Targets) (c : Chosen M O)
      → IsSorted e.members
      → IsKept e.own_user_id e.device_id (currently_of o st)
      → compare_members e.own_user_id e.device_id e.members (currently_of o st) [] ≡ r
      → chosen_with M O o (value_or (get_megolm_session_data M (index_of M O e o) st.sessions)) st r
        ≡ some c
      → AllRead c
  chosen_with-AllRead o st none c sorted kept at h = absurd (none≢some h)
  chosen_with-AllRead o st (some t) c sorted kept at h = subst AllRead (some-injective h) (λ i v d.
      kept-readers e.own_user_id e.device_id e.members (currently_of o st) t i v d sorted kept at)

  reuse-AllRead :
      (st : Store M O) (c : Chosen M O)
      → IsSorted e.members
      → StoreIsKept st
      → reuse M O e st ≡ some c
      → AllRead c
  unfolding reuse
  reuse-AllRead st c sorted kept h = elim (Option-cases (lookup e.room_id st.outbound)) [
    | inl missing ↦ absurd (ground (arith, missing, h))
    | inr (o, there) ↦
        let d = value_or (get_megolm_session_data M (index_of M O e o) st.sessions) in
        chosen_with-AllRead o st
          (compare_members e.own_user_id e.device_id e.members d.currently []) c sorted
          (kept o there) refl (if-else-some (is_in_period M O e d) _ c (rw (reuse, there) at h))
  ]

  create-AllRead :
      (st : Store M O) (c : Chosen M O) → IsSorted e.members → create M O e st ≡ some c → AllRead c
  unfolding create
  create-AllRead st c sorted h =
      elim (Option-cases (M.init_inbound_group_session (O.session_key e.fresh))) [
        | inl refused ↦ absurd (ground (arith, refused, h))
        | inr (s, made) ↦
            subst AllRead (some-injective (rw (create, made) at h))
              (λ i v d. new-readers e.own_user_id e.device_id e.members i 0 v d sorted)
      ]

  encrypt_with-readers :
      (c : Chosen M O) (r : Encrypted M O) (user device : String)
      → AllRead c
      → encrypt_with M O e c ≡ r
      → holds user device r.data_of.currently
        ≡ may_read e.own_user_id e.device_id user device e.members
  unfolding encrypt_with
  encrypt_with-readers c r user device all h =
      ap (λ q. holds user device q.data_of.currently) (sym h)
      ∙ all (O.message_index (O.encrypt_group_message c.session e.body).1) user device

  -- For members in order, and a stored session whose holders are in order and not this device: when a
  -- message is encrypted, the devices that are recorded to have its session are exactly those of the
  -- members of the room, but this device.
  pub encrypt_group_message-readers :
      (st : Store M O) (r : Encrypted M O) (user device : String)
      → IsSorted e.members
      → StoreIsKept st
      → encrypt_group_message M O e st ≡ some r
      → holds user device r.data_of.currently
        ≡ may_read e.own_user_id e.device_id user device e.members
  unfolding encrypt_group_message
  encrypt_group_message-readers st r user device sorted kept h =
      elim (Option-cases (reuse M O e st)) [
        | inr (c, reused) ↦
            encrypt_with-readers c r user device (reuse-AllRead st c sorted kept reused)
              (some-injective (sym (rw reused refl) ∙ h))
        | inl new ↦ elim (Option-cases (create M O e st)) [
          | inl refused ↦ absurd (ground (arith, new, refused, h))
          | inr (c, made) ↦
              encrypt_with-readers c r user device (create-AllRead st c sorted made)
                (some-injective (sym (rw (new, made) refl) ∙ h))
        ]
      ]
