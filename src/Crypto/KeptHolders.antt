-- ===== src/Crypto/KeptHolders.antt =====
-- `olm::encrypt_group_message`: what is kept with the session of a room stays in order.
use mathlib.Core.Path.{subst}
use nheko_library.Base.{
  ℕ, ◌≡◌, refl, ◌∙◌, sym, ap, [], ◌∷◌, Option, none, some, false, arith, eq_refl, Bool-cases,
  Option-cases, inl, inr, some-injective,
}
use nheko_library.Base.Sorted.{IsSorted, insert-IsSorted}
use nheko_library.Base.StdMap.{lookup-has, lookup, has, insert, lookup-insert}
use nheko_library.Crypto.Sessions.{
  Megolm, GroupSessionData, SharedWithUsers, value_or, get_megolm_session_data,
}
use nheko_library.Crypto.Sharing.{Targets, share_with_all, compare_members}
use nheko_library.Crypto.StillMembers.{none≢some}
use nheko_library.Crypto.GroupEncryption.{
  OutboundMegolm, Encryption, Store, Chosen, Encrypted, record_targets, record_devices, or_empty,
  index_of, is_in_period, chosen_with, put_outbound, update_outbound, reuse, create, encrypt_with,
  encrypt_group_message,
}
use nheko_library.Crypto.Recipients.{holds}
use nheko_library.Crypto.Readers.{
  IsKept, StoreIsKept, currently_of, if-else-some, may_read, encrypt_group_message-readers,
}

record_targets-IsSorted :
    (i : ℕ) (t : Targets) (shared : SharedWithUsers)
    → IsSorted shared
    → IsSorted (record_targets i t shared)
record_targets-IsSorted i [] shared sorted = sorted
record_targets-IsSorted i ((u, ds) ∷ t) shared sorted =
    record_targets-IsSorted i t (insert u (record_devices i ds (or_empty (lookup u shared))) shared)
      (insert-IsSorted u _ shared sorted)

module _ (M : Megolm) (O : OutboundMegolm) (e : Encryption M O) where
  put_outbound-currently :
      (o : O.Outbound) (d : GroupSessionData) (st : Store M O)
      → currently_of M O e o (put_outbound M O e o d st) ≡ d.currently
  put_outbound-currently o d st =
      let key = M.dump (index_of M O e o) in
      ground (
        arith,
        eq_refl key,
        lookup-insert key key (record d { message_index = O.message_index o })
            st.sessions.session_data,
      )

  put_outbound-IsKept :
      (o o' : O.Outbound) (d : GroupSessionData) (st : Store M O)
      → IsKept e.own_user_id e.device_id d.currently
      → lookup e.room_id (put_outbound M O e o d st).outbound ≡ some o'
      → IsKept e.own_user_id e.device_id (currently_of M O e o' (put_outbound M O e o d st))
  put_outbound-IsKept o o' d st kept h =
      let found : lookup e.room_id (put_outbound M O e o d st).outbound ≡ some o =
        lookup-insert e.room_id e.room_id o st.outbound ∙ rw (eq_refl e.room_id) refl in
      subst
        (λ p. IsKept e.own_user_id e.device_id (currently_of M O e p (put_outbound M O e o d st)))
        (some-injective (sym found ∙ h))
        (subst (IsKept e.own_user_id e.device_id) (sym (put_outbound-currently o d st)) kept)

  update_outbound-IsKept :
      (o : O.Outbound) (d : GroupSessionData) (st : Store M O)
      → IsKept e.own_user_id e.device_id d.currently
      → StoreIsKept M O e (update_outbound M O e o d st)
  update_outbound-IsKept o d st kept o' h = elim (Bool-cases (has e.room_id st.outbound)) [
    | inl there ↦ rw there (put_outbound-IsKept o o' d st kept (rw there at h))
    | inr missing ↦
        absurd (ground (arith, missing, lookup-has e.room_id o' st.outbound (rw missing at h)))
  ]

  own-cannot : may_read e.own_user_id e.device_id e.own_user_id e.device_id e.members ≡ false
  own-cannot = ground (arith, eq_refl e.own_user_id, eq_refl e.device_id)

  abbrev HasOrder : Chosen M O → Type 0
  HasOrder c = IsSorted c.data_of.currently

  chosen_with-HasOrder :
      (o : O.Outbound) (d : GroupSessionData) (st : Store M O) (t : Option Targets) (c : Chosen M O)
      → IsSorted d.currently
      → chosen_with M O o d st t ≡ some c
      → HasOrder c
  chosen_with-HasOrder o d st none c sorted h = absurd (none≢some h)
  chosen_with-HasOrder o d st (some t) c sorted h = subst HasOrder (some-injective h) sorted

  reuse-HasOrder :
      (st : Store M O) (c : Chosen M O)
      → StoreIsKept M O e st
      → reuse M O e st ≡ some c
      → HasOrder c
  unfolding reuse
  reuse-HasOrder st c kept h = elim (Option-cases (lookup e.room_id st.outbound)) [
    | inl missing ↦ absurd (ground (arith, missing, h))
    | inr (o, there) ↦
        let d = value_or (get_megolm_session_data M (index_of M O e o) st.sessions) in
        chosen_with-HasOrder o d st
          (compare_members e.own_user_id e.device_id e.members d.currently []) c (kept o there).0
          (if-else-some (is_in_period M O e d) _ c (rw (reuse, there) at h))
  ]

  create-HasOrder : (st : Store M O) (c : Chosen M O) → create M O e st ≡ some c → HasOrder c
  unfolding create
  create-HasOrder st c h =
      elim (Option-cases (M.init_inbound_group_session (O.session_key e.fresh))) [
        | inl refused ↦ absurd (ground (arith, refused, h))
        | inr (s, made) ↦ subst HasOrder (some-injective (rw (create, made) at h)) (
            record_targets-IsSorted 0 (share_with_all e.own_user_id e.device_id e.members []) [] tt)
      ]

  encrypt_with-kept :
      (c : Chosen M O) (r : Encrypted M O)
      → HasOrder c
      → encrypt_with M O e c ≡ r
      → (holds e.own_user_id e.device_id r.data_of.currently ≡ false)
      → StoreIsKept M O e r.store
  unfolding encrypt_with
  encrypt_with-kept c r sorted h none_of =
      subst (λ q. StoreIsKept M O e q.store) h
        (update_outbound-IsKept _ ((encrypt_with M O e c).data_of) c.store (
          record_targets-IsSorted _ c.send_session_to c.data_of.currently sorted,
          ap (λ q. holds e.own_user_id e.device_id q.data_of.currently) h ∙ none_of,
        ))

  -- For members in order: where the holders of the stored session are in order and not this device, they
  -- are so after a message was encrypted, with the same session or a new one.
  pub encrypt_group_message-StoreIsKept :
      (st : Store M O) (r : Encrypted M O)
      → IsSorted e.members
      → StoreIsKept M O e st
      → encrypt_group_message M O e st ≡ some r
      → StoreIsKept M O e r.store
  unfolding encrypt_group_message
  encrypt_group_message-StoreIsKept st r sorted kept h =
      let none_of =
        encrypt_group_message-readers M O e st r e.own_user_id e.device_id sorted kept h
        ∙ own-cannot in
      elim (Option-cases (reuse M O e st)) [
        | inr (c, reused) ↦
            encrypt_with-kept c r (reuse-HasOrder st c kept reused)
              (some-injective (sym (rw reused refl) ∙ h)) none_of
        | inl new ↦ elim (Option-cases (create M O e st)) [
          | inl refused ↦ absurd (ground (arith, new, refused, h))
          | inr (c, made) ↦
              encrypt_with-kept c r (create-HasOrder st c made)
                (some-injective (sym (rw (new, made) refl) ∙ h)) none_of
        ]
      ]
