-- ===== src/Crypto/SentTo.antt =====
-- `olm::encrypt_group_message`: a session that is used further is sent to the devices that lack it.
use nheko_library.Base.{
  ℕ, ◌≡◌, refl, ◌∙◌, sym, ap, String, [], ◌∷◌, Option, some, Bool, true, false, ◌&&◌, ◌||◌, str_eq,
  str_lt, arith, eq_iff, Option-cases, inl, inr, some-injective,
}
use nheko_library.Base.Sorted.{IsSorted}
use nheko_library.Base.StdMap.{Map, lookup, has}
use nheko_library.Crypto.Keys.{UserKeyCache}
use nheko_library.Crypto.Sessions.{SharedWithUsers}
use nheko_library.Crypto.Sharing.{
  Members, Targets, devices_of, push_devices, share_with_member, share_with_all, compare_members,
}
use nheko_library.Crypto.StillMembers.{compare_members-Compared, none≢some, before-differs}
use nheko_library.Crypto.Targeted.{
  is_target, is_new, is_shared, is_wanted, IsFresh, is_target-push_devices,
  is_target-share_with_member, is_wanted-first, Fresh-next,
}

joined : (a b c d x : Bool) → x ≡ (a || b) → (b || c) ≡ d → (x || c) ≡ (a || d)
joined a b c d x h i = ground arith

or_false : (b : Bool) → b ≡ (b || false)
or_false b = ground arith

module _ (own_user own_device : String) where
  -- A member that comes before all that have the session has none of it.
  not-shared :
      (u w v e : String) (es : Map ℕ) (shared : SharedWithUsers)
      → str_lt u w ≡ true
      → IsSorted ((w, es) ∷ shared)
      → str_eq u v ≡ true
      → is_shared own_user own_device v e ((w, es) ∷ shared) ≡ false
  not-shared u w v e es shared before (above, sorted) here =
      elim (Option-cases (lookup v ((w, es) ∷ shared))) [
        | inl missing ↦ ground (arith, missing)
        | inr (ds, at) ↦
            absurd (ground (arith, here, before-differs u w v es ds shared before above at))
      ]

  share_with_member-targets :
      (u : String) (k : Option UserKeyCache) (ms : Members) (t : Targets) (v e : String)
      → IsFresh own_user own_device ((u, k) ∷ ms) t
      → is_target v e (share_with_member own_user own_device u k t)
        ≡ (is_target v e t || (str_eq u v && is_new own_user own_device u [] (devices_of k) e))
  share_with_member-targets u k ms t v e fresh =
      is_target-share_with_member own_user own_device u k t v e
        (λ here. fresh v e (rw (has, here) refl))

  share_with_member-Fresh :
      (u : String) (k : Option UserKeyCache) (ms : Members) (t : Targets)
      → IsSorted ((u, k) ∷ ms)
      → IsFresh own_user own_device ((u, k) ∷ ms) t
      → IsFresh own_user own_device ms (share_with_member own_user own_device u k t)
  share_with_member-Fresh u k ms t sorted fresh =
      Fresh-next own_user own_device u k ms t sorted fresh _
        (λ v e differs. share_with_member-targets u k ms t v e fresh ∙ ground (arith, differs))

  pub share_with_all-targets :
      (ms : Members) (t : Targets) (v e : String)
      → IsSorted ms
      → IsFresh own_user own_device ms t
      → is_target v e (share_with_all own_user own_device ms t)
        ≡ (is_target v e t || is_wanted own_user own_device v e ms [])
  share_with_all-targets [] t v e sorted fresh = ground arith
  share_with_all-targets ((u, k) ∷ ms) t v e (above, sorted) fresh =
      share_with_all-targets ms (share_with_member own_user own_device u k t) v e sorted
        (share_with_member-Fresh u k ms t (above, sorted) fresh)
      ∙ joined (is_target v e t) _ _ _ _ (share_with_member-targets u k ms t v e fresh) (
          is_wanted-first own_user own_device u k ms [] [] [] v e (above, sorted) (λ h. refl)
            (λ h. refl))

  same_member-wanted :
      (u w v e : String) (k : Option UserKeyCache) (es : Map ℕ) (ms : Members)
      (shared : SharedWithUsers)
      → IsSorted ((u, k) ∷ ms)
      → u ≡ w
      → ((str_eq u v && is_new own_user own_device u es (devices_of k) e)
          || is_wanted own_user own_device v e ms shared)
        ≡ is_wanted own_user own_device v e ((u, k) ∷ ms) ((w, es) ∷ shared)
  same_member-wanted u w v e k es ms shared sorted same =
      is_wanted-first own_user own_device u k ms es ((w, es) ∷ shared) shared v e sorted
        (λ here. ground (arith, here, eq_iff u v, eq_iff w v))
        (λ differs. ground (arith, differs, eq_iff u v, eq_iff w v))

  -- For members and holders in order, and no target yet among the members: where a session is used
  -- further, the targets that are new are exactly the devices of members that do not have it, but this one.
  pub compare_members-targets :
      (ms : Members) (shared : SharedWithUsers) (t t' : Targets) (v e : String)
      → IsSorted ms
      → IsSorted shared
      → IsFresh own_user own_device ms t
      → compare_members own_user own_device ms shared t ≡ some t'
      → is_target v e t' ≡ (is_target v e t || is_wanted own_user own_device v e ms shared)
  unfolding compare_members
  compare_members-targets [] shared t t' v e sorted sorted' fresh h = absurd (none≢some h)
  compare_members-targets ((u, k) ∷ ms) [] t t' v e sorted sorted' fresh h =
      ap (is_target v e) (sym (some-injective h))
      ∙ share_with_all-targets ((u, k) ∷ ms) t v e sorted fresh
  compare_members-targets ((u, k) ∷ ms) ((w, es) ∷ shared) t t' v e (above, sorted)
        (above', sorted') fresh h =
      elim (compare_members-Compared own_user own_device u k ms w es shared t t' h) [
        | inl (before, rest) ↦
            compare_members-targets ms ((w, es) ∷ shared)
              (share_with_member own_user own_device u k t) t' v e sorted (above', sorted')
              (share_with_member-Fresh u k ms t (above, sorted) fresh) rest
            ∙ joined (is_target v e t) _ _ _ _ (share_with_member-targets u k ms t v e fresh) (
                is_wanted-first own_user own_device u k ms [] ((w, es) ∷ shared) ((w, es) ∷ shared)
                  v e (above, sorted) (not-shared u w v e es shared before (above', sorted'))
                  (λ h. refl))
        | inr (same, _, inl rest) ↦
            compare_members-targets ms shared
              (push_devices own_user own_device u es (devices_of k) t) t' v e sorted sorted'
              (Fresh-next own_user own_device u k ms t (above, sorted) fresh _
                (λ j d differs.
                  is_target-push_devices own_user own_device u es (devices_of k) t j d
                  ∙ ground (arith, differs)))
              rest
            ∙ joined (is_target v e t) _ _ _ _
                (is_target-push_devices own_user own_device u es (devices_of k) t v e)
                (same_member-wanted u w v e k es ms shared (above, sorted) same)
        | inr (same, _, inr (ended, ended', last)) ↦
            ap (is_target v e) (sym last)
            ∙ or_false _
            ∙ joined (is_target v e t) _ false _ _
                (is_target-push_devices own_user own_device u es (devices_of k) t v e)
                (ap (λ b. (str_eq u v && is_new own_user own_device u es (devices_of k) e) || b)
                    (ap (λ m. is_wanted own_user own_device v e m shared) (sym ended))
                  ∙ same_member-wanted u w v e k es ms shared (above, sorted) same)
      ]
