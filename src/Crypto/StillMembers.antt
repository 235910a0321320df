-- ===== src/Crypto/StillMembers.antt =====
-- `olm::encrypt_group_message`: a session is only used further if all that have it are still in the room.
use nheko_library.Base.{
  ℕ, ◌≡◌, refl, ◌∙◌, sym, ap, String, [], ◌∷◌, Option, none, some, Bool, true, false, if◌then◌else◌,
  str_eq, str_lt, arith, eq_iff, eq_refl, Bool-cases, inl, inr, ◌⊎◌, some-injective,
}
use nheko_library.Base.Text.{str_lt_asymm, str_lt_total, str_lt_irrefl}
use nheko_library.Base.Sorted.{IsSorted}
use nheko_library.Base.StdMap.{lookup-has, Map, lookup, has}
use nheko_library.Crypto.Keys.{DeviceKeys, UserKeyCache}
use nheko_library.Crypto.Sessions.{SharedWithUsers}
use nheko_library.Crypto.Sharing.{
  Members, Targets, devices_of, push_devices, share_with_member, at_ends, device_removed,
  compare_members,
}

-- The member has this device.
abbrev pub has_device : (user device : String) → Members → Bool
has_device user device ms = elim (lookup user ms) [
  | none ↦ false
  | some k ↦ has device (devices_of k)
]

-- The user is a member, and has all of these devices.
abbrev pub StillHas : String → Map ℕ → Members → Type 0
StillHas user ds ms =
    (has user ms ≡ true) × ((d : String) → has d ds ≡ true → has_device user d ms ≡ true)

device_removed-none :
    (ds : Map ℕ) (devices : Map DeviceKeys) (d : String)
    → device_removed ds devices ≡ false
    → has d ds ≡ true
    → has d devices ≡ true
device_removed-none [] devices d h i = absurd (ground arith)
device_removed-none ((e, _) ∷ ds) devices d h i =
    ground (arith, eq_iff e d, device_removed-none ds devices d)

StillHas-further :
    (user other : String) (k : Option UserKeyCache) (ds : Map ℕ) (ms : Members)
    → str_eq other user ≡ false
    → StillHas user ds ms
    → StillHas user ds ((other, k) ∷ ms)
StillHas-further user other k ds ms differs (there, all) =
    (rw differs there, λ d h. rw (has_device, differs) (all d h))

pub none≢some {ℓ} : {A : Type ℓ} {a : A} → none ≡ some a → ⊥
none≢some h = ground arith

-- The way through the tests of a step that keeps the session.
chosen {ℓ} :
    {A : Type ℓ} (left new removed : Bool) (newer rest : Option A) (t : A)
    → (if left then none else if new then newer else if removed then none else rest) ≡ some t
    → ((new ≡ true) × (newer ≡ some t))
      ⊎ ((left ≡ false) × (new ≡ false) × (removed ≡ false) × (rest ≡ some t))
chosen true new removed newer rest t h = absurd (ground arith)
chosen false true removed newer rest t h = inl (refl, h)
chosen false false true newer rest t h = absurd (ground arith)
chosen false false false newer rest t h = inr (refl, refl, refl, h)

-- A user with an entry from `v` on comes after one before `v`.
pub before-differs :
    (u v user : String) (es ds : Map ℕ) (shared : SharedWithUsers)
    → str_lt u v ≡ true
    → ((j : String) → has j shared ≡ true → str_lt v j ≡ true)
    → lookup user ((v, es) ∷ shared) ≡ some ds
    → str_eq u user ≡ false
before-differs u v user es ds shared before above at = elim (Bool-cases (str_eq v user)) [
  | inl here ↦ ground (arith, eq_iff v user, eq_iff u user, here, str_lt_irrefl u)
  | inr later ↦
      let after = above user (lookup-has user ds shared (ground (arith, later, at))) in
      ground (arith, eq_iff u user, after, str_lt_asymm u v)
]

past :
    (u v user : String) (es ds : Map ℕ) (shared : SharedWithUsers)
    → str_eq u user ≡ false
    → u ≡ v
    → lookup user ((v, es) ∷ shared) ≡ some ds
    → lookup user shared ≡ some ds
past u v user es ds shared differs same at = ground (arith, eq_iff u user, eq_iff v user)

StillHas-here :
    (u v user : String) (k : Option UserKeyCache) (es ds : Map ℕ) (ms : Members)
    (shared : SharedWithUsers)
    → str_eq u user ≡ true
    → u ≡ v
    → device_removed es (devices_of k) ≡ false
    → lookup user ((v, es) ∷ shared) ≡ some ds
    → StillHas user ds ((u, k) ∷ ms)
StillHas-here u v user k es ds ms shared here same stay at =
    let ds_are : es ≡ ds = some-injective (sym (rw there refl) ∙ at) in
    (
      rw here refl,
      λ d i. rw (has_device, here) (device_removed-none es (devices_of k) d stay (rw ds_are i)),
    )
  where
    there : str_eq v user ≡ true
    there = ground (arith, eq_iff u user, eq_iff v user, eq_refl user)

module _ (own_user own_device : String) where
  -- What a step of the loop found, where the session is used further: a new member, or one whose devices
  -- are all there, the last or not.
  abbrev pub Compared :
      (user : String)
      → Option UserKeyCache
      → Members
      → (other : String) → Map ℕ
      → SharedWithUsers
      → (t t' : Targets) → Type 0
  Compared u k ms v es shared t t' =
      ((str_lt u v ≡ true)
        × (compare_members own_user own_device ms ((v, es) ∷ shared)
              (share_with_member own_user own_device u k t)
            ≡ some t'))
      ⊎ ((u ≡ v)
          × (device_removed es (devices_of k) ≡ false)
          × ((compare_members own_user own_device ms shared
                  (push_devices own_user own_device u es (devices_of k) t)
                ≡ some t')
              ⊎ ((ms ≡ [])
                  × (shared ≡ [])
                  × (push_devices own_user own_device u es (devices_of k) t ≡ t'))))

  at_ends-cases :
      (ms : Members) (shared : SharedWithUsers) (t t' : Targets) (rest : Option Targets)
      → at_ends own_user own_device ms shared (some t) rest ≡ some t'
      → (rest ≡ some t') ⊎ ((ms ≡ []) × (shared ≡ []) × (t ≡ t'))
  at_ends-cases [] [] t t' rest h = inr (refl, refl, some-injective h)
  at_ends-cases [] (_ ∷ _) t t' rest h = inl h
  at_ends-cases (_ ∷ _) shared t t' rest h = inl h

  pub compare_members-Compared :
      (u : String) (k : Option UserKeyCache) (ms : Members) (v : String) (es : Map ℕ)
      (shared : SharedWithUsers) (t t' : Targets)
      → compare_members own_user own_device ((u, k) ∷ ms) ((v, es) ∷ shared) t ≡ some t'
      → Compared u k ms v es shared t t'
  unfolding compare_members
  compare_members-Compared u k ms v es shared t t' h =
      elim (chosen (str_lt v u) (str_lt u v) (device_removed es (devices_of k)) _ _ t' h) [
        | inl new ↦ inl new
        | inr (not_left, not_new, not_removed, goes_on) ↦
            inr (
              str_lt_total u v not_new not_left,
              not_removed,
              at_ends-cases ms shared _ t' _ goes_on,
            )
      ]

  pub compare_members-StillHas :
      (ms : Members) (shared : SharedWithUsers) (t t' : Targets) (user : String) (ds : Map ℕ)
      → IsSorted shared
      → compare_members own_user own_device ms shared t ≡ some t'
      → lookup user shared ≡ some ds
      → StillHas user ds ms
  unfolding compare_members
  compare_members-StillHas [] shared t t' user ds sorted h at = absurd (none≢some h)
  compare_members-StillHas ((u, k) ∷ ms) [] t t' user ds sorted h at = absurd (none≢some at)
  compare_members-StillHas ((u, k) ∷ ms) ((v, es) ∷ shared) t t' user ds (above, sorted) h at =
      elim (compare_members-Compared u k ms v es shared t t' h) [
        | inl (before, rest) ↦
            StillHas-further user u k ds ms (before-differs u v user es ds shared before above at) (
              compare_members-StillHas ms ((v, es) ∷ shared)
                (share_with_member own_user own_device u k t) t' user ds (above, sorted) rest at)
        | inr (same, stay, rest) ↦ elim (Bool-cases (str_eq u user)) [
          | inl here ↦ StillHas-here u v user k es ds ms shared here same stay at
          | inr differs ↦ elim rest [
            | inl goes_on ↦ StillHas-further user u k ds ms differs (
                compare_members-StillHas ms shared _ t' user ds sorted goes_on
                  (past u v user es ds shared differs same at))
            | inr (_, ended, _) ↦ absurd (
                none≢some
                  (ap (lookup user) (sym ended) ∙ past u v user es ds shared differs same at))
          ]
        ]
      ]
