-- ===== src/Crypto/Sharing.antt =====
-- `olm::encrypt_group_message`: with whom the session of a room is still to be shared, or whether it is
-- to be replaced.
use nheko_library.Base.{
  ℕ, String, List, [], ◌∷◌, ◌++◌, Option, none, some, Bool, false, not, ◌&&◌, ◌||◌, if◌then◌else◌,
  str_eq, str_lt,
}
use nheko_library.Base.StdMap.{Map, lookup, has, insert}
use nheko_library.Crypto.Keys.{DeviceKeys, UserKeyCache}
use nheko_library.Crypto.Sessions.{SharedWithUsers}

-- `getMembersWithKeys`: `none` where the keys of a member are not known.
abbrev pub Members : Type 0
Members = Map (Option UserKeyCache)

-- `sendSessionTo`: devices by user.
abbrev pub Targets : Type 0
Targets = Map (List String)

abbrev pub devices_of : Option UserKeyCache → Map DeviceKeys
devices_of none = []
devices_of (some k) = k.device_keys

abbrev pub or_nil : Option (List String) → List String
or_nil none = []
or_nil (some l) = l

-- `sendSessionTo[user].push_back(device)`
abbrev pub push : (user device : String) → Targets → Targets
push user device t = insert user (or_nil (lookup user t) ++ device ∷ []) t

-- This device of this account.
abbrev pub is_own_device : (own_user own_device user device : String) → Bool
is_own_device own_user own_device user device = str_eq user own_user && str_eq device own_device

-- Of those that have the session, one is gone.
abbrev pub device_removed : Map ℕ → Map DeviceKeys → Bool
device_removed [] devices = false
device_removed ((d, _) ∷ ds) devices = not (has d devices) || device_removed ds devices

module _ (own_user own_device : String) where
  -- The devices of a user that are not in `known`, but not this one.
  abbrev pub push_devices : (user : String) → (known : Map ℕ) → Map DeviceKeys → Targets → Targets
  push_devices user known [] t = t
  push_devices user known ((d, _) ∷ ds) t =
      push_devices user known ds
        (if has d known || is_own_device own_user own_device user d then t else push user d t)

  abbrev pub share_with_member : (user : String) → Option UserKeyCache → Targets → Targets
  share_with_member user k t = push_devices user [] (devices_of k) (insert user [] t)

  abbrev pub share_with_all : Members → Targets → Targets
  share_with_all [] t = t
  share_with_all ((user, k) ∷ ms) t = share_with_all ms (share_with_member user k t)

  -- `member_it == members.end() && session_member_it == session_member_it_end`
  abbrev pub at_ends : Members → SharedWithUsers → (finished rest : Option Targets) → Option Targets
  at_ends [] [] finished rest = finished
  at_ends [] (_ ∷ _) finished rest = rest
  at_ends (_ ∷ _) shared finished rest = rest

  -- The loop over the members and those who have the session, both in order. `none`: a new session is needed.
  unfoldable pub compare_members : Members → SharedWithUsers → Targets → Option Targets
  compare_members [] shared t = none
  compare_members ((user, k) ∷ ms) [] t = some (share_with_all ((user, k) ∷ ms) t)
  compare_members ((user, k) ∷ ms) ((other, ds) ∷ shared) t =
      let newer = compare_members ms ((other, ds) ∷ shared) (share_with_member user k t) in
      let t' = push_devices user ds (devices_of k) t in
      let rest = compare_members ms shared t' in
      if str_lt other user
      then none
      else if str_lt user other
      then newer
      else if device_removed ds (devices_of k)
      then none
      else at_ends ms shared (some t') rest
