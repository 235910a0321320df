-- ===== src/Verification/KnownKeys.antt =====
-- The keys that a mac message is checked with, and when the check of its MACs passes.
use nheko_library.Base.{
  String, [], ◌∷◌, ◌≡◌, refl, ◌∙◌, Option, none, some, Bool, false, arith, eq_iff, eq_refl,
  Option-cases, inl, inr, if◌then◌else◌, str_eq, concat,
}
use nheko_library.Base.Sorted.{IsSorted, IsBefore, insert-IsSorted}
use nheko_library.Base.Text.{str_lt_irrefl}
use nheko_library.Base.StdMap.{Map, lookup-has, lookup, has, lookup-insert}
use nheko_library.Verification.Env.{SigningKeys, UserKeys}
use nheko_library.Verification.Mac.{
  put_found, take_key, device_key, known_key, known_keys, mac_entries, check_macs, all_match,
}

abbrev pub or_else : Option String → Option String → Option String
or_else none o = o
or_else (some k) o = some k

-- The key of the last device that has one under the id.
abbrev pub of_devices : String → Map SigningKeys → Option String
of_devices id [] = none
of_devices id ((_, d) ∷ ds) = or_else (of_devices id ds) (lookup id d.keys)

-- The key of a user under an id: a cross-signing key before a device's.
abbrev pub key_of : UserKeys → String → Option String
key_of k id = or_else (lookup id k.self_signing_keys.keys) (
    or_else (lookup id k.user_signing_keys.keys)
      (or_else (lookup id k.master_keys.keys) (of_devices id k.device_keys)))

abbrev pub over : Option String → Bool → Option String → Option String
over key same was = if same then or_else key was else was

lookup-take_key :
    (id j : String) (keys list : Map String)
    → lookup j (take_key id keys list) ≡ over (lookup id keys) (str_eq id j) (lookup j list)
unfolding take_key
lookup-take_key id j keys list = elim (Option-cases (lookup id keys)) [
  | inl missing ↦ rw missing (ground arith)
  | inr (k, at) ↦ rw at (lookup-insert id j k list ∙ ground arith)
]

lookup-device_key :
    (id j : String) (ds : Map SigningKeys) (list : Map String)
    → lookup j (device_key id ds list) ≡ over (of_devices id ds) (str_eq id j) (lookup j list)
unfolding device_key
lookup-device_key id j [] list = ground arith
lookup-device_key id j ((_, d) ∷ ds) list =
    lookup-device_key id j ds (take_key id d.keys list)
    ∙ ground (arith, lookup-take_key id j d.keys list)

lookup-known_key :
    (k : UserKeys) (id j : String) (list : Map String)
    → lookup j (known_key k id list) ≡ over (key_of k id) (str_eq id j) (lookup j list)
unfolding known_key
lookup-known_key k id j list =
    let l1 = device_key id k.device_keys list in
    let l2 = take_key id k.master_keys.keys l1 in
    let l3 = take_key id k.user_signing_keys.keys l2 in
    lookup-take_key id j k.self_signing_keys.keys l3
    ∙ ground (
      arith,
      lookup-take_key id j k.user_signing_keys.keys l2,
      lookup-take_key id j k.master_keys.keys l1,
      lookup-device_key id j k.device_keys list,
    )

pub lookup-known_keys :
    (k : UserKeys) (macs list : Map String) (j : String)
    → lookup j (known_keys k macs list) ≡ over (key_of k j) (has j macs) (lookup j list)
unfolding known_keys
lookup-known_keys k [] list j = refl
lookup-known_keys k ((id, _) ∷ macs) list j =
    lookup-known_keys k macs (known_key k id list) j
    ∙ ground (arith, lookup-known_key k id j list, eq_iff id j)

put_found-IsSorted :
    (id : String) (o : Option String) (list : Map String)
    → IsSorted list
    → IsSorted (put_found id o list)
put_found-IsSorted id none list s = s
put_found-IsSorted id (some k) list s = insert-IsSorted id k list s

take_key-IsSorted :
    (id : String) (keys list : Map String) → IsSorted list → IsSorted (take_key id keys list)
unfolding take_key
take_key-IsSorted id keys list s = put_found-IsSorted id (lookup id keys) list s

device_key-IsSorted :
    (id : String) (ds : Map SigningKeys) (list : Map String)
    → IsSorted list
    → IsSorted (device_key id ds list)
unfolding device_key
device_key-IsSorted id [] list s = s
device_key-IsSorted id ((_, d) ∷ ds) list s =
    device_key-IsSorted id ds (take_key id d.keys list) (take_key-IsSorted id d.keys list s)

known_key-IsSorted :
    (k : UserKeys) (id : String) (list : Map String)
    → IsSorted list
    → IsSorted (known_key k id list)
unfolding known_key
known_key-IsSorted k id list s =
    let l1 = device_key id k.device_keys list in
    let l2 = take_key id k.master_keys.keys l1 in
    take_key-IsSorted id k.self_signing_keys.keys (take_key id k.user_signing_keys.keys l2) (
      take_key-IsSorted id k.user_signing_keys.keys l2
        (take_key-IsSorted id k.master_keys.keys l1 (device_key-IsSorted id k.device_keys list s)))

pub known_keys-IsSorted :
    (k : UserKeys) (macs list : Map String) → IsSorted list → IsSorted (known_keys k macs list)
unfolding known_keys
known_keys-IsSorted k [] list s = s
known_keys-IsSorted k ((id, _) ∷ macs) list s =
    known_keys-IsSorted k macs (known_key k id list) (known_key-IsSorted k id list s)

-- Each MAC that is computed stands in the message.
abbrev pub Stands :
    (calculate : String → String → String) (info : String) → (keys theirs : Map String) → Type 0
Stands calculate info keys theirs =
    (id key : String)
    → lookup id keys ≡ some key
    → lookup id theirs ≡ some (calculate key (concat (info ∷ id ∷ [])))

past :
    (j id key : String) (keys : Map String)
    → IsBefore j keys
    → lookup id keys ≡ some key
    → str_eq j id ≡ false
past j id key keys before at =
    ground (arith, before id (lookup-has id key keys at), eq_iff j id, str_lt_irrefl j)

module _ (calculate : String → String → String) (info : String) (theirs : Map String) where
  pub check_macs-Stands :
      (keys : Map String)
      → check_macs (mac_entries calculate info keys) theirs ≡ all_match
      → Stands calculate info keys theirs
  unfolding check_macs mac_entries
  check_macs-Stands [] h id key at = absurd (ground arith)
  check_macs-Stands ((j, k) ∷ keys) h id key at = elim (Option-cases (lookup j theirs)) [
    | inl missing ↦ absurd (ground (arith, missing, h))
    | inr (m, found) ↦ ground (
      arith,
      found,
      h,
      eq_iff j id,
      at,
      eq_iff (calculate k (concat (info ∷ j ∷ []))) m,
      λ (g : check_macs (mac_entries calculate info keys) theirs ≡ all_match).
          check_macs-Stands keys g id key,
    )
  ]

  pub Stands-check_macs :
      (keys : Map String)
      → IsSorted keys
      → Stands calculate info keys theirs
      → check_macs (mac_entries calculate info keys) theirs ≡ all_match
  unfolding check_macs mac_entries
  Stands-check_macs [] sorted stands = refl
  Stands-check_macs ((j, k) ∷ keys) (before, sorted) stands =
      let rest =
        Stands-check_macs keys sorted
          (λ id key at. stands id key (ground (arith, at, past j id key keys before at))) in
      ground (
        arith,
        stands j k (rw (eq_refl j) refl),
        rest,
        eq_refl (calculate k (concat (info ∷ j ∷ []))),
      )
