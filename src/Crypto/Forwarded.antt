-- ===== src/Crypto/Forwarded.antt =====
-- `olm::handle_key_request_message`: a key is sent exactly to those who may have it.
use nheko_library.Base.{
  ℕ, ◌≡◌, refl, ◌∙◌, sym, ap, ◌⊎◌, inl, inr, String, Option, none, some, true, false, arith, eq_iff,
  Option-cases, Bool-cases, some-injective, eq_refl,
}
use nheko_library.Crypto.Sessions.{
  Megolm, Sessions, GroupSessionData, get_inbound_megolm_session, get_megolm_session_data,
}
use nheko_library.Crypto.KeyRequests.{
  KeyRequest, Account, Forward, megolm_algo, first_index, shared_from, lists_device,
  is_verified_device, forward_key, minimum_index, export_from, index_of, handle_key_request_message,
}

module _ (M : Megolm) (a : Account M) where
  -- A device that may have the whole session: it is verified, and is ours or of users that we share with.
  abbrev pub IsTrusted : KeyRequest → Type 0
  IsTrusted r =
      ((a.share_keys_with_trusted_users ≡ true) ⊎ (r.sender ≡ a.user_id))
      × (lists_device r.requesting_device_id (a.verified_devices r.sender) ≡ true)

  -- From which index on a device may have a session.
  abbrev pub Sees : KeyRequest → GroupSessionData → ℕ → Type 0
  Sees r d i =
      (IsTrusted r × (i ≡ first_index))
      ⊎ ((IsTrusted r → ⊥) × (shared_from r.sender r.requesting_device_id d.currently ≡ some i))

  -- What was known and checked when the key was sent: the session was sent by this account, or the request
  -- is; the requester is in the room; and the key is from an index that the device may see.
  pub record Allowed (r : KeyRequest) (db : Sessions M) (f : Forward) : Type 0 where
    pub data_of : GroupSessionData
    pub session_of : M.Session
    pub index : ℕ
    pub has_data : get_megolm_session_data M (index_of r) db ≡ some data_of
    pub has_session : get_inbound_megolm_session M (index_of r) db ≡ some session_of
    pub is_algorithm : r.algorithm ≡ megolm_algo
    pub is_own : (r.sender ≡ a.user_id) ⊎ (data_of.sender_key ≡ a.curve25519)
    pub is_member : a.is_room_member r.sender r.room_id ≡ true
    pub sees : Sees r data_of index
    pub exports : a.export_session session_of index ≡ some f.payload.session_key
    pub to_sender : (f.user_id ≡ r.sender) × (f.device_id ≡ r.requesting_device_id)

  abbrev sent_with : KeyRequest → GroupSessionData → Option String → Option Forward
  sent_with r d none = none
  sent_with r d (some key) = some (forward_key M a r d key)

  trusted : (r : KeyRequest) → is_verified_device M a r ≡ true → IsTrusted r
  trusted r h = (ground (arith, eq_iff r.sender a.user_id), ground arith)

  untrusted : (r : KeyRequest) → is_verified_device M a r ≡ false → IsTrusted r → ⊥
  untrusted r h (own, lists) = ground (arith, eq_refl a.user_id)

  minimum_index-Sees :
      (r : KeyRequest) (d : GroupSessionData) (i : ℕ) → minimum_index M a r d ≡ some i → Sees r d i
  minimum_index-Sees r d i h = elim (Bool-cases (is_verified_device M a r)) [
    | inl device ↦ inl (trusted r device, ground (arith, device, h))
    | inr other ↦ inr (untrusted r other, ground (arith, other, h))
  ]

  -- The exported key is from an index that is seen.
  export_from-Sees :
      (r : KeyRequest) (d : GroupSessionData) (s : M.Session) (o : Option ℕ) (f : Forward)
      → minimum_index M a r d ≡ o
      → export_from M a r d s o ≡ some f
      → (i : ℕ) × Sees r d i
        × (a.export_session s i ≡ some f.payload.session_key)
        × ((f.user_id ≡ r.sender) × (f.device_id ≡ r.requesting_device_id))
  export_from-Sees r d s none f e h = absurd (ground arith)
  export_from-Sees r d s (some i) f e h = elim (Option-cases (a.export_session s i)) [
    | inl fails ↦ absurd (ground (arith, fails, h))
    | inr (key, exported) ↦
        let sent = some-injective (sym (ap (sent_with r d) exported) ∙ h) in
        (
          i,
          minimum_index-Sees r d i e,
          exported ∙ ap (λ f. some f.payload.session_key) sent,
          (sym (ap (λ f. f.user_id) sent), sym (ap (λ f. f.device_id) sent)),
        )
  ]

  -- A key is sent only where the session is known, its sender or the requester is this account, the
  -- requester is in the room, and the key is from an index on that the device may see: all of it for a
  -- trusted device, and else what was recorded when the session was shared with it. The one who asked gets it.
  pub handle_key_request_message-Allowed :
      (r : KeyRequest) (db : Sessions M) (f : Forward)
      → handle_key_request_message M a r db ≡ some f
      → Allowed r db f
  unfolding handle_key_request_message
  handle_key_request_message-Allowed r db f h =
      elim (Option-cases (get_megolm_session_data M (index_of r) db)) [
        | inl missing ↦ absurd (ground (arith, missing, h))
        | inr (d, has_data) ↦ elim (Option-cases (get_inbound_megolm_session M (index_of r) db)) [
          | inl missing ↦ absurd (ground (arith, missing, has_data, h))
          | inr (s, has_session) ↦
              let (i, sees, exports, to_sender) =
                export_from-Sees r d s (minimum_index M a r d) f refl
                  (ground (arith, has_data, has_session, h)) in
              record {
                data_of = d;
                session_of = s;
                index = i;
                has_data = has_data;
                has_session = has_session;
                is_algorithm = ground (arith, eq_iff r.algorithm megolm_algo, h);
                is_own = ground (
                  arith,
                  eq_iff r.sender a.user_id,
                  eq_iff d.sender_key a.curve25519,
                  has_data,
                  h,
                );
                is_member = ground (arith, has_data, has_session, h);
                sees = sees;
                exports = exports;
                to_sender = to_sender;
              }
        ]
      ]
