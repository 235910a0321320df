-- ===== src/Crypto/GroupEncryption.antt =====
-- `olm::encrypt_group_message`: the session of a room, who gets its key, and what is recorded of it.
use nheko_library.Base.{
  ℕ, ◌+◌, ◌-◌, ◌%◌, ◌^◌, String, List, [], ◌∷◌, Option, none, some, Bool, ◌&&◌, if◌then◌else◌, ltb,
}
use nheko_library.Base.StdMap.{Map, lookup, has, insert}
use nheko_library.Crypto.Sessions.{
  Megolm, Sessions, MegolmSessionIndex, GroupSessionData, SharedWithUsers, no_data, value_or,
  save_inbound_megolm_session, get_megolm_session_data,
}
use nheko_library.Crypto.Sharing.{Members, Targets, share_with_all, compare_members}

-- libolm's outbound sessions, which are stored as they are.
pub record OutboundMegolm : Type 1 where
  pub Outbound : Type 0
  pub session_id : Outbound → String
  pub session_key : Outbound → String
  pub message_index : Outbound → ℕ
  pub encrypt_group_message : Outbound → (text : String) → String × Outbound

abbrev pub or_empty : Option (Map ℕ) → Map ℕ
or_empty none = []
or_empty (some ds) = ds

-- `currently.keys[user].deviceids[device] = index` of the devices that have no index.
abbrev pub record_devices : (index : ℕ) → List String → Map ℕ → Map ℕ
record_devices index [] known = known
record_devices index (d ∷ ds) known =
    record_devices index ds (if has d known then known else insert d index known)

-- The loop over `sendSessionTo` after the encryption.
abbrev pub record_targets : (index : ℕ) → Targets → SharedWithUsers → SharedWithUsers
record_targets index [] shared = shared
record_targets index ((user, ds) ∷ ts) shared =
    record_targets index ts
      (insert user (record_devices index ds (or_empty (lookup user shared))) shared)

module _ (M : Megolm) (O : OutboundMegolm) where
  -- What the message and its room are, and what the settings, the clock and libolm give; `fresh` is what
  -- `init_outbound_group_session` returns.
  pub record Encryption : Type 0 where
    pub own_user_id : String
    pub device_id : String
    pub room_id : String
    pub body : String
    pub members : Members
    pub rotation_period_msgs : ℕ
    pub rotation_period_ms : ℕ
    pub now : ℕ
    pub ed25519 : String
    pub curve25519 : String
    pub fresh : O.Outbound

  -- The tables: outbound sessions are by room.
  pub record Store : Type 0 where
    pub sessions : Sessions M
    pub outbound : Map O.Outbound

  -- A session that is to be used, the devices that its key is to be sent to, and its data.
  pub record Chosen : Type 0 where
    pub session : O.Outbound
    pub send_session_to : Targets
    pub data_of : GroupSessionData
    pub store : Store

  -- What was sent: the key, if there is anyone to send it to, and the message.
  pub record Encrypted : Type 0 where
    pub send_session_to : Targets
    pub session_key : String
    pub ciphertext : String
    pub data_of : GroupSessionData
    pub store : Store

  abbrev pub index_of : Encryption → O.Outbound → MegolmSessionIndex
  index_of e o = record { room_id = e.room_id; session_id = O.session_id o }

  -- `now - timestamp` is unsigned.
  abbrev pub is_in_period : Encryption → GroupSessionData → Bool
  is_in_period e d =
      ltb d.message_index e.rotation_period_msgs
      && ltb ((e.now + (2 ^ 64 - d.timestamp)) % 2 ^ 64) e.rotation_period_ms

  abbrev pub chosen_with : O.Outbound → GroupSessionData → Store → Option Targets → Option Chosen
  chosen_with o d st none = none
  chosen_with o d st (some t) =
      some (record { session = o; send_session_to = t; data_of = d; store = st })

  -- The session of the room, if it may be used further.
  unfoldable pub reuse : Encryption → Store → Option Chosen
  reuse e st = elim (lookup e.room_id st.outbound) [
    | none ↦ none
    | some o ↦
        (let d = value_or (get_megolm_session_data M (index_of e o) st.sessions) in
          if is_in_period e d
          then chosen_with o d st
              (compare_members e.own_user_id e.device_id e.members d.currently [])
          else none)
  ]

  -- `saveOutboundMegolmSession`, and `updateOutboundMegolmSession` where there is one.
  abbrev pub put_outbound : Encryption → O.Outbound → GroupSessionData → Store → Store
  put_outbound e o d st = record {
    sessions = record (st.sessions) {
      session_data =
          insert (M.dump (index_of e o)) (record d { message_index = O.message_index o })
            st.sessions.session_data;
    };
    outbound = insert e.room_id o st.outbound;
  }

  abbrev pub update_outbound : Encryption → O.Outbound → GroupSessionData → Store → Store
  update_outbound e o d st = if has e.room_id st.outbound then put_outbound e o d st else st

  abbrev session_data_of : Encryption → Targets → GroupSessionData
  session_data_of e t = record no_data {
    message_index = 0;
    timestamp = e.now;
    sender_claimed_ed25519_key = e.ed25519;
    sender_key = e.curve25519;
    currently = record_targets 0 t [];
  }

  -- A new session, for all devices of all members but this one. `none`: libolm refused its key.
  unfoldable pub create : Encryption → Store → Option Chosen
  create e st =
      let t = share_with_all e.own_user_id e.device_id e.members [] in
      let d = session_data_of e t in
      elim (M.init_inbound_group_session (O.session_key e.fresh)) [
        | none ↦ none
        | some s ↦ some (record {
          session = e.fresh;
          send_session_to = t;
          data_of = d;
          store = put_outbound e e.fresh d (record st {
            sessions = save_inbound_megolm_session M (index_of e e.fresh) s d st.sessions;
          });
        })
      ]

  unfoldable pub encrypt_with : Encryption → Chosen → Encrypted
  encrypt_with e c =
      let sealed = O.encrypt_group_message c.session e.body in
      let index = O.message_index sealed.1 in
      let d = record (c.data_of) {
        message_index = index;
        currently = record_targets index c.send_session_to c.data_of.currently;
      } in
      record {
        send_session_to = c.send_session_to;
        session_key = O.session_key c.session;
        ciphertext = sealed.0;
        data_of = d;
        store = update_outbound e sealed.1 d c.store;
      }

  abbrev or_create : Encryption → Store → Option Chosen → Option Chosen
  or_create e st none = create e st
  or_create e st (some c) = some c

  abbrev encrypt_chosen : Encryption → Option Chosen → Option Encrypted
  encrypt_chosen e none = none
  encrypt_chosen e (some c) = some (encrypt_with e c)

  unfoldable pub encrypt_group_message : Encryption → Store → Option Encrypted
  encrypt_group_message e st = encrypt_chosen e (or_create e st (reuse e st))
