-- ===== src/Verification/Registered.antt =====
-- Which messages make a flow, and that none replaces one.
use nheko_library.Base.{
  ℕ, String, List, [], ◌∷◌, ◌≡◌, inl, inr, Option, some, true, false, ◌+◌, ◌*◌, ◌<◌, suc, ◌≢◌, ◌⊎◌,
  arith, eq_iff, Option-cases,
}
use nheko_library.Base.StdMap.{lookup-has, has, lookup, lookup-insert}
use nheko_library.Verification.Message.{Header}
use nheko_library.Verification.Message
use nheko_library.Verification.Incoming.{has_sas_v1}
use nheko_library.Verification.Env.{Env}
use nheko_library.Verification.Flow.{Flow, prompt_start_verification, failed, unknown_method}
use nheko_library.Verification.Machine.{Origin, in_room, requested, started}
use nheko_library.Verification.Manager.{
  Registry, add_flow, add_new, received_room_request, received_request, received_start, Call,
  room_request, request, start, call, calls,
}

-- A call that a message of another device brings about.
pub data FromOutside : Call → Type 0 where
  by_room_request :
      (now : ℕ) (time : Option ℕ) (m : Message.Request) (sender id : String)
      → FromOutside (room_request now time m sender id)
  by_request :
      (now : ℕ) (h : Header) (m : Message.Request) (sender : String)
      → FromOutside (request now h m sender)
  by_start : (h : Header) (m : Message.Start) (sender : String) → FromOutside (start h m sender)

pub data AllFromOutside : List Call → Type 0 where
  none_left : AllFromOutside []
  one_more :
      (c : Call) (cs : List Call) → FromOutside c → AllFromOutside cs → AllFromOutside (c ∷ cs)

add_new-keeps :
    (env : Env) (new id : String) (origin : Origin) (h : ℕ) (r : Registry)
    → lookup id r.dv_list ≡ some h
    → lookup id (add_new env new origin r).dv_list ≡ some h
unfolding add_flow
add_new-keeps env new id origin h r e = ground (
  arith,
  e,
  eq_iff new id,
  lookup-insert new id r.next_handle r.dv_list,
  lookup-has id h r.dv_list e,
)

call-keeps :
    (env : Env) (c : Call) (id : String) (h : ℕ) (r : Registry)
    → FromOutside c
    → lookup id r.dv_list ≡ some h
    → lookup id (call env c r).dv_list ≡ some h
unfolding call received_room_request received_request received_start
call-keeps env _ id h r (by_room_request now time m sender new) e =
    ground (arith, e, add_new-keeps env new id (in_room true m sender new) h r e)
call-keeps env _ id h r (by_request now g m sender) e = elim (Option-cases g.transaction_id) [
  | inl n ↦ rw n (ground (arith, e))
  | inr (new, n) ↦ rw n (ground (arith, e, add_new-keeps env new id (requested m sender new) h r e))
]
call-keeps env _ id h r (by_start g m sender) e = elim (Option-cases g.transaction_id) [
  | inl n ↦ rw n (ground (arith, e))
  | inr (new, n) ↦ rw n (ground (arith, e, add_new-keeps env new id (started g m sender new) h r e))
]

-- Messages of other devices, in any number and with any ids, replace no flow: an id that has one has the
-- same one after them.
pub calls-keep :
    (env : Env) (cs : List Call) (id : String) (h : ℕ) (r : Registry)
    → AllFromOutside cs
    → lookup id r.dv_list ≡ some h
    → lookup id (calls env cs r).dv_list ≡ some h
unfolding calls
calls-keep env _ id h r none_left e = e
calls-keep env _ id h r (one_more c cs o os) e =
    calls-keep env cs id h (call env c r) os (call-keeps env c id h r o e)

-- A request that is to make a flow: it comes after the first sync, at a time from ten minutes before now
-- until five minutes after it, and its transaction id has no flow yet.
pub record IsTimely (now : ℕ) (h : Header) (m : Message.Request) (r : Registry) : Type 0 where
  pub synced : r.is_initial_sync ≡ false
  pub milliseconds : ℕ
  pub has_time : m.timestamp ≡ some milliseconds
  pub not_old : now < milliseconds * 1000000 + 10 * 60 * 1000000000
  pub not_ahead : milliseconds * 1000000 < now + 5 * 60 * 1000000000
  pub id : String
  pub has_id : h.transaction_id ≡ some id
  pub is_new : has id r.dv_list ≡ false

-- What a request that makes a flow leaves: the id has the number of a new object, which is the flow that is
-- shown; it is with the sender and the device of the request, under its id, not sent by this side, and waits
-- for the user, or has failed where the request does not offer the method. Other ids have what they had, and nothing was taken from what was shown.
pub record Made (sender : String) (m : Message.Request) (id : String) (r s : Registry)
    : Type 0 where
  pub flow : Flow
  pub registered : lookup id s.dv_list ≡ some r.next_handle
  pub others : (j : String) → (id ≢ j) → lookup j s.dv_list ≡ lookup j r.dv_list
  pub shown : s.shown ≡ record { handle = r.next_handle; flow = flow } ∷ r.shown
  pub next : s.next_handle ≡ suc r.next_handle
  pub with_sender : flow.to_client ≡ sender
  pub with_device : flow.device_id ≡ m.from_device
  pub under_id : flow.transaction_id ≡ id
  pub not_sender : flow.sender ≡ false
  pub offered : has_sas_v1 m.methods ≡ true → flow.state ≡ prompt_start_verification
  pub unknown : has_sas_v1 m.methods ≡ false → (flow.state ≡ failed) × (flow.error ≡ unknown_method)

-- A request makes its flow, or it is none of these and changes nothing.
abbrev pub Answered :
    (now : ℕ) → Header → Message.Request → (sender : String) → (r s : Registry) → Type 0
Answered now h m sender r s =
    ((t : IsTimely now h m r) × Made sender m t.id r s) ⊎ ((IsTimely now h m r → ⊥) × (s ≡ r))
