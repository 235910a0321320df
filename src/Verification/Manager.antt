-- ===== src/Verification/Manager.antt =====
-- encryption/VerificationManager.{h,cpp}: which flows there are, by the ids that their messages carry. A
-- number stands for the object of a flow, as the pointers do there; `shown` are the flows of
-- `newDeviceVerificationRequest`, the latest first.
use nheko_library.Base.{
  ℕ, suc, ◌+◌, ◌*◌, String, List, [], ◌∷◌, Option, none, some, Bool, true, false, not, ◌&&◌, ◌||◌,
  ltb, ◌==◌, any_of, contains, if◌then◌else◌,
}
use nheko_library.Base.StdMap.{Map, has, insert}
use nheko_library.Verification.Message.{Header}
use nheko_library.Verification.Message
use nheko_library.Verification.Env.{Env}
use nheko_library.Verification.Flow.{Flow}
use nheko_library.Verification.Machine.{
  Origin, in_room, requested, started, by_user, by_device, create,
}

pub record Shown : Type 0 where
  pub handle : ℕ
  pub flow : Flow

pub record Registry : Type 0 where
  pub dv_list : Map ℕ
  pub is_initial_sync : Bool
  pub next_handle : ℕ
  pub awaited : List ℕ  -- flows whose event id is to come, by `updateFlowEventId`
  pub shown : List Shown
  pub not_found : ℕ  -- notifications that there is no chat with a user

-- The clock in nanoseconds; the time of a message is in milliseconds.
unfoldable pub is_valid_time : (now : ℕ) → Option ℕ → Bool
is_valid_time now none = false
is_valid_time now (some t) =
    ltb now (t * 1000000 + 600000000000) && ltb (t * 1000000) (now + 300000000000)

-- `DeviceVerificationFlow::New...`, the entry, and the signal.
unfoldable pub add_flow : Env → String → Origin → Registry → Registry
add_flow env id origin r = record r {
  dv_list = insert id r.next_handle r.dv_list;
  next_handle = suc r.next_handle;
  shown = record { handle = r.next_handle; flow = create env origin } ∷ r.shown;
}

abbrev pub add_new : Env → String → Origin → Registry → Registry
add_new env id origin r = if has id r.dv_list then r else add_flow env id origin r

unfoldable pub received_room_request :
    Env
    → (now : ℕ) → (time : Option ℕ) → (has_model : Bool) → Message.Request
    → (sender event_id : String) → Registry
    → Registry
received_room_request env now time has_model m sender event_id r =
    if r.is_initial_sync || not (is_valid_time now time)
    then r
    else add_new env event_id (in_room has_model m sender event_id) r

unfoldable pub received_request :
    Env → (now : ℕ) → Header → Message.Request → (sender : String) → Registry → Registry
received_request env now h m sender r =
    if r.is_initial_sync || not (is_valid_time now m.timestamp)
    then r
    else elim h.transaction_id [ none ↦ r | some id ↦ add_new env id (requested m sender id) r ]

unfoldable pub received_start :
    Env → Header → Message.Start → (sender : String) → Registry → Registry
received_start env h m sender r =
    if r.is_initial_sync
    then r
    else elim h.transaction_id [ none ↦ r | some id ↦ add_new env id (started h m sender id) r ]

-- What `verifyUser` asks the cache and the client of a room.
pub record Chat : Type 0 where
  pub member_count : ℕ
  pub is_encrypted : Bool
  pub members : List String
  pub has_timeline : Bool

abbrev pub serves : String → Chat → Bool
serves user_id c =
    c.member_count == 2 && c.is_encrypted && contains user_id c.members && c.has_timeline

unfoldable pub verify_user : Env → (user_id : String) → List Chat → Registry → Registry
verify_user env user_id rooms r =
    if any_of (serves user_id) rooms
    then record r {
      next_handle = suc r.next_handle;
      awaited = r.next_handle ∷ r.awaited;
      shown = record { handle = r.next_handle; flow = create env (by_user true user_id) } ∷ r.shown;
    }
    else record r { not_found = suc r.not_found }

abbrev pub without : ℕ → List ℕ → List ℕ
without h [] = []
without h (k ∷ ks) = let rest = without h ks in if k == h then rest else k ∷ rest

-- The connection to `updateFlowEventId`, which works once.
unfoldable pub update_flow_event_id : ℕ → (event_id : String) → Registry → Registry
update_flow_event_id h event_id r =
    if any_of (λ k. k == h) r.awaited
    then record r { dv_list = insert event_id h r.dv_list; awaited = without h r.awaited }
    else r

-- The loop of `removeVerificationFlow`: the first entry with this flow.
unfoldable pub remove_first : ℕ → Map ℕ → Map ℕ
remove_first h [] = []
remove_first h ((id, k) ∷ m) = let rest = remove_first h m in if k == h then m else (id, k) ∷ rest

unfoldable pub remove_verification_flow : ℕ → Registry → Registry
remove_verification_flow h r = record r { dv_list = remove_first h r.dv_list }

-- `verifyDevice` is this for one device; the id is the one that the client generates.
unfoldable pub verify_one_of_devices :
    Env → (user_id : String) → List String → (txn_id : String) → Registry → Registry
verify_one_of_devices env user_id devices txn_id r =
    add_flow env txn_id (by_device user_id devices txn_id) r

pub data Call : Type 0 where
  room_request : (now : ℕ) → (time : Option ℕ) → Message.Request → (sender event_id : String) → Call
  request : (now : ℕ) → Header → Message.Request → (sender : String) → Call
  start : Header → Message.Start → (sender : String) → Call
  user_verifies : (user_id : String) → List Chat → Call
  flow_event_id : (handle : ℕ) → (event_id : String) → Call
  flow_removed : (handle : ℕ) → Call
  device_verified : (user_id : String) → List String → (txn_id : String) → Call

unfoldable pub call : Env → Call → Registry → Registry
call env (room_request now time m sender id) r =
    received_room_request env now time true m sender id r
call env (request now h m sender) r = received_request env now h m sender r
call env (start h m sender) r = received_start env h m sender r
call env (user_verifies user_id rooms) r = verify_user env user_id rooms r
call env (flow_event_id h id) r = update_flow_event_id h id r
call env (flow_removed h) r = remove_verification_flow h r
call env (device_verified user_id devices id) r = verify_one_of_devices env user_id devices id r

unfoldable pub calls : Env → List Call → Registry → Registry
calls env [] r = r
calls env (c ∷ cs) r = calls env cs (call env c r)
