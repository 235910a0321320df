-- ===== src/Verification/Machine.antt =====
-- A flow's life: how it is made, the events that reach it, and a run over a list of them.
use nheko_library.Base.{String, List, [], ◌∷◌, Option, none, Bool, true, false, if◌then◌else◌}
use nheko_library.Verification.Message.{SasMethod, unset, Header}
use nheko_library.Verification.Message
use nheko_library.Verification.Env.{Env, UserKeys}
use nheko_library.Verification.Flow.{
  Flow, FlowType, to_device, room_msg, user, unknown_method, prompt_start_verification,
  cancel_verification,
}
use nheko_library.Verification.Outgoing.{next, unverify}
use nheko_library.Verification.Incoming.{
  has_sas_v1, handle_start, handle_accept, handle_cancel, handle_key, handle_mac, handle_ready,
  handle_done, handle_timeout, set_event_id, handle_their_keys, handle_our_keys,
}

abbrev pub no_keys : UserKeys
no_keys = record {
  device_keys = [];
  master_keys = record { keys = [] };
  user_signing_keys = record { keys = [] };
  self_signing_keys = record { keys = [] };
}

-- `if (deviceIds.size() == 1) deviceId = deviceIds.front()`
abbrev pub only_device : List String → String
only_device [] = ""
only_device (d ∷ []) = d
only_device (d ∷ e ∷ ds) = ""

-- The constructor.
unfoldable pub new_flow : FlowType → (has_model : Bool) → (user_id : String) → List String → Flow
new_flow type has_model user_id device_ids = record {
  transaction_id = "";
  sender = false;
  type = type;
  to_client = user_id;
  device_id = only_device device_ids;
  device_ids = device_ids;
  our_trusted_master_key = "";
  method = SasMethod.emoji;
  their_key = none;
  mac_method = "";
  commitment = "";
  canonical_json = "";
  sas_list = [];
  their_keys = no_keys;
  has_model = has_model;
  relation = record { rel_type = unset; event_id = "" };
  state = prompt_start_verification;
  error = unknown_method;
  is_mac_verified = false;
  key_sent = false;
  mac_sent = false;
  accept_sent = false;
  start_sent = false;
  log = [];
}

abbrev pub check_methods : Message.Request → Flow → Flow
check_methods r f = if has_sas_v1 r.methods then f else cancel_verification unknown_method f

unfoldable pub new_in_room_verification :
    Bool → Message.Request → (other_user event_id : String) → Flow
new_in_room_verification has_model r other_user event_id =
    check_methods r
      (set_event_id event_id (new_flow room_msg has_model other_user (r.from_device ∷ [])))

unfoldable pub new_to_device_verification : Message.Request → (other_user txn_id : String) → Flow
new_to_device_verification r other_user txn_id =
    check_methods r (record (new_flow to_device false other_user (r.from_device ∷ [])) {
      transaction_id = txn_id;
    })

unfoldable pub new_started_verification :
    Env → Header → Message.Start → (other_user txn_id : String) → Flow
new_started_verification env h s other_user txn_id =
    handle_start env h s (record (new_flow to_device false other_user (s.from_device ∷ [])) {
      transaction_id = txn_id;
    })

unfoldable pub initiate_user_verification : (has_model : Bool) → (user_id : String) → Flow
initiate_user_verification has_model user_id = record (new_flow room_msg has_model user_id []) {
  sender = true;
}

unfoldable pub initiate_device_verification :
    (user_id : String) → List String → (txn_id : String) → Flow
initiate_device_verification user_id devices txn_id =
    record (new_flow to_device false user_id devices) { sender = true; transaction_id = txn_id }

-- The five ways to make a flow.
pub data Origin : Type 0 where
  in_room : Bool → Message.Request → (other_user event_id : String) → Origin
  requested : Message.Request → (other_user txn_id : String) → Origin
  started : Header → Message.Start → (other_user txn_id : String) → Origin
  by_user : (has_model : Bool) → (user_id : String) → Origin
  by_device : (user_id : String) → List String → (txn_id : String) → Origin

unfoldable pub create : Env → Origin → Flow
create env (in_room has_model r other_user event_id) =
    new_in_room_verification has_model r other_user event_id
create env (requested r other_user txn_id) = new_to_device_verification r other_user txn_id
create env (started h s other_user txn_id) = new_started_verification env h s other_user txn_id
create env (by_user has_model user_id) = initiate_user_verification has_model user_id
create env (by_device user_id devices txn_id) = initiate_device_verification user_id devices txn_id

pub data Event : Type 0 where
  user_next user_cancel user_unverify timed_out : Event
  got_start : Header → Message.Start → Event
  got_accept : Header → Message.Accept → Event
  got_cancel got_done : Header → Event
  got_key : Header → String → Event
  got_mac : Header → Message.KeyMac → Event
  got_ready : Header → Message.Ready → Event
  got_event_id : String → Event
  got_their_keys : Option UserKeys → Event
  got_our_keys : Option UserKeys → (verified : Bool) → Event

unfoldable pub step : Env → Event → Flow → Flow
step env user_next f = next env f
step env user_cancel f = cancel_verification user f
step env user_unverify f = unverify f
step env timed_out f = handle_timeout f
step env (got_start h s) f = handle_start env h s f
step env (got_accept h a) f = handle_accept env h a f
step env (got_cancel h) f = handle_cancel env h f
step env (got_done h) f = handle_done env h f
step env (got_key h k) f = handle_key env h k f
step env (got_mac h m) f = handle_mac env h m f
step env (got_ready h r) f = handle_ready env h r f
step env (got_event_id id) f = if f.has_model then set_event_id id f else f  -- connected to `model_`
step env (got_their_keys k) f = handle_their_keys k f
step env (got_our_keys k verified) f = handle_our_keys k verified f

unfoldable pub run : Env → List Event → Flow → Flow
run env [] f = f
run env (e ∷ es) f = run env es (step env e f)
