-- ===== src/Verification/Flow.antt =====
-- DeviceVerificationFlow: its state, and what every other method goes through, `setState`, `send`
-- and `cancelVerification`. The log holds the calls that leave the object, the latest first.
use nheko_library.Base.{
  ℕ, String, List, [], ◌∷◌, ◌++◌, Option, none, some, Bool, true, false, ◌||◌, ◌==◌, if◌then◌else◌,
}
use nheko_library.Base.StdMap.{Map}
use nheko_library.Verification.Message.{
  SasMethod, Relation, Header, Content, Message, request, cancel,
}
use nheko_library.Verification.Env.{SigningKeys, UserKeys}

pub data State : Type 0 where
  prompt_start_verification waiting_for_other_to_accept waiting_for_keys : State
  compare_emoji compare_number waiting_for_mac success failed : State

pub data FlowType : Type 0 where
  to_device room_msg : FlowType

pub data Error : Type 0 where
  unknown_method mismatched_commitment mismatched_sas key_mismatch timeout user out_of_order : Error

-- A signature that is uploaded: the object, and who signed it with which key.
pub record Signed : Type 0 where
  pub object : SigningKeys
  pub signer : String
  pub signing_key : String
  pub signature : String

pub data Effect : Type 0 where
  state_changed error_changed refresh_profile request_cross_signing_keys : Effect
  send_to_device : (user : String) (devices : List String) → Message → Effect
  send_room_message : Message → Effect
  mark_verified : (user device : String) → Effect
  mark_unverified : (user device : String) → Effect
  upload_signatures : (user : String) → Map Signed → Effect
  exception : Effect

pub record Flow : Type 0 where
  pub transaction_id : String
  pub sender : Bool
  pub type : FlowType
  pub to_client : String
  pub device_id : String
  pub device_ids : List String
  pub our_trusted_master_key : String
  pub method : SasMethod
  pub their_key : Option String  -- the SAS object's, from `set_their_key`
  pub mac_method : String
  pub commitment : String
  pub canonical_json : String
  pub sas_list : List ℕ
  pub their_keys : UserKeys
  pub has_model : Bool  -- `model_` is not null
  pub relation : Relation
  pub state : State
  pub error : Error
  pub is_mac_verified : Bool
  pub key_sent : Bool
  pub mac_sent : Bool
  pub accept_sent : Bool
  pub start_sent : Bool
  pub log : List Effect

abbrev pub state_index : State → ℕ
state_index prompt_start_verification = 0
state_index waiting_for_other_to_accept = 1
state_index waiting_for_keys = 2
state_index compare_emoji = 3
state_index compare_number = 4
state_index waiting_for_mac = 5
state_index success = 6
state_index failed = 7

abbrev pub is_state : State → State → Bool
is_state s t = state_index s == state_index t

abbrev pub emit : Effect → Flow → Flow
emit e f = record f { log = e ∷ f.log }

unfoldable pub set_state : State → Flow → Flow
set_state s f = if is_state s f.state then f else emit state_changed (record f { state = s })

-- A message as a method makes it, before `send` fills its header in.
abbrev pub no_header : Header
no_header = record { transaction_id = none; relations = []; synthesized = false }

abbrev pub message : Content → Message
message c = record { header = no_header; content = c }

abbrev pub is_request : Content → Bool
is_request (request r) = true
is_request _ = false

-- `msg.relations.relations.push_back(this->relation); msg.relations.synthesized = true`
abbrev pub push_relation : Relation → Header → Header
push_relation r h = record h { relations = h.relations ++ r ∷ []; synthesized = true }

room_header : Flow → Message → Message
room_header f m =
    if is_request m.content then m else record m { header = push_relation f.relation m.header }

unfoldable pub send : Message → Flow → Flow
unfolding room_header
send m f = elim f.type [
  | to_device ↦
      emit
        (send_to_device f.to_client f.device_ids
          (record m { header = record m.header { transaction_id = some f.transaction_id } }))
        f
  | room_msg ↦ if f.has_model then emit (send_room_message (room_header f m)) f else f
]

-- The `code` and `reason` that `cancelVerification` sends.
unfoldable pub cancel_content : Error → Content
cancel_content unknown_method = cancel "m.unknown_method" "unknown method received"
cancel_content mismatched_commitment = cancel "m.mismatched_commitment" "commitment didn't match"
cancel_content mismatched_sas = cancel "m.mismatched_sas" "sas didn't match"
cancel_content key_mismatch = cancel "m.key_match" "keys did not match"
cancel_content timeout = cancel "m.timeout" "timed out"
cancel_content user = cancel "m.user" "user cancelled the verification"
cancel_content out_of_order = cancel "m.unexpected_message" "received messages out of order"

unfoldable pub cancel_verification : Error → Flow → Flow
cancel_verification e f =
    if is_state f.state success || is_state f.state failed
    then f
    else send (message (cancel_content e))
        (emit error_changed (set_state failed (record f { error = e })))
