-- ===== src/Verification/Message.antt =====
-- The verification messages, with the fields that DeviceVerificationFlow.cpp reads or writes.
-- A message is a header, which says what flow it belongs to, and the content of its type.
use nheko_library.Base.{ℕ, String, List, Option, Bool}
use nheko_library.Base.StdMap.{Map}

pub data SasMethod : Type 0 where
  emoji decimal unsupported : SasMethod

pub data VerificationMethod : Type 0 where
  sas_v1 other : VerificationMethod

pub data RelationType : Type 0 where
  unset reference : RelationType

pub record Relation : Type 0 where
  pub rel_type : RelationType
  pub event_id : String

-- `transaction_id`, `relations.relations` and `relations.synthesized` of a message.
pub record Header : Type 0 where
  pub transaction_id : Option String
  pub relations : List Relation
  pub synthesized : Bool

pub record Request : Type 0 where
  pub from_device : String
  pub methods : List VerificationMethod
  pub timestamp : Option ℕ
  pub to : String
  pub msgtype : String
  pub body : String

pub record Ready : Type 0 where
  pub from_device : String
  pub methods : List VerificationMethod

pub record Start : Type 0 where
  pub from_device : String
  pub method : VerificationMethod
  pub key_agreement_protocols : List String
  pub hashes : List String
  pub message_authentication_codes : List String
  pub short_authentication_string : List SasMethod

pub record Accept : Type 0 where
  pub method : VerificationMethod
  pub key_agreement_protocol : String
  pub hash : String
  pub message_authentication_code : String
  pub short_authentication_string : List SasMethod
  pub commitment : String

pub record KeyMac : Type 0 where
  pub mac : Map String
  pub keys : String

pub data Content : Type 0 where
  request : Request → Content
  ready : Ready → Content
  start : Start → Content
  accept : Accept → Content
  key : String → Content
  mac : KeyMac → Content
  cancel : (code reason : String) → Content
  done : Content

pub record Message : Type 0 where
  pub header : Header
  pub content : Content
