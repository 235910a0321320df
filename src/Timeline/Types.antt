-- ===== src/Timeline/Types.antt =====
-- timeline/Timeline.{h,cpp}: the types of events as the view has them, and those of the Matrix library.
use nheko_library.Base.{ℕ}

-- `mtx::events::EventType`: the types that this code names, and the others.
pub data MatrixType : Type 0 where
  mtx_room_key_request mtx_reaction mtx_room_aliases mtx_room_avatar : MatrixType
  mtx_room_canonical_alias mtx_room_create mtx_room_encrypted mtx_room_encryption : MatrixType
  mtx_room_guest_access mtx_room_history_visibility mtx_room_join_rules mtx_room_member : MatrixType
  mtx_room_message mtx_room_name mtx_room_power_levels mtx_room_topic : MatrixType
  mtx_room_tombstone mtx_room_redaction mtx_room_pinned_events mtx_sticker mtx_tag : MatrixType
  mtx_policy_rule_user mtx_policy_rule_room mtx_policy_rule_server mtx_space_parent : MatrixType
  mtx_space_child mtx_image_pack_in_room mtx_image_pack_in_account_data : MatrixType
  mtx_image_pack_rooms mtx_unsupported mtx_call_invite mtx_call_answer mtx_call_hang_up : MatrixType
  mtx_call_candidates mtx_widget : MatrixType
  another_type : ℕ → MatrixType

-- `qml_mtx_events::EventType`
pub data RoomEventType : Type 0 where
  unsupported key_request reaction aliases avatar call_invite call_answer call_hang_up :
      RoomEventType
  call_candidates canonical_alias room_create encrypted encryption room_guest_access : RoomEventType
  room_history_visibility room_join_rules member name power_levels tombstone topic : RoomEventType
  redaction pinned_events sticker tag widget audio_message emote_message file_message :
      RoomEventType
  image_message location_message notice_message text_message video_message redacted : RoomEventType
  unknown_message key_verification_request key_verification_start key_verification_mac :
      RoomEventType
  key_verification_accept key_verification_cancel key_verification_key : RoomEventType
  key_verification_done key_verification_ready image_pack_in_room : RoomEventType
  image_pack_in_account_data image_pack_rooms policy_rule_user policy_rule_room : RoomEventType
  policy_rule_server space_parent space_child : RoomEventType

unfoldable pub to_room_event_type : MatrixType → RoomEventType
to_room_event_type mtx_room_key_request = key_request
to_room_event_type mtx_reaction = reaction
to_room_event_type mtx_room_aliases = aliases
to_room_event_type mtx_room_avatar = avatar
to_room_event_type mtx_room_canonical_alias = canonical_alias
to_room_event_type mtx_room_create = room_create
to_room_event_type mtx_room_encrypted = encrypted
to_room_event_type mtx_room_encryption = encryption
to_room_event_type mtx_room_guest_access = room_guest_access
to_room_event_type mtx_room_history_visibility = room_history_visibility
to_room_event_type mtx_room_join_rules = room_join_rules
to_room_event_type mtx_room_member = member
to_room_event_type mtx_room_message = unknown_message
to_room_event_type mtx_room_name = name
to_room_event_type mtx_room_power_levels = power_levels
to_room_event_type mtx_room_topic = topic
to_room_event_type mtx_room_tombstone = tombstone
to_room_event_type mtx_room_redaction = redaction
to_room_event_type mtx_room_pinned_events = pinned_events
to_room_event_type mtx_sticker = sticker
to_room_event_type mtx_tag = tag
to_room_event_type mtx_policy_rule_user = policy_rule_user
to_room_event_type mtx_policy_rule_room = policy_rule_room
to_room_event_type mtx_policy_rule_server = policy_rule_server
to_room_event_type mtx_space_parent = space_parent
to_room_event_type mtx_space_child = space_child
to_room_event_type mtx_image_pack_in_room = image_pack_in_room
to_room_event_type mtx_image_pack_in_account_data = image_pack_in_account_data
to_room_event_type mtx_image_pack_rooms = image_pack_rooms
to_room_event_type mtx_unsupported = unsupported
to_room_event_type _ = unknown_message

unfoldable pub from_room_event_type : RoomEventType → MatrixType
from_room_event_type unsupported = mtx_unsupported
from_room_event_type key_request = mtx_room_key_request
from_room_event_type reaction = mtx_reaction
from_room_event_type aliases = mtx_room_aliases
from_room_event_type avatar = mtx_room_avatar
from_room_event_type call_invite = mtx_call_invite
from_room_event_type call_answer = mtx_call_answer
from_room_event_type call_hang_up = mtx_call_hang_up
from_room_event_type call_candidates = mtx_call_candidates
from_room_event_type canonical_alias = mtx_room_canonical_alias
from_room_event_type room_create = mtx_room_create
from_room_event_type encrypted = mtx_room_encrypted
from_room_event_type encryption = mtx_room_encryption
from_room_event_type room_guest_access = mtx_room_guest_access
from_room_event_type room_history_visibility = mtx_room_history_visibility
from_room_event_type room_join_rules = mtx_room_join_rules
from_room_event_type member = mtx_room_member
from_room_event_type name = mtx_room_name
from_room_event_type power_levels = mtx_room_power_levels
from_room_event_type tombstone = mtx_room_tombstone
from_room_event_type topic = mtx_room_topic
from_room_event_type redaction = mtx_room_redaction
from_room_event_type pinned_events = mtx_room_pinned_events
from_room_event_type sticker = mtx_sticker
from_room_event_type tag = mtx_tag
from_room_event_type widget = mtx_widget
from_room_event_type audio_message = mtx_room_message
from_room_event_type emote_message = mtx_room_message
from_room_event_type file_message = mtx_room_message
from_room_event_type image_message = mtx_room_message
from_room_event_type location_message = mtx_room_message
from_room_event_type notice_message = mtx_room_message
from_room_event_type text_message = mtx_room_message
from_room_event_type video_message = mtx_room_message
from_room_event_type redacted = mtx_room_message
from_room_event_type unknown_message = mtx_room_message
from_room_event_type key_verification_request = mtx_room_message
from_room_event_type key_verification_start = mtx_room_message
from_room_event_type key_verification_mac = mtx_room_message
from_room_event_type key_verification_accept = mtx_room_message
from_room_event_type key_verification_cancel = mtx_room_message
from_room_event_type key_verification_key = mtx_room_message
from_room_event_type key_verification_done = mtx_room_message
from_room_event_type key_verification_ready = mtx_room_message
from_room_event_type image_pack_in_room = mtx_image_pack_in_room
from_room_event_type image_pack_in_account_data = mtx_image_pack_in_account_data
from_room_event_type image_pack_rooms = mtx_image_pack_rooms
from_room_event_type policy_rule_user = mtx_policy_rule_user
from_room_event_type policy_rule_room = mtx_policy_rule_room
from_room_event_type policy_rule_server = mtx_policy_rule_server
from_room_event_type space_parent = mtx_space_parent
from_room_event_type space_child = mtx_space_child
