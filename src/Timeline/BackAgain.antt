-- ===== src/Timeline/BackAgain.antt =====
-- What the two translations of event types keep.
use nheko_library.Base.{◌≡◌, refl, Bool, true, false, if◌then◌else◌}
use nheko_library.Timeline.Types.{
  MatrixType, RoomEventType, to_room_event_type, from_room_event_type, another_type,
  mtx_room_key_request, mtx_reaction, mtx_room_aliases, mtx_room_avatar, mtx_room_canonical_alias,
  mtx_room_create, mtx_room_encrypted, mtx_room_encryption, mtx_room_guest_access,
  mtx_room_history_visibility, mtx_room_join_rules, mtx_room_member, mtx_room_message,
  mtx_room_name, mtx_room_power_levels, mtx_room_topic, mtx_room_tombstone, mtx_room_redaction,
  mtx_room_pinned_events, mtx_sticker, mtx_tag, mtx_policy_rule_user, mtx_policy_rule_room,
  mtx_policy_rule_server, mtx_space_parent, mtx_space_child, mtx_image_pack_in_room,
  mtx_image_pack_in_account_data, mtx_image_pack_rooms, mtx_unsupported, mtx_call_invite,
  mtx_call_answer, mtx_call_hang_up, mtx_call_candidates, mtx_widget, unsupported, key_request,
  reaction, aliases, avatar, call_invite, call_answer, call_hang_up, call_candidates,
  canonical_alias, room_create, encrypted, encryption, room_guest_access, room_history_visibility,
  room_join_rules, member, name, power_levels, tombstone, topic, redaction, pinned_events, sticker,
  tag, widget, audio_message, emote_message, file_message, image_message, location_message,
  notice_message, text_message, video_message, redacted, unknown_message, key_verification_request,
  key_verification_start, key_verification_mac, key_verification_accept, key_verification_cancel,
  key_verification_key, key_verification_done, key_verification_ready, image_pack_in_room,
  image_pack_in_account_data, image_pack_rooms, policy_rule_user, policy_rule_room,
  policy_rule_server, space_parent, space_child,
}

-- The types that the view has, but that `toRoomEventType` does not name.
abbrev pub is_lost : MatrixType → Bool
is_lost mtx_call_invite = true
is_lost mtx_call_answer = true
is_lost mtx_call_hang_up = true
is_lost mtx_call_candidates = true
is_lost mtx_widget = true
is_lost (another_type n) = true
is_lost _ = false

abbrev pub is_message : RoomEventType → Bool
is_message call_invite = true
is_message call_answer = true
is_message call_hang_up = true
is_message call_candidates = true
is_message widget = true
is_message audio_message = true
is_message emote_message = true
is_message file_message = true
is_message image_message = true
is_message location_message = true
is_message notice_message = true
is_message text_message = true
is_message video_message = true
is_message redacted = true
is_message key_verification_request = true
is_message key_verification_start = true
is_message key_verification_mac = true
is_message key_verification_accept = true
is_message key_verification_cancel = true
is_message key_verification_key = true
is_message key_verification_done = true
is_message key_verification_ready = true
is_message _ = false

from-to :
    (e : MatrixType)
    → from_room_event_type (to_room_event_type e) ≡ (if is_lost e then mtx_room_message else e)
unfolding from_room_event_type to_room_event_type
from-to mtx_room_key_request = refl
from-to mtx_reaction = refl
from-to mtx_room_aliases = refl
from-to mtx_room_avatar = refl
from-to mtx_room_canonical_alias = refl
from-to mtx_room_create = refl
from-to mtx_room_encrypted = refl
from-to mtx_room_encryption = refl
from-to mtx_room_guest_access = refl
from-to mtx_room_history_visibility = refl
from-to mtx_room_join_rules = refl
from-to mtx_room_member = refl
from-to mtx_room_message = refl
from-to mtx_room_name = refl
from-to mtx_room_power_levels = refl
from-to mtx_room_topic = refl
from-to mtx_room_tombstone = refl
from-to mtx_room_redaction = refl
from-to mtx_room_pinned_events = refl
from-to mtx_sticker = refl
from-to mtx_tag = refl
from-to mtx_policy_rule_user = refl
from-to mtx_policy_rule_room = refl
from-to mtx_policy_rule_server = refl
from-to mtx_space_parent = refl
from-to mtx_space_child = refl
from-to mtx_image_pack_in_room = refl
from-to mtx_image_pack_in_account_data = refl
from-to mtx_image_pack_rooms = refl
from-to mtx_unsupported = refl
from-to mtx_call_invite = refl
from-to mtx_call_answer = refl
from-to mtx_call_hang_up = refl
from-to mtx_call_candidates = refl
from-to mtx_widget = refl
from-to (another_type n) = refl

to-from :
    (t : RoomEventType)
    → to_room_event_type (from_room_event_type t) ≡ (if is_message t then unknown_message else t)
unfolding from_room_event_type to_room_event_type
to-from unsupported = refl
to-from key_request = refl
to-from reaction = refl
to-from aliases = refl
to-from avatar = refl
to-from call_invite = refl
to-from call_answer = refl
to-from call_hang_up = refl
to-from call_candidates = refl
to-from canonical_alias = refl
to-from room_create = refl
to-from encrypted = refl
to-from encryption = refl
to-from room_guest_access = refl
to-from room_history_visibility = refl
to-from room_join_rules = refl
to-from member = refl
to-from name = refl
to-from power_levels = refl
to-from tombstone = refl
to-from topic = refl
to-from redaction = refl
to-from pinned_events = refl
to-from sticker = refl
to-from tag = refl
to-from widget = refl
to-from audio_message = refl
to-from emote_message = refl
to-from file_message = refl
to-from image_message = refl
to-from location_message = refl
to-from notice_message = refl
to-from text_message = refl
to-from video_message = refl
to-from redacted = refl
to-from unknown_message = refl
to-from key_verification_request = refl
to-from key_verification_start = refl
to-from key_verification_mac = refl
to-from key_verification_accept = refl
to-from key_verification_cancel = refl
to-from key_verification_key = refl
to-from key_verification_done = refl
to-from key_verification_ready = refl
to-from image_pack_in_room = refl
to-from image_pack_in_account_data = refl
to-from image_pack_rooms = refl
to-from policy_rule_user = refl
to-from policy_rule_room = refl
to-from policy_rule_server = refl
to-from space_parent = refl
to-from space_child = refl

-- A type of the Matrix library comes back from the view's, but for the types of calls, widgets and those
-- that this code does not name: they come back as that of a room's message. A type of the view comes back
-- too, but for calls, widgets and the kinds of messages, which come back as an unknown message.
pub types_come_back :
    (e : MatrixType) (t : RoomEventType)
    → (from_room_event_type (to_room_event_type e) ≡ (if is_lost e then mtx_room_message else e))
      × (to_room_event_type (from_room_event_type t)
          ≡ (if is_message t then unknown_message else t))
types_come_back e t = (from-to e, to-from t)
