-- ===== src/Lib.antt =====
-- A verification library for the Matrix client library (see README.md): models of its core, and what
-- they satisfy. Paths below are from the repository's root.
--
-- Base has what the other modules share: Boolean tests, lists over the native numbers, and
-- `std::map` as an association list in the order of its keys.
--
-- Verification models interactive device verification, src/encryption/DeviceVerificationFlow.{h,cpp}
-- and src/encryption/VerificationManager.{h,cpp}.
--   Message: the messages; Env: the cryptography, JSON and identity of other libraries, a parameter.
--   Flow: the object's fields, `setState`, `send` and `cancelVerification`. A field `log` holds the
--   calls that leave the object (messages, signals, the cache), the latest first.
--   Outgoing: the methods that send, `acceptDevice`, `next`. Incoming: the slots that the
--   constructor connects. Mac: the MAC message and the signature upload. Machine: the constructors,
--   the events, and runs over lists of events. Manager: VerificationManager, whose list of flows has
--   a number for each object.
--   Same, Confirmed, Once, Glare, InRange, Exchange, Strings, Endings, KnownKeys, RightMacs and
--   Registered hold the theorems.
--   Not modelled: the queries' requests (their replies are events), logging, and user interface code
--   that a signal may call back.
--
-- Voip models calls, src/voip/CallManager.{h,cpp} and src/voip/WebRTCSession.{h,cpp}.
--   Session: the session's fields and `havePlugins`; GStreamer's and the device list's answers are a
--   parameter. Manager: CallManager's fields, `clear`, `endCall`, `hangUp`, and what the session's
--   signal `stateChanged` does in both objects, since Qt calls the slots at once, in the order of their
--   connection. Pipeline: offers, answers and candidates in the session. Calls: `sendInvite` and
--   `acceptInvite`. Events: the handlers of call events, the session's other signals, the timer, and
--   runs over lists of events. A field `log` holds the calls that leave both objects.
--   Outcome, Placing, Accepting, Delivery and Disturbance hold the theorems.
--   Not modelled: the elements of the pipeline and GStreamer's callbacks (what they emit is an event),
--   pictures, windows and screens, devices, and the TURN servers' addresses and timer.
--
-- Utils models functions of src/Utils.cpp: FileSize (`humanReadableFileSize`), Emoji (`replaceEmoji`)
-- and Distance (`levenshtein_distance`), each with its theorems; EditScripts and LeastEdits have those on
-- the least number of edits.
--
-- Cache models the tables of one room's timeline in src/Cache.cpp and src/Cache_p.h.
--   Lmdb: what is used of LMDB, with its laws; a parameter, as are `isHiddenEvent` and the clearing of
--   a redacted event. ListTables keeps these laws with association lists, for the tests.
--   Room: the seven tables. Saving: `saveTimelineMessages` and `removePendingStatus`. Old:
--   `saveOldMessages`. Reading: `getTimelineRange`, `getTimelineIndex`, `getTimelineEventId`,
--   `getEventIndex`, `getArrivalIndex`, `getLastEventId`, `previousBatchToken`,
--   `lastInvisibleEventAfter`, `replaceEvent`, and the queue: `savePendingMessage`, `pendingEvents` and
--   `firstPendingMessage`. Coherence, Loaded, NewMessages, Added, Echoed, Saved and Forgotten hold the theorems.
--   Indices are `uint64_t`, and wrap around. Transactions succeed, tables can be opened, and an event
--   is the values that the accessors read of it. Not modelled: `clearTimeline`, room state, members,
--   receipts and media.
--
-- Crypto models what src/Cache.{h,cpp} and src/CacheCryptoStructs.h keep of users' keys and of room
-- sessions, and the use of it in src/encryption/Olm.{h,cpp}.
--   Keys: users' keys. DeviceList: `updateUserKeys` and `markUserKeysOutOfDate`. Status:
--   `verificationStatus` and the memory of its results. Marking: `markDeviceVerified`,
--   `markDeviceUnverified`, and what is dropped of this memory.
--   RoomMembers: `getMembersWithKeys`. RoomTrust: `roomVerificationStatus`.
--   Sessions: inbound sessions and their data, `create_inbound_megolm_session` and
--   `import_inbound_megolm_session`. Decrypting: `decryptEvent`. KeyRequests:
--   `handle_key_request_message`. Sharing: the loop of `encrypt_group_message` over members and holders
--   of the session; GroupEncryption: the rest of it, with `saveOutboundMegolmSession` and
--   `updateOutboundMegolmSession`; SendingKeys: which devices `send_encrypted_to_device_messages` sends
--   to, of its targets. Pinned, PinnedRuns, Admitted, Chain, FreshStatus, Replay, Replayed,
--   Forwarded, StillMembers, Targeted, SentTo, Recipients, Readers, KeptHolders,
--   OnlyVerified, TargetLists, KnownTargets and VerifiedReaders hold the theorems.
--   Verification of signatures, libolm's sessions, and the JSON of an index are parameters; what is
--   stored as JSON or pickled is stored as it is. Tables do not fail. Not modelled: the requests to the
--   server (an answer is an argument), the online backup, Olm sessions between devices, and secrets.
--
-- Timeline models a room's src/timeline/EventStore.{h,cpp} on top of the cache.
--   Store: the range of messages that is shown, its rows, `handleSync` up to its loop over the events,
--   `fetchMore` with the slot of its reply. Sync: this loop, without decryption and verification. Queue: `processPending`, `messageFailed`, `messageSent` and
--   `addPending`. Keys: `requestSession`, `receivedSessionKey` and `enableKeyRequests`. Edits: `edits`
--   and `get` of an id without decryption. Reactions: `reactions`. Types: the translations of event
--   types in src/timeline/Timeline.{h,cpp}. Rows, Ranges, Older, Synced, Sending, Throttled, OwnEdits, Grouped and
--   BackAgain hold the theorems. A field `log` holds the signals and requests, the latest first; Qt
--   calls `processPending` at once.
--   Not modelled: QCache, which only saves reading again, decryption, and the replies to requests of
--   single events.
--
-- Loops over lists and maps are structural recursion, so no function takes fuel; the loop of
-- `humanReadableFileSize` recurses on the turns that its own bound leaves.
pub mod Base
pub mod Verification
pub mod Voip
pub mod Utils
pub mod Cache
pub mod Timeline
pub mod Crypto
