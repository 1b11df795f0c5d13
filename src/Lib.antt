-- ===== src/Lib.antt =====
-- zchat: a WhatsApp client of two processes. The daemon (apps/daemon) holds the WhatsApp session
-- (apps/daemon/wa), stores chats and messages in SQLite (apps/daemon/store) and serves desktop
-- clients over gRPC (apps/daemon/service); the desktop client (apps/desktop) shows them with GTK.
-- Session and service write through the store, and what they change they publish through the
-- broker to every connected client.
--
-- Files and code:
--   Store: apps/daemon/store/store.go. Db holds the four tables as lists of rows and the
--     connection, on which the driver may refuse any statement (`faults`): exec and query stand
--     for ExecContext and QueryContext, transaction for BeginTx with its Commit and deferred
--     Rollback. Chats, ChatQueries, Messages, MessageQueries and Meta have one function per
--     method of Store, with the method's name; `*_rows` is the effect of its SQL statement on the
--     tables. Like is SQLite's LIKE and escapeLike. Calls joins all writing methods in one type.
--     The other modules prove.
--   Wa.Sync: apps/daemon/wa/sync.go. World is the syncTracker with the store and the events it
--     has published; each callback is one critical section of its mutex, finish has two.
--   Wa.Session, Wa.Actions, Wa.Receipts, Wa.MarkRead: handlers of apps/daemon/wa/session.go and
--     actions.go, on a Session of the store's connection, the published events, the name cache and
--     the requests to the whatsmeow client, any of which it may refuse. A stored row stands for the
--     protocol message that is made of it. session_delete is Session.DeleteMessage.
--   Wa.Connection: the connection's state and the pairing codes of session.go; Connection.Attached is
--     what a client of StreamEvents knows of them.
--   Wa.Whatsmeow: what the session uses of the whatsmeow library and of protobuf's codec, as one
--     record that every later module takes as a parameter: JIDs and their parts, what the
--     device store answers on contacts, groups and other JIDs, errors included, marshal and
--     unmarshal. Wa.Demo is an instance for the tests.
--   Wa.Content: the WhatsApp message, as far as it is read or written, with extractMedia,
--     mediaPreview, extractText and messageContext; Content.Upload is uploadPayload of send_media.go.
--   Wa.Lookup, Wa.Rows, Wa.Reply: session.go, the names and canonical JIDs of contacts and chats,
--     messages that arrive (onMessage, persistMessage, messageRow, quotedFrom), and quotations in
--     replies (buildReply, replyContext, quotedPayload).
--   Wa.Send: SendText, RetryText, RetryMedia and finishSend of session.go; Send.Files is SendMedia of
--     send_media.go, Send.Forward is ForwardMessage and ReactMessage of actions.go. The new message's
--     id, the time, the server's answer, the file and the upload's answer are arguments. Send.Fitting
--     says what each operation has to record and send.
--   Wa.History, Wa.Reconcile, Wa.Download, Wa.Contacts: processHistorySync of history.go,
--     reconcileChats of session.go, DownloadMedia of media.go, GetContacts and StartChat.
--   Wa.Quiet and Wa.Upholds: rules for handlers that publish nothing, and for handlers that leave
--     consistent tables.
--   Wa.Proto: toProtoMessage of session.go; its result is the Message of zchat.proto.
--   Wa.Presence, Wa.Names: presence.go and names.go of apps/daemon/wa. A Go map whose missing
--     keys read as a zero value is a function.
--   Service.Broker: apps/daemon/service/broker.go. Broker has the map of subscriptions and the
--     channels made so far; `none` is a panic of the Go runtime.
--   Service.Reads, Service.Writes: the handlers of apps/daemon/service/service.go, `serve_` before
--     the method's name, which answer with a response or a gRPC code. Service.Daemon joins them with
--     SetPresence, Logout, the events of handleEvent that change the session, the pairing codes, the
--     starts and the timers of the full sync into one type of inputs, on a Daemon of the session, its
--     Wa.Connection.Link and its Wa.Presence.Line. Each input is handled to its end, and comes with
--     the library's answers of that time.
--   Desktop: apps/desktop. Media is previewSize and the kinds of media.go, Media.Size its
--     humanSize, Media.Label its formatDuration, fileSubtitle and downloadLabel, Chats is
--     upsertChat, removeChat and rebuildChatModel of window.go with the pointers to chats, Splice
--     is applyChatModel and spliceRange of window.go, Find is stepMatch and revealMatch of
--     find.go, Emoji is spliceRunes of emoji.go. Conversation is openChat, onMessage,
--     onMessageDeleted and loadOlderMessages of window.go, with scrollToMessage of find.go in Paging;
--     Screen is onConnectionState, onSyncState and showQR; Presence is presence.go.
--   Prelude: lists, native numbers and integers, results, tables by key, sorting.
--
-- Numbers: int64 and int32 values are integers without overflow where the code only compares and
-- copies them, and a mute's end in milliseconds too; the counts of SyncState wrap as int32(n)
-- does; a chat row whose unread counter does not fit int32 fails its scan. The progress fraction
-- is counted in units of 1/800, in which all of its constants are whole. humanSize loops on fuel
-- 6, and an int64 takes at most 5 rounds (human_size-unit of Desktop.Media.Size covers each).
-- scrollToMessage recurses on its own budget. The conversions of wire integers to int64 and int32
-- are written out in Wa.Content.
--
-- Not modelled: opening and migrating the database; the queue of history
-- events; profile pictures; the presence of others; the service's GetProfilePicture, getters of
-- state and event stream; the client's calls and the daemon's start-up; GTK widgets; the generated
-- protocol code. whatsmeow, SQLite's driver, the file system and GTK are third-party code: SQL
-- statements are modelled by what their text says, and refusals of the driver are arbitrary.
-- Handlers that Go runs side by side interleave at the statements of the store; they are modelled
-- one after the other.
pub mod Desktop
pub mod Prelude
pub mod Service
pub mod Store
pub mod Wa
