-- ===== src/Lib.antt =====
-- A model of uni-chat-sdk, the part that the chat engines, their router and its daemon share.
--
-- Parts and how they interact. A daemon or an engine takes one request at a time from a connection or
-- a pipe (Protocol), asks its handler, and writes one response. The router spawns an engine for a call
-- and reads one response from its output. An engine keeps a state file (State), which one call loads,
-- changes and writes back: the check cursors of its channels, an index of activity, and a projection
-- with at most one open request per channel. Capability reports what an engine can do.
--
-- Prelude: byte strings, Go maps, times, integers and comparisons, as Go has them.
-- Json: encoding/json between JSON values and Go's types: the repair and folding of texts, codecs of
--   the types that the messages use, and structs as lists of fields with their tags.
-- Protocol.Types: the messages of pkg/protocol/protocol.go.
-- Protocol.Buffer: boundedBuffer, sanitizeStderrTail and sanitizeControlBytes.
-- Protocol.Listen: Listen, as the calls that make the socket and its directory private.
-- Protocol.Serve: ServeContext. The state has the semaphore, the map of active connections, the wait
--   group and the goroutines with how far each is through its deferred calls; Step is one step of the
--   loop, of a goroutine or of the closing of the listener, so a Run is one interleaving.
-- Protocol.Intake: decodeBoundedRequest, hasNonWhitespace and rejectSocketTrailingData.
-- Protocol.Answer: OK, Fail, callHandlerContext, ServeStdioContext, serveConn, writeBusyResponse and
--   serveConnectionTimeoutFor. A connection's history is the list of what is done to it.
-- Protocol.Engine: CallStdio, and runBoundedCommand of pkg/protocol/process_unix.go and of
--   pkg/protocol/process_other.go.
-- Protocol.Wire, Protocol.Deletion: the JSON codecs of HistoryArgs, SearchArgs, DeletePreviewArgs and
--   DeleteBatchArgs, through their wire structs.
-- State.Defs, State.Order: the State struct of state/state.go and compareItems.
-- State.Pending: ApplyPending. State.Merge: MergePending. State.Cursor: RecordCursor and AdvanceCursor.
--   State.Activity: RecordActivity. State.Load: LoadState. State.File: writeJSON. State.Store: SaveState and
--   LoadState on one disk. State.Tags: the JSON tags of State. State.Config: LoadConfig and SaveConfig.
--   State.Lock: LockContext, Lock and, as a step relation, several processes that use
--   one lock. State.Pending.Latest says what a channel's entry is after any posts; State.Merge.Entries
--   relates it to checks, State.Pending.AnyOrder to the order of the posts.
-- Protocol.Messages: the plain structs of pkg/protocol/protocol.go, each with the keys of its tags; one
--   that is named X in the source is the record X with the tags x_struct. Catalogue has them together.
-- Protocol.Client: Call, its meeting with serveConn, and the meeting of CallStdio with ServeStdio.
-- Protocol.Paths: Dir, SocketPath, EnginesPath and EngineDir.
-- Protocol.Payload: GetPostArgs.Validate, DeleteJobState.Valid and UnmarshalJSONObject.
-- Capability: pkg/capability/capability.go.
-- Keychain: keychain/keychain.go, and keychain/keychain_darwin.go over the Security framework,
--   keychain/keychain_unsupported.go, keychain/test_shim_stub.go and, as Keychain.TestShim,
--   keychain/test_shim.go over one file.
--
-- A Go map is `nil`, which a write makes panic, or a table; an operation that may panic returns an
-- Option, and `none` is the panic. A string is the list of its bytes. A uint64 wraps. A loop is a
-- recursion on the list that it ranges over, so no fuel is needed; the polling loop of LockContext is a
-- recursion on the turns that it is given.
--
-- What is no code of the repository is a parameter: the texts of JSON, as a decoder that says how far it
-- has read or as codecs, with what is documented of them in Protocol.Client.Codec; the text form of
-- times in Prelude.Time.IsRfc3339; the operating system, as what each of its calls comes to. What
-- encoding/json does between a JSON value and a Go value is modelled, for integers, and for objects in
-- which no two keys match the same field. A slice that is empty but not nil is not told from nil.
--
-- Not modelled: Serve, ServeStdio and WithContext, which only pass on; the interface CapabilityProvider,
-- which has no code. Locations of times are not modelled: a time is an
-- instant. The order in which a map is ranged over plays no role in what is modelled.
pub mod Prelude
pub mod Json
pub mod Protocol
pub mod State
pub mod Capability
pub mod Keychain
