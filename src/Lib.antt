-- ===== src/Lib.antt =====
-- Squelch, a server that receives radio calls from recorders and plays them to listeners: models
-- of parts of its Go backend (backend/internal) and theorems about them.
--
-- A sign-in is let in by the rate limiter and gives a device an access token, which the token
-- tracker can refuse, and a refresh token, a row of a table that each refresh replaces by a new
-- one of the same family, with the replay cache for a refresh that is sent twice. The middlewares
-- identify requests by the access token, and recorders by their API keys. A recorder uploads a
-- call, which is stored unless it is a duplicate and then told to the listeners, the downstreams
-- and the transcriber; a listener can share it by a link that anyone may open. What a listener
-- hears is what its grants allow. Calls and events reach WebSocket clients through the hub and the
-- audio itself through one continuous stream for each listener. The hub and the streams tell the
-- connection registry who is there; the admin ends connections through it and a history observes
-- it. The delivery tracker keeps how deliveries to other servers fare, and a ring the last
-- messages of each MQTT instance, and the monitor status what each folder monitor does.
--
-- - Auth (RateLimiter, ReplayCache, Grants, Tokens): auth/ratelimit.go with one function for each
--   method (TryBegin is try_begin, RecordFailure record_failure, End end_attempt, and so on),
--   handler/auth/replay_cache.go, auth/grants.go, handler/shared/grants.go and the TokenTracker of
--   auth/auth.go.
-- - RefreshTokens: the statements of db/refresh_tokens.sql.go over a list of rows.
-- - Sessions: PostLogin, PostRefresh, PostLogout and PutPassword of handler/auth/auth.go
--   (post_login, post_refresh and so on), SessionsRevoke and UsersSignout of admin/connections.go,
--   and the hourly purge of cmd/server/main.go. A request is one step at one instant that changes
--   the table, the tracker, the cache and the limiter; what it takes from outside, the tokens it
--   is given and whether each of its statements works, is an argument.
-- - Middleware (Checks, ApiKeys): middleware/auth.go, the three middlewares for access tokens and
--   RequireAdmin, and APIKeyAuth with the lookups of db/api_keys.sql.go and APIKeysRotate of
--   admin/api_keys.go. Parsing and verifying a token, hashing and the JSON of grants are
--   arguments.
-- - Calls (Limits, Fields, Duplicates, Resolve, Request, Messages, Upload): PostCallUpload of
--   handler/calls/upload.go (post_call_upload) with the helpers below it, the limiters of
--   handler/calls/calls.go, IsDuplicate of audio/duplicate.go, the lookups of
--   handler/shared/resolve.go and settings.go, and the statements that they run, over lists of
--   rows. An upload is one step: the limiter of its key (admit), the fields (read_required,
--   read_metadata), the system (resolve_system), the talkgroup (resolve_talkgroup), the duplicates
--   (rejects_duplicate), the row and those that are told of it (with_call, announce).
-- - Share, SharedLinks: handler/share/share.go without the serving of audio (PostShareCall is
--   post_share_call and so on), the statements of db/shared_links.sql.go, and the expiry that
--   admin/shared_links.go lists.
-- - Downstream: downstream/pusher.go, for one downstream: Notify is notify, a turn of runPusher
--   run_pusher and pushWithRetry push_with_retry, with what the remote answers as an argument.
-- - TgSelection: GetTGSelection and PutTGSelection of handler/auth/auth.go.
-- - IpBlock: ipblock/ipblock.go and ipblock/guard.go, over netip as a record of operations.
-- - Connections: connections/registry.go. A notice to the observer and the close functions to call
--   are results; a change callback is a flag. In a run (Runs) a notice is handed over at any time
--   after the step that released the lock.
-- - Delivery: delivery/tracker.go. The row that the persister writes (Durable) is a list of its
--   statements, each of which may fail, in the order of the deliveries.
-- - MonitorStatus: dirmonitor/status/status.go.
-- - TrMqtt (Ring): trmqtt/ringbuf.go.
-- - Stream (Frames, Listeners): stream/mp3.go, and of stream/manager.go the queues of the
--   listeners, the fan-out of a call, joining, leaving and disconnecting.
-- - Ws (Client, Hub): ws/hub.go and the parts of ws/client.go that it uses. A message that the Run
--   goroutine takes is one step, and so is what another goroutine does between two acquisitions of
--   the lock.
-- - Prelude: what the parts share, among it Go's maps (Dict), sort.Slice (Sort), windows of
--   stamped events (Window), subsequences (Subsequence), Go's integers (Int) and texts (Text).
-- - Examples: the theorems at concrete inputs.
--
-- State is a record, an operation a function from the old to the new, and the clock an argument.
-- Where goroutines interleave, a relation of steps gives every order in which they can act. Times
-- are numbers that are not negative, identifiers of rows are integers, and integers are not
-- bounded where counters count events and cannot reach the limit of 64 bits; the sums of Calls and
-- Share, of values that a request or a setting names, wrap around at 64 bits. A map is an
-- association list, in an order that the code cannot rely on. The loop of splitFrames has as many
-- rounds of fuel as bytes, which is enough since each round passes at least one; that of
-- pushWithRetry has the five rounds of the code. No other loop has fuel.
--
-- JSON, encoders of messages, FFmpeg, queries of other tables and minted identifiers are
-- parameters, as are the storing of audio files and the parsing of numbers and times. Two uploads
-- are taken one after the other, and so are two requests about sessions: what other requests do
-- between the statements of one upload or of one refresh is not modelled. Logging, the other HTTP
-- handlers, the pumps of the sockets, tickers and the remaining packages of the backend are not
-- modelled.
pub mod Prelude
pub mod Auth
pub mod Delivery
pub mod MonitorStatus
pub mod TrMqtt
mod Examples
pub mod Calls
pub mod Connections
pub mod SharedLinks
pub mod Share
pub mod Stream
pub mod Ws
pub mod RefreshTokens
pub mod Sessions
pub mod Middleware
pub mod Downstream
pub mod TgSelection
pub mod IpBlock
