-- ===== src/Lib.antt =====
-- MultiCoder: a supervisor with an HTTP interface, and workers that encode one audio source each to
-- Icecast (AAC, MP3), HLS and SRT, with SCTE cues. This library models the logic of the worker and
-- the requests of the supervisor; paths below are from the repository's root.
--
-- The parts and their files:
--   Prelude (with Prelude/*): the names that the other files share, numbers, lists, texts, maps.
--   Bits: masks and shifts of numbers, for addresses.
--   Strings (Strings/*, of which Lines is what `std::getline`, `std::string::find` and `>>` do):
--     `trimCopy`, `lowerCopy`, `splitLines`, `clampInt` of src/worker/worker.cpp, `trim` of
--     src/common/SimpleJson.cpp, and the number conversions of the standard library that the code
--     calls.
--   Json (Json/*): the flat object of src/common/SimpleJson.cpp, in which every configuration and
--     runtime file is kept. `std::map` is a list in the order of its keys.
--   Xml (Xml/Entities): fields and entities of XML (src/worker/worker.cpp), and the escaping of
--     src/supervisor/supervisor_api.cpp.
--   Net (Net/Cidr): `ipInCidr` and the allowlists of both programs.
--   Livewire (Livewire/*): src/livewire/LivewireMapping.cpp.
--   Cue (Cue/*): the TCP cue listener of src/worker/worker.cpp (`listenCueTcpPort`): Framing is
--     `parseFramedMessages` and the receive loop, Rows the configured commands, Gate the rate limit
--     and replay protection under `s_cueMutex`, Handler `processCueMessage`, Client a connection.
--   Scte (Scte/*): the range of a break in the HLS playlist: `persistHlsScteRangeState`,
--     `readHlsScteRangeState`, and in DateRange `buildHlsScteDateRangeLine` and
--     `injectHlsScteDateRange`.
--   Dispatch (Dispatch/*): the queue between the worker's threads: `enqueueAsyncTask`,
--     `dispatchAsyncEvents`.
--   Streams (Streams/*): the streams' starts, stops, polls, published health and destructor;
--     Streams/Commands and Streams/Outputs are the FFmpeg command lines, Streams/Sidecar is
--     `emitScteSidecarEvent`, Streams/Control is `executeControlCommand`, which joins the streams,
--     the range, the sidecar and the queue.
--   Icecast (Icecast/*): `sendIcecastMetaUpdate` of src/worker/worker.cpp up to the request that is
--     sent: its base64 loop (Base64) and its percent encoding (Percent).
--   Playlist (Playlist/*): `injectHlsMetadataIntoPlaylist` of src/worker/worker.cpp: Sanitize is
--     what a title may hold, Future the lines that it goes to.
--   Formatting (Formatting/*): what a stream says of a metadata payload (src/worker/worker.cpp):
--     the blocks, fields and `applyMetaTemplate`, with Ext the profiles of the `ext` method, Hls
--     `hlsMetadataByParser` and Stream `formattedMetadataForStream`. Template is what a template
--     becomes, Blocks that the loop over the blocks ends.
--   Listener (Listener/Socket): `listenMetaPort` of src/worker/worker.cpp: `emitMetadata`, the
--     settings that end a connection, and the loop over a connection, by the rounds of `select`
--     (Socket/Payloads is about its bytes).
--   Playback (Playback/*): `serveHlsHttp` of src/worker/worker.cpp: a request's file and the
--     response (Serve), the playlist as it is sent (Enrich), and its dates with `isoToUtcZ`
--     (Dates).
--   Rtp (Rtp/Bounds): the packets of the RTP input, `parseRtpStereoLevels` and its fallback.
--   Supervisor (Supervisor/*): src/supervisor/supervisor_api.cpp. Http is a request's parts and
--     `httpResp`, Host the globals and the files, Text what responses are put together from, Router
--     `handleReq` with the branch of
--     every route (System, Pages, Encoder). Input (Routes, Status) is connecting, the gain
--     and the levels; Metadata and TestCommand the metadata listener's routes; Cues the reading of
--     a cue and CueRoute (Handle) its route; Encoders (Commands) the stream commands and the
--     launch of a worker; Admin (Files) the login, the configuration and the logs; Diagnostics (Reasons, Run) the network
--     diagnosis; Hls (Serve) the playlists and segments; Targets (Sound) `parseTargetHostPort`.
--     CueRoute/Sends, Safe, States, History and Race, Hls/Names and Encoders/Bounds are what is
--     proved of them.
--   Tests (Tests/*): runs on concrete inputs.
--
-- How they interact: a payload of Listener goes through Formatting to Playlist and Dispatch. A cue
-- passes Cue.Framing and Cue.Handler and becomes a command of Streams.Control; a command of a
-- stream changes Streams, an SCTE action changes Scte and offers a task to Dispatch through
-- Streams.Sidecar. A request of Supervisor.Router reads and writes the files and sends commands to
-- a worker, which is an argument there. Files are Json objects; that a file that is written is read
-- back is the theorem on `parse` and `serialize`.
--
-- How state is modelled: an operation takes the state to the next one. What it does to the outside
-- (processes, posts, log lines of the queue) is a list of effects in the state. An operation that
-- holds a mutex is one step, and a run of the threads is a list of steps. The poll of the processes
-- is one step too, although the code does not hold `m_streamMutex` in it. The clock, the process
-- that a launch yields, what a post reports, `inet_pton` and the calendar are arguments. The
-- supervisor's `World` holds what a request meets: the worker, whose answer and whose writes to the
-- files may depend on all that was done before, the launch of a worker, whether a file can be
-- written, the log files, and the C library's reading and printing of a `double`. A gain and a
-- level are texts or whole numbers there, and the dates of the playlist whole milliseconds, where
-- the code has a `double`; the worker's durations are of a type that is an argument with its
-- operations (`Formatting.Ext.Doubles`). `atoi` out of the range of `int`, which C leaves
-- undefined, is 0. The code's branches for Linux are the ones modelled.
--
-- Bounds and fuel: numbers are native; 32-bit masks, `int` and `int64_t` have their ranges written
-- out. `parse` runs on the length of the text as fuel, and length-prefixed framing on the length of
-- the buffer, templates and blocks on the length of the text; all are proved to be enough
-- (Json/Total, Cue/Framing/Prefixed, Formatting/Template, Formatting/Blocks). The 40 retries after
-- the launch of a worker are a bound of the code itself. The other loops are recursion on their
-- text or list.
--
-- Not modelled: sockets, files and threads themselves, the levels and gains as numbers, which are
-- doubles, the operating system's audio devices, interfaces and ping, and log files. The two loops
-- that watch the segments and the gain are not modelled either.
pub mod Prelude
pub mod Bits
pub mod Strings
pub mod Json
pub mod Xml
pub mod Net
pub mod Livewire
pub mod Playlist
pub mod Formatting
pub mod Rtp
pub mod Icecast
pub mod Supervisor
pub mod Cue
pub mod Scte
pub mod Dispatch
pub mod Streams
pub mod Listener
pub mod Playback
pub mod Tests
