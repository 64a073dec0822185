-- ===== src/Lib.antt =====
-- Verification of evebox: the parts of the server and the agent that serve packet captures.
--
-- A browser asks the server for a capture. The server either reads its own spool directory (src/pcap)
-- or asks a connected agent for it: the registry of agents (src/server/agents.rs) finds the connection,
-- the request crosses the control channel as a message (src/agent/protocol.rs), the registry of tasks
-- (src/server/pcap/tasks.rs) ties the agent's upload and its terminal result to the waiting request,
-- and the outcome is classified against the bytes that were seen. At the other end the agent keeps the
-- connection, runs a worker for each request, and reports what became of it (src/agent/channel.rs).
--
-- Base              shared names: tests on numbers and texts, lists over the native numbers,
--                   association lists for maps, facts on bitwise operations
-- Pcap/Request      src/pcap/request.rs, and the selector of src/pcap/filter.rs
-- Pcap/File         src/pcap/writer.rs and the headers of src/util/pcap.rs; File/Stream describes what
--                   has been written
-- Pcap/Spool        the pruning of src/pcap/spool.rs
-- Pcap/Fetch        src/pcap/fetch.rs: gate, control and flusher; Fetch/Cursor the groups, Fetch/Merge
--                   the k-way merge, Fetch/Run the function `fetch`
-- Agent/Protocol    src/agent/protocol.rs: messages and conversions
-- Agent/Reconnect   src/agent/channel.rs: the pauses between connections
-- Agent/Channel     src/agent/channel.rs: the state of a connection and its jobs
-- Agent/Terminal, Agent/Worker
--                   `run_job` of src/agent/channel.rs: the worker of one capture, with its upload, and
--                   its terminal result
-- Agent/Writer      `ChannelWriter` of src/agent/channel.rs: from writes to chunks
-- Server/Job        one job of src/server/pcap/tasks.rs: `Task`, its channels and its `UploadSink`s
-- Server/Tasks      the registry of src/server/pcap/tasks.rs
-- Server/Outcome    `classify_result` of src/server/pcap/tasks.rs
-- Server/Upload     the upload request of src/server/api/agent.rs; Upload/Capture the whole way of a
--                   remote capture
-- Server/Download   a local extraction of src/server/api/pcap.rs: `ChannelWriter`, `run_extraction` and
--                   `finish_producer`
-- Server/Response   the response to it (`stream_local`, `empty_response`, `body_stream`)
-- Server/Sessions   the session store of src/server/session.rs
-- Server/AgentEntry, Server/Agents
--                   src/server/agents.rs: the shared entries, the registry, and in Agents/Routing
--                   which agents serve captures
--
-- State: what the Rust code shares by `Arc` stands in a heap, a list, and maps hold its addresses.
-- Each locked section is one step; a run is a list of calls in any order. `begin_upload` and
-- `deliver_result`, which let go of the registry's lock before they lock the task, are one step each.
-- Counters of 64 bits keep their wrap-around, but the packets and files that the statistics of a fetch
-- count are plain numbers. A text or a path is a String, a duration its number of nanoseconds.
--
-- Parameters: `Env` of Pcap/Fetch has what is not the program's: opening captures, compiling and
-- running filters (libpcap), the clock, the cancellation token and the consumer of the output, which
-- answer by the number of the call. `Spool` of Fetch/Run has the listing of a spool directory and the
-- text of a flow filter (src/pcap/spool.rs, src/pcap/filter.rs), which are not modelled.
--
-- `WriterEnv` of Agent/Writer has the channel, the clock and the token of an upload, and `ChannelEnv` of
-- Server/Download those of a local download, with the stall timeout that is configured; what the
-- extraction writes there and answers is an argument. The tasks around a worker of Agent/Worker, and what
-- comes in on a connection of Agent/Channel, are events in any order.
--
-- Fuel: the merge runs on fuel, `rounds`, one more than the number of packets in the files, since every
-- round takes a packet off. A push of Agent/Writer makes 3,001 attempts at most, which fill its minute
-- when every one that fails is followed by a sleep of 20 milliseconds; a write makes no more rounds than
-- it has bytes. A send of Server/Download makes two attempts more than there are sleeps in the stall
-- timeout. Everything else is structural recursion.
--
-- Not modelled: what a failed write has left in the consumer; waiting for channel capacity in the
-- server's registries; connecting and the frames of the WebSocket; the supervisor of a local download, the
-- arguments of the request, and the other HTTP handlers, the databases, the command line, the
-- importers and readers of events, and the web client.
pub mod Base
pub mod Pcap
pub mod Agent
pub mod Server
