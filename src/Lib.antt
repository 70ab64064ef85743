-- ===== src/Lib.antt =====
-- NotAHivemind, a cluster of job schedulers: the consensus engine, the schedulers, the cluster nodes that
-- run the jobs, and the packing queue.
--
-- A consensus node keeps its log on disk, answers vote and append requests, and stands for election. A
-- scheduler takes jobs from clients and peers, chooses a cluster for each, writes its choice to the
-- consensus log and sends the job there; a cluster node chooses among its jobs and runs them in
-- containers. Both choose with the packing queue. The parts and their files:
--
--   Base       lists, byte strings, maps and signed numbers that the rest shares.
--   Models     internal/models: the status of a job, and the payloads of the log.
--   Storage    internal/consensus/filesystem. Codec is interpreter.go (encodeLogEntry, decodeLogEntry,
--              readLogEntries), Compact its createSnapshot, Handler handler.go, Writer writer.go
--              (Append, TruncateLog), Reader reader.go (Entries, QueryEntries), Snapshot snapshot.go
--              (StoreSnapshot with rotateFile, SnapshotReader, InstallSnapshot) and Load entry.go
--              (LoadStorage). Valid, Truncation, Rotation, Install, Recovery and Queries are about them.
--   Raft       internal/consensus/state and internal/consensus/service. State is state.go, Vote and
--              Election are election.go (RequestVote; StartElection and sendVoteRequests), Append is
--              append.go (AppendEntries), Node the node's fields and helpers of add.go and
--              connections.go, Leader and Catchup add.go (AddLog; resolvePeerLag and
--              sendSnapshotToPeer), Heartbeat retention.go, Registry registry.go and Serve serve.go
--              (ClientAppend, GetData, InstallSnapshot). Voting, SingleVote, Campaign, Following,
--              Place, Replication, Delivery, Proposal, Commit, Transfer, Lagging and Serving are about
--              them;
--              Steps and Terms about the node as a state machine whose steps are its handlers, and
--              Leadership about the elections of a whole cluster in one term.
--   Arbiter    internal/arbiter/packer.go: the queue, its sort, and what a pop gives.
--   Cluster    internal/cluster. Jobs is scheduler/queue.go, the jobs of a cluster node on the packing
--              queue; Container is container/container.go and container_state.go with Health, Running
--              and WaitUntilReady of monitor.go; Pool is container/pool.go, Packing scheduler/packer.go
--              (PackNextJob, assignJob), Health scheduler/health.go and Service the package service
--              (AppendJob, ClusterStatus, MonitorConnection). Health has the tick of healthChecks too, of
--              cmd/cluster_node/main.go. Dispatch, Search, Assigning, Finishing, Readiness, Rebuilding,
--              Upkeep, Losses, Sweeping and Leaks are about them. Watching and Streaming are the result
--              files and the logs of a container in monitor.go, with Collecting about the first.
--   Files      internal/filehandler. File is file_handler.go, Group files_manager.go and Logger logger.go;
--              Lines, Logging, Draining and Losing are about them.
--   Scheduler  internal/scheduler. State is states/state.go, Retention its ClearCompletedJobs, Externs
--              and Peers are states/externs.go, Packer is packer/operations.go (processPendingJobs,
--              executeJobAssignment, Redistribute), Schedule a tick of packer/pack.go with
--              reallocateDeadClusterJobs of monitor.go, Handler service/coordinate/handler.go,
--              RaftClient service/consensus/client.go with commitPayload and the loops of monitor.go
--              that use it, Messages and Streams what a scheduler sends to its clusters and the log and
--              reads back (service/cluster, service/consensus/requests.go, requestClusterState), and
--              Coordinate what it sends to its peers (service/coordinate/requests.go, OpConn).
--              Lifecycle is the abstract view of the tables, a phase for each ID; Adding, Removing,
--              Issuing, Refinement and Runs relate the calls to it. Settling, Execution, Rounds, Choice,
--              Batch, Rolling, Stranding, Reallocation and Ticks are about the packer, Admission and Handover about
--              jobs between schedulers, Results about jobs that a cluster node has run, and Clearing,
--              Capacity, Wire and Faults about the rest.
--   Settings   the configuration. Loader is internal/environment/env_loader.go, Machine the packages
--              config of internal/cluster, internal/consensus and internal/scheduler, and Importing is
--              about the first.
--
-- A handler is a function from the node, or from the part that it changes, to the new one and the
-- answer; a node holds its state, its log handler, its peers and the commit index, and Raft calls
-- Storage as the handlers do. Terms, indices and sizes are natural numbers without wrap-around,
-- since the code only counts them up from 0; the fields of the log format have their widths.
-- Processors, memory and priorities are integers without wrap-around. Byte strings and texts are
-- lists of numbers. What the operating system or Docker may refuse is an argument (WriteFault,
-- TruncateFault, SnapshotFault, InstallFault, AppendIo; Creation, Removal, Inspection, FileIo;
-- SetUp, LineIo), as are the clock, random draws (Moment) and what sort.Slice makes of its argument.
-- A Go map is an association list; where Go ranges over one, in an order of its own, the model takes
-- the order of the list, and the theorems hold for each list. Decoding JSON is a parameter: `peek`,
-- `unmarshal`, `valid` or a Source. StoreSnapshot, StartElection and AddLog let go of their lock,
-- and are several steps; what comes of the peers in between is an argument. A turn of the catch-up
-- loop reads the node once, and a tick of healthChecks the clock.
--
-- A scheduler shares its jobs and clusters by pointers. There a job is an address with the fields that
-- nothing assigns, and the state has a cell for each address with the fields that are assigned; a
-- cluster is an address with a cell. The turns of processPendingJobs read a counter that the routines
-- they start write; what the i-th turn reads is the argument `seen`. A container is a value in the pool,
-- and an operation through its pointer looks it up by its ID.
--
-- Reading a log file runs on fuel: the length of the file, which is enough since every entry takes at
-- least one byte. Printing a number has 20 digits, which is enough for 64 bits. The waits of a cluster
-- node are lists of polls, and the search for a cluster has as many tries as there are clusters.
--
-- Not modelled: generated gRPC code and the connections of it, the start-up of the programs, the JSON
-- files of internal/filehandler, which only call the JSON package, the numbers of Usage, which are
-- floats, the routines that launch containers, and the tickers round the loops, whose bodies are
-- modelled. On a cluster node jobs are values, so that a pointer that the
-- pending and the active table share is not seen. In LoadStorage no file fails to open.
pub mod Base
pub mod Models
pub mod Arbiter
pub mod Cluster
pub mod Files
pub mod Raft
pub mod Scheduler
pub mod Settings
pub mod Storage
