-- ===== src/Lib.antt =====
-- ai-gateway-epp: an endpoint picker that serves many clusters ("pools") in one process. A model of
-- its control plane and its request path.
--
-- The program. Two polling loops fetch versioned snapshots from the InnerAPI or from local files. The
-- discovery loop turns the cluster table into endpoints and puts them into a hub; in every cell a
-- discovery plugin follows the hub and keeps the datastore of its cluster. The epp_data loop resolves
-- the roles of this instance and drives the cell manager: cells are created, promoted, demoted and
-- dropped, and configs are compiled to engines that replace each other while requests run. The
-- demultiplexer routes a request to the engine of its pool's cell. A health service reports readiness
-- once the first snapshot is applied and all cells are ready.
--
-- The files.
--   Base          shared names: tests, strings as byte lists, maps as association lists, lists
--   Cell          pkg/cell. Model: cells and engines as numbers on a heap (World), with the registry,
--                 the drain queue, the drains under way and the readiness goroutines. Manager: Get,
--                 Ensure, Promote, Demote, Drop, start, drain, scheduleDrain. Apply: ApplyConfig,
--                 Track. Compile: Compile and HashConfig. Setup: NewManager. Events: everything that
--                 may happen, one step at a time, in any order. Race: several calls of Ensure at
--                 once. Atomics: the loads and stores of Promote and markReady. WaitReady. Inflight:
--                 the requests in flight. Pending to Awaited: the goroutines that wait for a
--                 discovery plugin. Gauges, Versions: the series of metrics.go. Moves to Kept: the
--                 elementary changes that every event is made of, by which a property of the manager
--                 is carried over all events
--   Demux         pkg/demux. Server: Process, extractPool, toStatus, Route. Streams: bufferedStream
--   ClusterTable  pkg/eppplugin/clustertable. Hub: ReplaceAll, Snapshot and the steps of WaitChange.
--                 Discovery: apply and Start. Plugin: NewFactory, TypedName and the Ready channel
--   Poller        pkg/poller. Loop: Start and the back-off. Table, Address: the cluster table.
--                 Assignment, Watcher: the epp_data watcher. Sources: the Fetch of each source.
--                 Runs: Handle as events of the manager
--   InnerApi      pkg/innerapi. Client: Get and the URL of a request
--   Cmd           cmd/epp. Config: parseConfig. Health: the health service and the readiness gate of
--                 run. Compose: serverOptions and the parts that run puts together. Launch:
--                 what run does before it waits. Shutdown: serveGRPC, the ends of the goroutines and
--                 the return of run. Serving: from a snapshot to the engine that a request gets.
--                 Plugins: registerPlugins
--   Examples      the theorems at concrete inputs
-- The other modules under Cell, Demux, ClusterTable, Poller, InnerApi hold the proofs; each is named
-- for what it is about.
--
-- How the code is read. A pointer is a number, so a dropped cell and a later one under its key
-- differ. A Go map is an association list; its order stands for the order of iteration, and a
-- theorem about every list holds for every order. An int that may be negative is a sign and a size;
-- the hub's uint64 wraps at 2 ^ 64; durations are nanoseconds. A goroutine is a list of the things
-- that it still waits for, and what others do while a call waits is a parameter or a list of events.
-- A call of the manager is one step: the events come in any order, but not in the middle of a call,
-- except for the calls of Ensure in Cell.Race and for Promote and markReady in Cell.Atomics, whose
-- steps a schedule interleaves; Cell.Promoted says what of the agreement of role and state is left
-- then. The drain timeout is the event that ends a wait whatever the counts are. A drain in the
-- goroutine of its caller, when the queue is full, cancels the engine and ends within the step of
-- the caller: its wait for the requests is not a step. A drain worker is one of the places for
-- drains under way. A counter of the metrics is the list of its increments, and a gauge with labels
-- the list of the series that are 1; they are part of the manager's world. The only fuel is the
-- number of digits of a decimal text, which is one more than the number.
--
-- Parameters. llm-d-router, net/http, encoding/json, the UUID generator, sha256, the file system, the
-- flag parser, the error group of golang.org/x/sync and the polling of k8s.io/apimachinery are
-- arguments of the definitions that use them, with what is relied on as hypotheses: that a header
-- that is appended is read back, that the equality of endpoints is equality, and what the
-- documentation of the last two says. A compile function is any; where a theorem needs that its
-- engines are idle or have the hash of their config as version, it says so, and Cell.Defaults shows it
-- of the one that NewManager takes.
--
-- Not modelled: the stop of the drain workers when the context of the manager ends, log lines, the
-- histogram of drain times, the time stamp of the last sync, the gRPC and HTTP servers themselves
-- and the set-up of signals and loggers in cmd/epp, the objects that Compile only hands to
-- llm-d-router, and the fixtures under test.
pub mod Base
pub mod Cell
pub mod Demux
pub mod ClusterTable
pub mod InnerApi
pub mod Poller
pub mod Cmd
pub mod Examples
