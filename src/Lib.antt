-- ===== src/Lib.antt =====
-- HaloClu (StrixHaloClusterGLM) serves a GLM model on a pair of hosts: rank 0 is the local host, rank 1
-- a peer reached by ssh, and both ranks together run one inference. This library models the Go code
-- of internal/app that keeps this pair consistent.
--
-- Parts and files
--   Base             names shared by all: Boolean tests, Go's text functions (strings, path/filepath,
--                    fmt) on the texts the program uses them on, association lists for Go maps,
--                    results with an error text.
--   Cluster          internal/app/cluster_lease.go and internal/app/controller.go.
--     Owner, Lease   the owner file's records, and the shared compute receipt: readSharedCompute,
--                    writeSharedCompute, sharedFromGLM, sharedOff, sharedStartAllowed,
--                    sharedMatchesGLM.
--     Host           the controller's files as state (`Host`), and what is outside of them (`World`).
--     Units          unit, unitActive, verifyUnit, validUnits, inspectAll.
--     Stop           stopUnits and stop; Start: launch, waitHealth and start with its deferred
--                    cleanup; Verify: Verify and the checks of start on each host; Control: the
--                    public Stop, Start and Restart under their locks.
--     Samples, Tests a concrete pair of hosts, and runs on it.
--   Lifecycle        internal/app/lifecycle_native.go, the gateway's control over the pair.
--     Services       the local systemctl, the coordinator's HTTP service and /proc/meminfo.
--     Presence       parseSystemdShow, lifecycleUnitRunning, unitPresence, ds41State, pairState.
--     Memory         parseMeminfo and nodeMemory.
--     Survey         the loop of Snapshot over the two ranks.
--     Snapshot       the state of modelLifecycle, and Snapshot.
--     Operation      setTransient, setDetail, finishOperation, ready, and what StartAsync and
--                    StopAsync change before their goroutine runs; Single: these against the
--                    goroutines, as the relation `Move`.
--     Start, Stop    the goroutines start and stop.
--     Samples, Tests the hosts of Cluster/Samples with a coordinator, and runs on them.
--   Chat             what a chat request must be before a rank is asked.
--     Request        stringValue, object and array on decoded JSON, functionName.
--     Envelope       validateToolEnvelope of internal/app/tools.go.
--     Validation     validateChatWithReasoning of internal/app/validation.go; Expected: what it asks of
--                    a request, written out.
--     Limits         the limits of the configuration, and the profile of a request
--                    (internal/app/agent.go).
--     Budget         prepareChat, wholeNumber and admitChat of internal/app/options.go.
--     Parts          normalizeToolText.
--     Text, Calls    glmArgument, typedToolValue and parseGLMToolOutput.
--     Samples, Tests a request, a codec and a configuration, and runs on them.
--   Settings         internal/app/settings.go: the switches of the public API and the token, each with
--                    its file; Tests: a gateway and runs on it.
--   Json             decoded JSON values and reflect.DeepEqual on them.
--   Paired           internal/app/paired.go, and serveNativePairUntil of internal/app/cli_extra.go.
--     Payload        pairedObject, pairedIndex, pairedChoices, pairedJSONOutput.
--     Frames,        sseFrameData, terminalMetrics, mergeMetricMaps, mergePairedTimingMetrics,
--     Metrics        mergePairedSSETerminalMetrics, pairedFloat.
--     Stream         pairedStream: appendGenerated, feed and finish; `feed_all` feeds the events that
--                    the loop of drain reads.
--     Job            the backend's state, admit, stopAdmission, fail, and the goroutine of a job
--                    (pairedJob.run) as the relation `Work` between its stages.
--     Steps          the backend among requests, jobs, a shutdown and the other processes that take
--                    pair.lock, as the relation `Step`.
--     Tests          a job from its admission to its answer.
--   Trace, Receipts and Writes of Cluster and the child modules of Lease, Units, Stop and Start, and
--   those of Cluster/Control, Lifecycle/*, Chat/*, Settings, Paired/Metrics, Paired/Stream and
--   Paired/Steps, hold lemmas and theorems about the
--   modules that they stand beside or under.
--
-- How state and operations correspond to the code
--   A method of ClusterController is a computation `M A`: a function from a `Host` to a result and a
--   `Host`. The owner file, the shared receipt and the poison marker are fields of the host. systemd,
--   ssh, the clock, the random source, the file locks and the outcome of a file write are a `World`: a
--   record of functions of everything that was done so far (`history`). A theorem about every
--   `World` holds for every behaviour of these services, failures in the middle included. A file
--   write can fail before or after its rename.
--   The goroutines of stopUnits are workers that step in the order that the world's schedule gives,
--   and run to their end behind it; so each interleaving of their commands is a schedule.
--   The two health probes of waitHealth are taken in one order, since each only asks for a status.
--   Errors are texts, the message of the Go error; a joined error joins the texts.
--
--   A method of modelLifecycle is a computation on the same `Host`; its own fields are a `Lifecycle`
--   that goes in and comes out. A failure of start or stop finishes the operation and returns, so
--   each part of these takes what follows it as an argument (`or_finish`). The rounds in which the
--   coordinator is polled before its deadline are `polls` of the services.
--
--   The paired backend is a record `Backend` with the list of its jobs. A step is one section under
--   the backend's mutex with what the goroutine does on its own before the next one; the results of
--   the ranks, the deadline, a slow client and the outcome of each call on the state directory are
--   arguments of the steps. encoding/json, strconv and floats are a `Codec`, a parameter.
--   That an error text of the os package is not empty is a condition of the step that meets one.
--
--   A chat request is the map of its decoded JSON. A number is its text, and the float64 of a text, the
--   decoding of a text and the length of an encoding are a `Wire`, a parameter.
--
-- Bounds and fuel
--   waitHealth polls until its context is done: the first round always runs, the world says how many
--   can follow it, and each theorem is about any number. Each loop over units, lines or paths is recursion on the list.
--   Go's int is ℤ: ranks, ports and sizes stay far from the bounds of the 64-bit integers.
--   The loops of parseGLMToolOutput run on fuel, one more than the text has code points: each round
--   takes a tag away, and a theorem says that the fuel does not run out.
--   parse_saturated ends at the two bounds of int64, as strconv.ParseInt does.
--
-- Not modelled
--   The HTTP handler of the paired backend, and how drain reads a response: a rank's result is an
--   argument of the step that receives it. JSON: the owner file and the receipt hold the records that
--   were encoded into them, whose texts are code points, which the encoding keeps; the syntax of URLs; the checks of a
--   configuration by NewClusterController and NewPairedBackend;
--   Status, which changes nothing; the snapshot and restore of the legacy services; and the other
--   parts of internal/app: the scripts of lifecycle.go, the conversations, downloads, workspaces, agent and the HTTP
--   gateway, whose handlers call what is modelled here. The quoting of a remote command for ssh
--   and the HTTP exchange of controllerHealth are part of the world.
--   Other writers of the owner file and the receipt: the gateway's start publishes READY behind the
--   controller's locks, and no other process is taken to write these files in between.
pub mod Base
pub mod Chat
pub mod Cluster
pub mod Json
pub mod Lifecycle
pub mod Paired
pub mod Settings
