-- ===== src/Lib.antt =====
-- A model of drover-runner, the host daemon that starts and stops guest VMs for tenants, and its
-- theorems. The daemon's REST server (pkg/daemon/server.go) keeps a table of running instances and
-- asks a hypervisor driver (pkg/daemon/driver.go) to launch them. The Firecracker driver uses the
-- network manager (pkg/network/network.go) for a bridge and a TAP device, copies the image to an
-- overlay disk, and drives a firecracker process over its socket (pkg/firecracker/orchestrator.go).
-- The QEMU driver runs `kraft` as a child (pkg/kraft/launcher.go). Stopping an instance ends the
-- process, shreds its overlay (pkg/storage/purge.go), prints an audit (pkg/storage/audit.go) and
-- gives the TAP device back. A client of the API is in pkg/runner/sandbox.go.
--
-- The files:
--   Base and below         lists, bytes, decimal numbers, splitting at a separator; no code of pkg/
--   Host                   the effects: calls of the operating system, errors, the log of calls
--   Host/Ledger            which devices, processes and files a log leaves behind
--   Host/Shrinks           combinators on operations that leave nothing new behind
--   Host/Grows             combinators on operations that keep or make what is held
--   Network                NetworkManager, GenerateMAC, the TAP names, mockNetworkManager
--   Network/Manager        NewManager
--   Network/Linux          linuxNetworkManager: SetupBridge, AllocateTAP, ReleaseTAP, deleteLink
--   Network/Names, Allocation, Plan, Subnet    theorems on these
--   Storage                ShredRecord, ShredFile, DestructionAudit, RegisterAudit
--   Storage/Zeroing, Shredding, Success, Handles, Frame    theorems on ShredFile
--   Firecracker            FirecrackerOrchestrator: StartProcess, Configure, ConfigureNetwork, StartVM,
--                          Stop, putJSON
--   Firecracker/Requests   which PUT requests it sends, and in which order
--   Firecracker/Process    which firecracker processes a log leaves behind
--   Kraft, Kraft/Launcher  Kraft, LaunchSlice, and Wait and Stop of a SliceInstance
--   Kraft/Launcher/Stop    theorems on Stop
--   Kraft/Exec, Kraft/Exec/Capture    CommandError, Run, RunCapture and the commands on them
--                          (pkg/kraft/exec.go)
--   Kraft/Kraftfile/Parse, Parse/Search    ParseKraftfile, its search for the file, Component
--   Kraft/Kraftfile, Kraft/Kraftfile/Targets   the targets of a Kraftfile: UnmarshalYAML, String,
--                          HasTarget (pkg/kraft/kraftfile.go)
--   Daemon/Types, Ids, Taps     the types of the daemon, instance ids, the TAP names of instances
--   Daemon/Config          Config, DefaultConfig (pkg/daemon/config.go)
--   Daemon/Telemetry, Telemetry/Reports    TelemetryCollector (pkg/daemon/telemetry.go)
--   Daemon/Table, Writer   what the server uses of sync.Map and http.ResponseWriter
--   Daemon/Drivers         safeBufferWriter, copyFile, the audit after a shredding
--   Daemon/Drivers/Audits                      how many audits a Stop prints
--   Daemon/Drivers/Qemu, Firecracker           the two drivers, LaunchVM and the Stop of an instance
--   Daemon/Drivers/Qemu/Overlay                theorems on a launch of a QEMU instance that fails
--   Daemon/Drivers/Firecracker/...             theorems on what a launch and a stop leave behind
--   Daemon/Server          Server: ServeHTTP, its handlers and StopAll
--   Daemon/Server/Concurrent and below         the handlers interleaved, as a step relation
--   Daemon/EndToEnd, EndToEnd/Delete, Cycle    the server over the Firecracker driver
--   Daemon/EndToEnd/Qemu   the server over the QEMU driver
--   Daemon/Server/...      theorems on authentication, routing, instances and shutdown
--   Runner                 the client of the API (pkg/runner/sandbox.go)
--   Runner/Roundtrip, Creation    the client together with the server
--   Examples and below     the theorems at concrete inputs
--
-- How it is modelled. Strings are lists of bytes. An operation on the host takes the log of the calls
-- made so far, newest first, and returns a result or an error with the longer log. What a call answers
-- is a parameter, a function of the whole log, so a theorem holds for every operating system, child
-- process and peer. Errors keep the structure that fmt.Errorf with %w gives them. The counter vmSeq is
-- a uint64 and wraps at 2 ^ 64; sizes of memory are integers; file sizes and times, in nanoseconds,
-- are natural numbers. sync.Map is an association list with one entry for each key; its Range is the
-- order of the list. Parameters stand for what is not in pkg/: encoding/json (Codec, Formats, Env),
-- net/http on the client's side (Http, IsWired, IsPosted), what JSON
-- decodes of the text of an instance (IsDecoded), SHA-256, %q, the temporary directory and what a file
-- system does with zeroes (IsDisk).
--
-- Bounds. The loop of ShredFile has fuel size + 1, enough because every round writes at least
-- one byte. The wait for the socket has the 20 rounds of the code.
--
-- Concurrency. Daemon/Server serves a request as a whole. Daemon/Server/Concurrent splits a handler at
-- its accesses to what it shares with others: taking a number under the mutex, each operation on the
-- sync.Map, and each call of the driver, of Stop and of Logs, which is one access although the driver
-- makes many calls of the host in it. A system is a server, a log and the tasks by number, and a step
-- is a move of any one task.
--
-- Not modelled: the requests' contexts, other than as errors that calls answer (ShredFile polls its
-- own); in the orchestrator a failure of http.NewRequestWithContext, whose arguments are constants;
-- lines printed for progress, other than the audit, the error of a shredding and the telemetry; how the calls that two drivers
-- make of the host are interleaved; scripts, examples and documentation. The decoding of YAML,
-- strings.TrimSpace, how a duration prints, and the exit code that an error of os/exec carries are
-- parameters.
pub mod Base
pub mod Host
pub mod Network
pub mod Storage
pub mod Firecracker
pub mod Kraft
pub mod Daemon
pub mod Runner
mod Examples
