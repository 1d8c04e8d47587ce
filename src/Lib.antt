-- ===== src/Lib.antt =====
-- BeaconGuard, an eBPF process monitor: its loader (loader/*.go) and the programs that the loader puts
-- into the kernel (bpf/beacon_guard.bpf.c), modelled and proved component by component.
--
-- The kernel programs watch calls of all processes, keep suspicion scores of their own, and send a
-- sample for each call. The loader reads the samples from the ring buffer, parses each into an event,
-- hands it to the behavioural engine, and answers an anomaly with an alert and, where configured, a SIGKILL. Alerts
-- go through a bounded channel to the API server, which stores them, streams them to clients, and
-- serves statistics and the configuration. All parts share one configuration by pointer, which a POST
-- replaces: the functions take the configuration of their time as an argument, and a run is a list
-- of rounds, each with its own.
--
-- Files:
--   Config      loader/config.go: `Config`, `DefaultConfig`, `loadConfig`; Config/Load its laws.
--   Event       loader/event_processor.go, `Event`, `parseEvent`, `cStrToString`: bytes to events,
--               with Go's panics as an outcome. Event/Fields reads single fields, Event/Parse (with
--               Event/Parse/Members) compares the parser with a closed description, Event/Shape says
--               what its events have in common. Event/Layout is struct event_t of bpf/common.h as
--               bytes, Event/Kernel what the parser makes of it.
--   Float       the float64 operations of the engine, as an abstract interface; `Duration.Seconds`.
--   Engine      loader/engine.go: `NewEngine`, `Analyze`; Engine/Reports: `GetProfiles`, `GetStats`.
--               Engine/Types holds the structs, Engine/Rules the ten rules (Plain those without a
--               clock, Timed the others). Engine/Guards describes what each rule asks (Engine/Guards/Tests: the
--               code's tests against it). Engine/Settled, Engine/Matches, Engine/Windows, Engine/Sound (with
--               Engine/Sound/Track), Engine/Stats, Engine/Scores, Engine/Verdict, Engine/Decision
--               and Engine/Parsed are proofs.
--   Channel     Go's buffered channels with a send that drops on a full buffer; Channel/Carries says
--               what such a channel hands on.
--   Processor   loader/event_processor.go: `Start`, `handleAnomaly`, `sendToAPI`, `killProcess`.
--               Processor/Rounds, Processor/Counts and Processor/Response are proofs;
--               Processor/Monitor is what the processor promises, Processor/Simulation relates the two;
--               Processor/Scores is about suspicion scores over runs.
--   Server      loader/api_server.go: `AddAlert`, the handlers, the clients of the event stream;
--               Server/Routes the configuration handler, the routes and the middleware. Server/Json
--               writes an alert as json.Marshal does, Server/Message what is sent and written for
--               it, and Server/Frames is an independent reader of event streams. Server/Alerts,
--               Server/Clients, Server/Handlers, Server/OneLine, Server/AlertLine and Server/Framing are proofs.
--   Programs    bpf/beacon_guard.bpf.c: the nine programs in the kernel. Programs/Tables holds their maps,
--               Programs/Memory what they are called with, Programs/Files, Programs/Network and
--               Programs/Processes the programs; Programs/Suspicion, Programs/Samples and
--               Programs/Delivery are proofs, the last across the ring buffer into the loader.
--   Loader      loader/main.go up to the start of the goroutines; Loader/Hooks and
--               Loader/Startup are proofs. Loader/Effects is `main` to its end, as what it opens and
--               closes; Loader/Shutdown is a proof.
--   System      the goroutines of loader/main.go side by side, as a step relation; System/Invariant,
--               System/Runs, System/Streams, System/Drains and System/Browser are proofs.
--   Prelude     shared tests, lists, 64-bit words and maps. Tests holds runs and instances.
--
-- Conventions: an `int` or `int64` is its bit pattern below 2 ^ 64 with wrap-around written out
-- (`add64`, `lt64`, `quot64`); lengths of slices are plain numbers, since memory bounds them. A
-- string is its list of bytes; the texts that the code takes from a fixed set (rules, severities,
-- actions, states) are data types. Maps are association lists with each key once. Time is a reading
-- of the monotonic clock in nanoseconds, one argument for each call of `time.Now`. Each loop is a
-- recursion on the list that it walks, so no fuel is needed; the endless loop of `Start` is a run over
-- the finite list of what it has read so far.
--
-- Parameters, for code outside the repository or text formats: the float64 operations (`Float64`), the
-- JSON decoder (`decode`), the JSON text of a float64 (`float_text`) and the text of a time (`time_text`),
-- what `fmt.Fprintf` writes from the first `%` on (`directives`), `os.FindProcess` (`found`), the eBPF
-- library with the operating system (`Env`), and what the kernel's helpers answer to a program
-- (`Call`). Where the text of an alert does not matter, it is any function `message`. A sample's
-- capacity is taken to be its length. Kernel programs run one after the other.
--
-- Not modelled: the older copies of the kernel programs that are not built (the other .bpf.c files),
-- the Python service (api/), the web frontend (frontend/), logging, the CORS headers, and data races between a POST of the configuration and its readers.
mod Prelude
pub mod Float
pub mod Config
pub mod Event
pub mod Engine
pub mod Channel
pub mod Processor
pub mod Server
pub mod Loader
pub mod Programs
pub mod System
mod Tests
