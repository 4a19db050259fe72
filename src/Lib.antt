-- ===== src/Lib.antt =====
-- A model of vpub-exporter, a Prometheus exporter that watches a validator publisher: its systemd
-- service, its processes, its log files, its binaries, and the RPC providers and the Slack channel
-- that it depends on.
--
-- The parts. cmd/vpub-exporter/main.go loads the configuration and starts one goroutine for each
-- collector. The polling collectors run `Tick` in the loop of `RunTicker`, which times each run and
-- counts its errors. The log collectors subscribe to the polling tailer, which follows the newest
-- file of a directory and sends each line that a pattern matches; they classify the lines and count
-- them. Every collector writes its own metrics, and the scrape only reads them.
--
-- Which file models which part; a file's children hold the proofs about it.
--   Prelude, Text      the numbers, lists and tests that the files share; the functions of the Go
--                      packages strings, strconv and path/filepath that the source uses, on bytes
--   Clock, Errors      time.Time as seconds from the year 1 and nanoseconds; error values as the
--                      source tells them apart, and what a TickFunc returns
--   Regexp, Prometheus, the three third-party interfaces, as records of operations and laws
--   Registry
--   Logtail            internal/logtail: Timestamp (ParseLineTimestamp), Drain (drain), Poll (loop,
--                      Subscribe), Tailer (the interface that the log collectors use, NewPolling);
--                      Rotating has the life of a log that grows, rotates and is truncated
--   Logfs              internal/logfs: LatestMtime
--   Systemd, Procs     internal/systemd and internal/procs: DBusProbe, CountChildren, readPPID
--   Config, Components internal/config: Args (the flags), Load behind them, Validate, the component
--                      names
--   Collectors         internal/collectors: Base (RunTicker, Cache), Service, LogMtime, Binary, Slack,
--                      BridgeState, BridgeRpc, VoteLogs, EventLogs (the outcome, download and visor
--                      log collectors); Metrics and New (the constructors, with the names and labels
--                      of their metrics); VoteLogs/Start and EventLogs/Start (Start of the log
--                      collectors, on a tailer; VoteLogs/Files, VoteLogs/LastOk, EventLogs/Outcome and
--                      EventLogs/Downloads go on from there); BridgeRpc/Calls, Slack/Answer and
--                      Binary/Answers (the collectors with the clients that they call); Slack/Window
--                      (the outcome collector over the messages of a channel); BridgeRpc/Timing
--                      (how long a tick takes)
--   Probes             the verdicts of internal/rpc, internal/slackapi and internal/binary on an
--                      HTTP response, Requests, the requests that they make, and Clients,
--                      the structs that hold the HTTP clients, with their constructors
--   Main               cmd/vpub-exporter/main.go: the jobs, the fallback probe, the newest file for
--                      the tailer, the error of run; Registration (what is registered, in order);
--                      Tailing (the tailer and its settings, and the directory that it watches);
--                      Logs (the lines of its log) and Secrets (what they depend on); Exporter (the
--                      goroutines of the collectors on their shared metrics); Process (main and run
--                      as a list of actions, up to the exit status); Server (the HTTP server and its
--                      replies, the signals, and main over what happens to it)
--   Tests              examples
--
-- How state and operations correspond. A collector is a record of its metrics and its own fields, and
-- `tick` takes what the calls of one tick return (a `...World` record, or functions) and the record to
-- the record after it and the outcome. A mutex has no counterpart: each field of a collector is
-- touched by one goroutine (the two goroutines of the binary collector have their own fields), the
-- cache of base.go takes its calls one after the other, and where goroutines share a metric
-- (BridgeRpc) the order in which they finish is the list that `tick` takes; BridgeRpc/Pool has the
-- goroutines and the semaphore as a step relation, and BridgeRpc/Complete joins the two. In
-- Main/Exporter any interleaving of the goroutines is a list of their calls, where a tick and its
-- record in the exporter's own metrics are one step, as is a match that a log collector receives. In
-- Main/Process the calls of run that reach outside are actions of a list, in order, the deferred ones
-- included, and a panic of MustRegister or WithLabelValues is an exit of its own. A select loop is a
-- function of the list of what its selects find. The tailer's `poll` is one round of its loop, on what
-- the file system returns in that round; its channel is the list of the matches sent, and `room` says
-- after how many more sends the context is found cancelled. Bytes are natural numbers below 256 by
-- intent; an int is an integer whose subtraction wraps at 64 bits where the source subtracts (the
-- restart counter).
--
-- Bounds and fuel. Every recursion is structural (on the bytes of a file, on lists of entries, events
-- or rounds), so no fuel is needed, but that strconv.FormatInt in Text/Number/Format prints at most 19
-- digits, as many as an int64 has.
--
-- Parameters. Prometheus has metrics with a getter and laws that say what a set, an add or an observe
-- changes; its values are any type with an embedding of the integers and an addition, so nothing is
-- assumed of float64 but that both operations are functions. Regexp has the two calls that the source
-- makes of a compiled pattern, with no law. The registry of Registration takes lists of metrics, knows
-- the names that it has, and accepts a list whose full names are new and distinct; a label value is
-- accepted if it is UTF-8. The HTTP client of Probes/Http answers a request, with no law; Slack/Window
-- alone assumes of it, as a named hypothesis, what Slack documents of conversations.history. All four
-- are instantiated in Tests. JSON decoding, the parsing of durations and of HTTP dates, the answers of
-- D-Bus and the file system are inputs of the operations that use them.
--
-- Not modelled: the help texts and buckets of metrics, what promhttp and the sockets do, the variable
-- parts of most error texts, what net/http makes of the settings of a client, and how the connection
-- to D-Bus is made. How a signal, a server error or a panic in a goroutine comes about is outside:
-- Main/Server takes them as events in their order, and promhttp as a function. The upper-case mapping
-- of an environment key covers ASCII.
pub mod Prelude
pub mod Text
pub mod Errors
pub mod Clock
pub mod Regexp
pub mod Prometheus
pub mod Registry
pub mod Logtail
pub mod Logfs
pub mod Systemd
pub mod Procs
pub mod Components
pub mod Collectors
pub mod Probes
pub mod Config
pub mod Main
pub mod Tests
