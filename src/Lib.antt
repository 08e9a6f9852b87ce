-- ===== src/Lib.antt =====
-- mango-hub (a fork of the Komari server monitor), a hub in Go that agents report to: a verification
-- library of its core logic.
--
-- The parts, with the files that model them (paths from the repository's root):
--   Base: Go's strings as lists of bytes, slices as lists, map[string]V as association lists, and
--     signed integers. strings.TrimSpace is modelled on UTF-8, white space beyond ASCII included.
--   Rpc/Wildcard, Rpc/Principal, Rpc/Acl: pkg/rpc/permission.go and principal.go, the access rules.
--     wildcardMatch is `wildcard_match`, its loop `scan`, on fuel (len(s)+1)*(len(pattern)+1)+1:
--     each position of the text begins at most one pass over the pattern. The package variable aclList is a
--     list that `allow` returns changed and `resolve_min_role` reads.
--   Rpc/Message, Rpc/Parse, Rpc/Registry, Rpc/Call: the rest of pkg/rpc, and web/rpc/jsonrpc/dispatch.go.
--     The maps of handlers, metadata and sensitive methods are one record. json.Unmarshal is a
--     parameter. A handler is a function of its caller's metadata, the request and the state of the
--     rest of the program, which it may change; a nil pointer is `none`.
--   Agent/Queue, Agent/Runtime: web/agent/v2_events.go and connections.go. The package's maps are two
--     records; the clock is an argument, in nanoseconds; the channel that wakes a waiting agent is the
--     number of its generation, and it is closed when the queue has a later one.
--   Scheduler/Cron: Parse, parseField and parseRange of internal/scheduler/scheduler.go, with int64
--     addition that wraps; the loop of parseField is `fill`, on fuel 200: the values of a field
--     are below 60, and a sum that wraps twice comes back at least 2 lower. time.ParseDuration is a parameter.
--   Scheduler/Next: the two Next methods, on seconds; the loop of cronSchedule.Next is `next_from`, on
--     one round for each second of its window. The calendar of the local time zone is a parameter.
--   Scheduler/Jobs: the Manager. A context is a number, cancelling it puts it on a list; the goroutine
--     that AddContextFunc starts is returned as a `Run`.
--   JsPath/Windows, JsPath/Extension, JsPath/Parts: pkg/jsruntime/path/path.go. A loop that goes down
--     from the end of a value reads the reversed bytes; the index of a byte is the number before it.
--   Metric/Points, Metric/Traffic, Metric/Reports: internal/metricstore/report_mapping.go and
--     writeReportBatch of report_batcher.go. float64 is a parameter with the conversion to it; the
--     map reportTrafficStates has one value for each agent, and the pending states of a batch are a
--     second map that is saved at its end.
--   Metric/Batcher: the worker of report_batcher.go. Each case of the select of `run`, each enqueue and
--     each part of a stop is one step, in any order. The store behind it is the record `Store`: two
--     functions that write a batch, of which nothing is assumed. Metric/Batcher/Noted notes the
--     batches whose write returned no error. A round of a write loop takes at least one element, so as
--     many rounds as elements are enough.
--   Metric/Rollup: RollupPolicy of pkg/metric/rollup.go and pkg/metric/interval.go. A duration is an ℤ.
--   Metric/Raw: the compressed samples of pkg/metric/raw_points.go. A value is its 64 bits, a timestamp
--     a signed integer whose differences wrap at 2^64. A loop over a decoder is a loop over the
--     samples that it returns; the merging of two lists has as many rounds as there are samples.
--   FileManager/Sizes, Uploads, Previews: web/filemanager/transfer.go and nextReducedTransferChunkSize
--     of stream_relay.go. A pointer to an upload session is a number, the channel of slots the number
--     of its elements, the files of sessions a map; each function is one step.
--   Plugin/Version: internal/plugin/version.go, the versions of the server that a plugin asks for.
--   Notifier: utils/notifier/offline.go, for one client. The goroutines that wait for the end of a
--     grace period are a list of timers, each of which runs once, in any order, when it is due.
--   Plugin/Matcher, Plugin/Hooks: the path filters and wrapHandler of internal/plugin/hook.go. A turn of
--     the event loop of a plugin is a parameter: it is not queued, not done in time, thrown or done.
--     A callback of a response hook that is done too late lands before the next hook, if at
--     all; that it may land after later hooks is left out. The limit of the body is an int64, with the
--     sum of httpbody.ReadAll that wraps.
--   Plugin/Client, Plugin/Buffer, Plugin/Inject, Plugin/HtmlWriter: the two response writers of
--     internal/plugin/hook.go and inject.go, in front of the ResponseWriter of net/http, without its
--     check of Content-Length. A handler is the list of its calls of the writer.
--   Upload: web/upload/chunk.go. The directories of uploads are a map, and each call of the operating
--     system may fail.
--
-- The parts meet where the code does: `dispatch` reads the rules through `check_principal` and calls the
-- registry, and `add_context_func` parses its expression with `parse`, whose schedules `next_time`
-- runs; `wrap_handler` puts the response buffer before the handler.
--
-- Mutexes are left out where an operation holds its lock from its first access to its last: the
-- operation is then one step. Not modelled: the bodies of the RPC methods, the SQL and floating-point
-- parts of the metric store, the JavaScript bindings, the hooks of WebSocket frames, the network, the
-- files beyond those of uploads, the themes.
pub mod Base
pub mod Agent
pub mod FileManager
pub mod JsPath
pub mod Metric
pub mod Notifier
pub mod Plugin
pub mod Rpc
pub mod Scheduler
pub mod Upload
