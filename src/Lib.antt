-- ===== src/Lib.antt =====
-- A model of multirunner: a host that runs ephemeral self-hosted GitHub Actions runners in
-- containers and virtual machines.
--
-- How the parts work together. GitHub hands out work in three ways: a scale set session tells a
-- launcher how many runners it wants (internal/scaleset), a webhook or a poll of the queued jobs asks
-- the autoscaler for one runner for each job (internal/webhook, internal/autoscale), or warm pools
-- keep a fixed number of runners alive (internal/pool). Each runner is registered with GitHub, takes
-- one job and ends (internal/runner). What the parts do is set by a configuration file
-- (internal/config), and they talk to GitHub by clients for one or several repositories
-- (internal/github) with tokens that rotate (internal/ghapp). A local server keeps the Actions cache
-- (internal/cache), a housekeeper keeps the golden images of Windows machines licensed
-- (internal/winvm), and a service runs all of it in a worker process and remembers fatal runs
-- (internal/servicehost, cmd/multirunner).
--
-- Which file models which part, and how:
--
-- Common and its children: lists, tables, texts as lists of bytes, the conditional, hexadecimal
-- texts.
--
-- ScaleSet.State, .Cleanup, .Launcher, .Shutdown: internal/scaleset/launcher.go and
-- launcher_cleanup.go. The Launcher is a record that each method takes and returns; calls of the
-- backend and of GitHub are answered by an Env and recorded in a trace. ScaleSet.Steps is a step
-- relation on the regions that the launcher's mutex serialises, so that every interleaving of the
-- goroutines is a sequence of steps. ScaleSet.Supervisor is superviseSession of supervisor.go over
-- the list of a session's runs.
--
-- Cache.Store, .Evict: internal/cache/store.go. A Store holds the rows of both SQL tables and the blob
-- folders; createUpload, uploadPart, completeUpload, openDownload, touchEntry and evict are functions
-- on it. Cache.Store.History is the relation of a store to those it can become by calls. Each call is
-- one step: interleavings inside a call are not modelled. Cache.Match: matchEntry, with LIKE of SQLite
-- as a parameter. Cache.BlockId: internal/cache/blockid.go.
--
-- Pool.Access: CanServeJob of internal/config/config.go and Allows of internal/pool/launcher.go.
-- Pool.Slot: runSlot of internal/pool/pool.go with its backoff.
--
-- Autoscale: internal/autoscale/autoscale.go. The semaphore of a pool is the list of the jobs whose
-- goroutines hold a place. Autoscale.Steps relates a scaler to those that events, resolved jobs, ends
-- of runners and polls can make of it.
--
-- Webhook: internal/webhook/webhook.go, handle and validSignature, over that scaler.
--
-- Winvm.Housekeeping: internal/winvm/housekeeping.go and CheckOnce of housekeeping_run.go.
--
-- Runner: RunOnce of internal/runner/instance.go, as a function of the replies that records its events.
--
-- ScaleSet.Session: internal/scaleset/session.go, the scale set that a session serves and the opening
-- of the session. The map of label counts is an association list.
--
-- Github.Provider: internal/github/provider.go. A RepoSet is the list of its clients with the counter
-- of polls. Its errors are those that the autoscaler reads.
--
-- Github.Client: the queued jobs of a repository and ResolveQueuedJob of internal/github/client.go. A
-- listing is the pages that GitHub answers up to the last one or a failure, so its loops need no fuel.
--
-- Config: internal/config/config.go. Config.Types has the records; .Targets, .Pools, .Workflows,
-- .Limits and .Images the parts of Validate, which .Validate puts together; .Defaults has
-- resolveSecrets, applyDefaults and Load. An error is one constructor for each message.
--
-- Ghapp.Refresher: AccessToken of internal/ghapp/refresher.go, on the token of a process and the
-- sidecar file. Ghapp.Device: the device flow of internal/ghapp/device.go.
--
-- Cache.Server: internal/cache/server.go. .Signing has the signed ids, .Scopes the tokens of runners,
-- .Handlers the handlers, each a function to a response and a Store.
--
-- ServiceHost.Failures: internal/servicehost/failures.go. ServiceHost.Program: service_lifecycle.go and
-- superviseServiceWorker of cmd/multirunner; ServiceHost.Program.CrashLoop follows a service over
-- several processes, whose manager and whose disk are arguments.
--
-- Parameters. HMAC, JSON, base64, LIKE, the clock, random numbers and the replies of GitHub, of the
-- backends and of machines are arguments; what a theorem needs of them is among its hypotheses.
--
-- Bounds and fuel. Two loops run on fuel, since they wait for GitHub: the polling for a token has the
-- lifetime of its code in seconds plus two, and the opening of a session 20 rounds. The results below
-- show that both are enough, the first for durations that do not wrap around. Every other loop is a recursion on a list or on a count that the source
-- computes before it. Counts and times are natural numbers; subtraction stops at 0 and its
-- comments say why that compares alike. Durations stay far below 2^63 nanoseconds, and the doublings
-- of the backoffs stop below their caps. The products of Config.Limits and the durations of Ghapp.Device wrap
-- around at 64 bits.
--
-- Not modelled: log lines and the names inside error texts, HTTP and process plumbing, YAML and .env
-- files, the other requests of the REST client, the manifest flow of the App, RunJob of the pools, the
-- git cache, the QEMU and container backends, image recipes and the rest of the command line; they are mostly I/O around the parts above.
pub mod Autoscale
pub mod Cache
pub mod Common
pub mod Config
pub mod Ghapp
pub mod Github
pub mod Pool
pub mod Runner
pub mod ScaleSet
pub mod ServiceHost
pub mod Webhook
pub mod Winvm
