-- ===== src/Lib.antt =====
-- A model of scm-metrics-exporter: the exporter that polls GitHub and GitLab for review items,
-- findings and CI runs and exports them as metrics, and the operator that runs it as Jobs.
--
-- The parts and how they interact:
--   Provider    internal/provider/provider.go: the domain types that all parts share, severities,
--               workflow tallies, and the scope key of a remediation histogram.
--   Store       internal/store: RecordIfNew runs one Lua script on a Valkey server, Remediation
--               reads the histograms back. The server is the interface Store.Server: `IsRedis`
--               states the documented behaviour of its commands, and Store.Memory is a server that
--               meets it. `Link` says what becomes of a call: it may not reach the server, its reply may be
--               lost, and the client may then send it again.
--   Lifecycle   internal/lifecycle/record.go: Record calls the store for each resolved finding of
--               a snapshot. It is generic in the store, and Lifecycle.Settled uses the Valkey store.
--   Collector   internal/collector/collector.go: pollOne, pollAll, Run and the cache. What a
--               provider answers comes from a state of the outside world that every call may change.
--   Metrics     internal/metrics/metrics.go: observeSnapshot, observeOpenAge and the remediation
--               callback, as the list of the observations that they make.
--   Discovery   internal/discovery: selectors, the paged listings of both providers, API budgets.
--   Api         api/v1alpha1: the custom resources and the validating webhooks.
--   Controller  internal/controller: jobName and the rendering of Jobs (Names, Render),
--               dispatchJobs (Dispatch), and both Reconcile methods as one function of what they
--               do differently (Reconcile). The Kubernetes API is the interface Controller.Cluster; a list
--               of Jobs comes from the manager's cache, and nothing says that it is current.
--               Environment joins the rendered Job with internal/config, and with the webhook's checks
--               and the rules of the types (Api.Schema).
--   Config      internal/config: Load and its validation, with the environment as a function.
--   GitHub      internal/provider/github: SnapshotRepo and what it calls, given the answers of the APIs:
--               Repo (GraphQL and mergeRepos), Resolved (lifecycle.go), Collect (SnapshotRepo).
--               GitHub.Owner has Snapshot: Owner (the listings of an owner), Poll (Snapshot itself);
--               its Pages and Failures say what the listings read and when they fail.
--               Provider.Merge and Provider.Sources have what both providers do alike.
--   GitLab      internal/provider/gitlab: pages of the REST API (rest.go) and of the GraphQL API
--               (graphql.go), Repo (what one project has, repo.go and lifecycle.go), Collect
--               (SnapshotRepo), Merge (mergeRepos), Group (Snapshot); History and Resolutions are
--               about the pipelines and the resolved vulnerabilities of a project. GitLab.Pages says what a loop
--               over pages gathers, and the theorems about rows refer to that.
--   Exporter    cmd/exporter/main.go: run. It chooses the provider by the settings of Config, polls it
--               through Collector and hands the resolved findings of the answer to Lifecycle.
--   Operator    cmd/operator/namespaces.go: the list of namespaces that the operator watches.
--   Prelude     Go's strings, maps, integers and errors, path.Match, and the lemmas about them.
--   Examples    the theorems at concrete inputs, and tests.
--
-- Conventions. Instants are nanoseconds since Go's zero time and durations are nanoseconds, as
-- integers; time.Time.Sub clamps and sums of int64 wrap around where the source adds them. Sums of
-- durations and fractions in parsed durations are exact, where Go has float64. A Go map is an
-- association list whose order stands for the order of a range over it. Texts are lists of runes;
-- what the Unicode tables say outside ASCII is the argument `Unicode`. Error texts keep their
-- fixed parts.
--
-- Bounds and fuel. The listings of pages run on the source's own bound of a hundred pages.
-- format_digits has twenty digits, enough for every int64; hex has eight, enough for 32 bits; xor
-- has 32 bits. sum_units has one step for each rune of a duration, and a number with
-- its unit has a rune at least. The fuel of path_match and of its parts is one more than the length
-- of the pattern, and every round takes a rune of it at least (Prelude.Glob.Fuel and Chunks,
-- Prelude.Text.Steps).
--
-- Not modelled: HTTP transports, JSON decoding and client construction; OpenTelemetry set-up;
-- logging; the lock of the collector; messages of conditions; the manager's registration;
-- the flags, signals and shutdown of cmd/exporter/main.go; generated code; the chart; the texts of
-- queries; cmd/operator/main.go.
pub mod Prelude
pub mod Provider
pub mod Store
pub mod Lifecycle
pub mod Collector
pub mod Metrics
pub mod Discovery
pub mod Api
pub mod Controller
pub mod Config
pub mod GitHub
pub mod GitLab
pub mod Exporter
pub mod Examples
pub mod Operator
