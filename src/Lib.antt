-- ===== src/Lib.antt =====
-- A model of vullify-backend, a Go service that scans container images with Trivy, and its proofs.
--
-- The parts. The API, the webhooks and the scheduler insert a row into the table `scans` and push a
-- job onto a Redis list. Workers pop the jobs, run the trivy command on the image, and replace the
-- results of the scan in Postgres; they publish phases and events in Redis. The command line reads
-- the findings and decides by their severity whether a build fails.
--
-- Where each part is modelled:
-- - World: the tables (migrations/) and the Redis keys as one record, and the monad of an operation
--   that may fail. World.Rules and World.Hoare hold the rules for what operations keep.
-- - Severity: internal/db/findings.go (normalizeSeverity), internal/cli/severity.go, sarif.go.
-- - Scanner: internal/scanner/scanner.go (errors, results) and trivy.go: Scanner.Report has the
--   decoded report and parseTrivyJSONReport, Scanner.Trivy has ScanImage.
-- - Db.Scans: internal/db/scans.go and the inserts of scans. Db.Persist: PersistScanResults of
--   internal/db/persist_scan.go. Db.Images: the lookups of internal/db/images_store.go,
--   registries_store.go and scheduler_store.go.
-- - Scanqueue: internal/scanqueue/scanqueue.go and internal/imageref/imageref.go.
-- - Worker: internal/worker/job.go and runner.go; a function keeps its Go name in snake case, and
--   the branches of runPipeline are functions of their own (scan_part, persist_part, fail_starting,
--   fail_scanning, fail_persisting, finish_ok). Worker.Pool has the pool of goroutines as a step
--   relation: any of them moves, on the Redis list and on the scanner that they share. The relation
--   allows more than the code does, so what holds in all its interleavings holds in the code's.
-- - Scheduler: internal/scheduler/tasks.go, lock.go, and the body of a tick of run.go. Scheduler.Sync
--   has the tasks that ask registries, over Registry (the interface of internal/registry/registry.go),
--   Db.SoftDelete (the statements that set deleted_at) and Db.Changes (internal/db/scheduler_store.go).
-- - Webhook: internal/webhook (verify.go, middleware.go, parse.go, handler.go, routes.go), and
--   Db.Webhooks: internal/db/webhook_store.go and UpsertImage. Json: what the parsers use of
--   encoding/json.
-- - Cli: internal/cli. Cli.Http has requests as effects on a server that may answer each in its own
--   way, Cli.Client client.go, Cli.Scan the command of scan.go, Cli.Sarif the document of sarif.go.
-- - Registry: internal/registry. Registry.V2, Registry.Acr, Registry.Gcr, Registry.Ghcr,
--   Registry.DockerHub and Registry.GitLab are the connectors of v2.go, acr.go, gcr.go, ghcr.go,
--   dockerhub.go and gitlab.go, Registry.Connectors NewConnector of registry.go. They stand on
--   Registry.Http (requests and their answers), Registry.Challenge (the header Www-Authenticate),
--   Registry.Link (nextCatalogURL) and Registry.Listing (the loops over pages, which v2.go, acr.go and
--   gcr.go share but for the texts of their errors).
-- - Enrichment: fetchEPSSBatched of internal/enrichment/epss.go.
-- - Api: internal/api. Api has parsePagination (pagination.go); Api.Reply what a handler answers;
--   Api.Scans createScan, rerunScan and cancelScan and Api.Progress scanProgress (handlers_scans.go);
--   Api.Adhoc handlers_adhoc.go; Api.Targets handlers_targets.go; Api.Suppressions
--   handlers_suppressions.go; Api.Registries the handlers of server.go; Api.Listings the
--   handlers of images, packages, misconfigurations and secrets. They stand on Db.Details
--   (GetScanDetail, ImageIsActive, FindImageIDByPullRef), Db.Targets (targets_store.go),
--   Db.Suppressions (suppressions_store.go) and Db.Registries (registries_store.go); Db.ImageList
--   has ListImages, Db.Listings packages_store.go, misconfigs_store.go and secrets_store.go, and
--   Db.Paging the clause OFFSET and LIMIT; Db.Reads has the calls that change nothing.
-- - Tests: concrete data on which each theorem is applied.
--
-- How it is modelled. A text is a list of Unicode code points; letter case is that of ASCII and of
-- the few other code points whose lower case or upper case is ASCII. UUIDs and instants are natural
-- numbers; a float64 is its bits. A call of Postgres, Redis or a subprocess takes one tick; the
-- environment `Env` says for each tick whether the call fails, what the clock shows, what the
-- process answers, and whether the context is done. A call that fails has no effect, and a
-- transaction that fails leaves the tables as they were. encoding/json, net/url, crypto/hmac,
-- time.ParseDuration and the trivy command are functions of `Env`, with no property assumed of them.
--
-- Loops are structural recursion on the list or on the number of rounds that are left: the retry
-- loop has `max_retries` rounds, as in the code. Only the loop over the batches of CVEs is on fuel,
-- with as much as there are CVEs, since every batch takes one at least. The paging loop of the client
-- has the 10000 pages of the code. The polling loop of the client has no bound in the code; in the
-- model it gives `none` after a number of rounds, and a theorem says how many are enough. So do the
-- loops over the pages of a registry.
--
-- Not modelled: the handlers of findings, the dashboard and reports and the listings of scans, the
-- connector of ECR (the scheduler and the API take a connector as a parameter), KEV and risk scores,
-- the printing of the command line, the object store, and logging. The mutexes of the connectors are
-- left out, since one goroutine uses a connector at a time there.
--
-- Elsewhere an operation runs alone: no other request or task comes between its calls, so what is
-- shown of a test before an insert (at most one active scan, one live target, one live image) is shown
-- of one run at a time.
--
-- A severity word that Postgres refuses to cast is an error of the model, and so is NULL in a column of
-- a scan's results that is NOT NULL. Its other refusals (foreign keys, a text that is too long for its
-- column, one that is not JSON in a jsonb column) are among the failures that `Env` decides, so a
-- theorem on a world where no call fails excludes them.
pub mod Prelude
pub mod Text
pub mod Json
pub mod Severity
pub mod Scanner
pub mod World
pub mod Db
pub mod Scanqueue
pub mod Worker
pub mod Registry
pub mod Scheduler
pub mod Tests
pub mod Api
pub mod Webhook
pub mod Cli
pub mod Enrichment
