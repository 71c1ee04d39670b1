-- ===== src/Lib.antt =====
-- MCPlica turns API descriptions into MCP servers: Builds compile the sources of a project into a
-- manifest, Deployments run it in a container, and the runtime there calls the upstream API. This
-- library models the parts of the Python program that keep state between processes or guard a
-- boundary, and proves what makes them correct.
--
-- Files and the code they model (paths from the repository's root):
--
-- - RuntimeCommands: backend/app/repositories/runtime_commands.py, the outbox of lifecycle
--   commands, with the row of backend/app/models/runtime_command.py in RuntimeCommands/Row.
--   RuntimeCommands/EffectState models backend/app/services/deployment/effect_state.py,
--   RuntimeCommands/Dispatcher and RuntimeCommands/Executor the two sides of the queue,
--   backend/app/services/deployment/command_dispatcher.py and command_executor.py.
--   RuntimeCommands/Ordering and Steps carry the lemmas, Lifecycle and Exclusive the step relation
--   on tables and what holds of all reachable ones, Fencing and Dispatch the single operations, and
--   Dispatcher/Delivered the whole cycle.
-- - Errors: backend/app/core/exceptions.py, and the retry decision of
--   backend/app/services/deployment/service.py, which the executor applies to what the runner
--   raises.
-- - BuildStatus: the statuses and `next_status` of backend/app/domain/builds.py.
-- - BuildAdmission: backend/app/repositories/build_admission.py, the leases for running Builds, on
--   the statuses of BuildStatus. Concurrency, Changes, Claims and Leases are about its
--   transactions, Invariant about their interleavings, Overview about the listing. Delivery models
--   the dispatch cycle of backend/app/services/build_admission.py, and Delivery/Audited is about
--   it.
-- - BuildLifecycle: the writing methods of backend/app/repositories/builds.py with the ownership
--   test of backend/app/repositories/build_execution.py and the row of backend/app/models/build.py,
--   whose admission columns are those of BuildAdmission. BuildLifecycle/Create models the creation,
--   Row the row; Evolution and Steps say how a method changes a row, Invariant and Outcome what
--   holds under every interleaving with the transactions of BuildAdmission, Fencing what a method
--   refuses.
-- - Cleanup: backend/app/repositories/cleanup.py with the rows of backend/app/models/cleanup.py and
--   the enumerations of backend/app/domain/cleanup.py, in Cleanup/Target and Cleanup/Job. Cleanup
--   models new jobs and targets, Cleanup/Capture the captures, with those of
--   backend/app/services/cleanup.py, Cleanup/Claim and Cleanup/Settle the start and the end of an
--   attempt, and Cleanup/Worker the `_process` of the worker in backend/app/services/cleanup.py.
--   Accounts, NewAccounts, ClaimedAccounts and SettledAccounts are about the counters of the jobs,
--   Due and Termination about the loop that claims, Invariant and Finality about all interleavings,
--   Captured about the captures and Deletion about the worker.
-- - Deployments: the writing methods of backend/app/repositories/deployments.py with the rows of
--   backend/app/models/deployment.py and the evidence of an activation of
--   backend/app/domain/deployments.py in Deployments/Row; Deployments/Activation models the methods
--   that begin, refresh, complete and undo an activation, and Deployments/Activated the
--   transactions of backend/app/services/deployment/service.py. Deployments/Deletion is the
--   deletion of a project with its deployments, `ProjectRepository.delete` of
--   backend/app/repositories/projects.py. Evidence, Proofs and Running are about one row, Moves,
--   Transactions, Safety and Completed about one transaction, Invariant about all interleavings,
--   and Serving about what runs or ever ran.
-- - RequestLimits: backend/app/core/request_limits.py, the budget of bytes that uploads share;
--   Budget is about all interleavings of the uploads.
-- - OperationPaging: backend/app/services/builds/operation_paging.py.
-- - AuthSelection: backend/app/services/builds/auth_selection.py, and AuthSelection/Readiness
--   backend/app/services/builds/readiness.py, which calls it.
-- - Chunker: backend/app/parsers/documentation/chunker.py, the texts of the chunks.
-- - PathTemplate: packages/contracts/src/mcp_contracts/path_template.py.
-- - UrlPolicy: mcp_runtime/app/security/url_policy.py, its paths and the test of an address in
--   UrlPolicy, the resolving methods in UrlPolicy/Network.
-- - Common: shared names, lists, sorting, texts, results, white space, and tables of rows with an
--   identifier, and their keys.
--
-- How the program is modelled. A repository method that runs in one transaction is a function from
-- the table to its result and the table it commits; a raised exception is an error value and leaves
-- the table. Row locks make the transactions serial, so an interleaving is a sequence of such
-- steps. Times, identifiers and tokens are natural numbers. RuntimeCommands counts times in
-- microseconds, since its retry delay is a number of seconds that RuntimeCommands/Executor
-- converts; Cleanup counts them in seconds, for the cap of its delay; the other parts only compare
-- and add times, in any unit; the database clock, fresh UUIDs, the rows that SKIP LOCKED passes
-- over, the queue and the runner's outcome are arguments. Texts are lists of code points. Python's
-- library (IDNA, URL and address parsers, case folding) is a parameter.
--
-- Bounds. The path template loop takes fuel, the length of the path, and each turn consumes a
-- character; so do the search for paragraph breaks and the wrapping loop of the chunker, whose cuts
-- are never empty. The ancestors of an error class take fuel for the depth of the hierarchy. The
-- claiming loop of the cleanup takes one turn for each element of a list that says which rows are
-- locked, and returns nothing if it has not ended by then; a turn that finds no held target claims
-- one or ends, so that `limit` such turns are enough. All other loops are recursions on a list.
--
-- A deletion of a project is read by identifiers, and Deployments/Deletion has the function that
-- deletes; the sequence number of a new command is one that no row has, above those of its
-- transition, so that commands of different transitions may be committed out of the order of their
-- numbers.
--
-- Not modelled: the endless loops around the dispatch cycles and the heartbeat timer, which only
-- wait and call; the constructor of the URL policy and the encoding of path values; the digests of
-- chunks; the patterns of the digests in the CHECK constraints of a deployment; the orchestration
-- of a deployment between its transactions; the retention job of the cleanup and its guards against
-- orphans; the source bindings and index generations that the Build methods write beside the Build
-- row; the other parsers, the compiler, the analysis with model providers, the HTTP API, the
-- frontend, Docker, Redis and the database itself.
pub mod Common
pub mod Errors
pub mod RuntimeCommands
pub mod BuildStatus
pub mod BuildAdmission
pub mod BuildLifecycle
pub mod Cleanup
pub mod Deployments
pub mod RequestLimits
pub mod OperationPaging
pub mod PathTemplate
pub mod UrlPolicy
pub mod AuthSelection
pub mod Chunker
