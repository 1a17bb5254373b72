-- ===== src/Lib.antt =====
-- Verification of the annotation platform's Go services.
--
-- The platform keeps jobs that workers run, tasks that people work on, and the state of reviews and
-- publications. Each part is a service that validates and normalises its input, over a repository
-- that holds the state.
--
-- Base: what the parts share. `Text` is a Go string as a list of code points, `lit` a literal of
--   the source, `keyword` is strings.TrimSpace(strings.ToLower(s)); lower case is exact for ASCII,
--   other letters are taken to have none. `Map` is a Go map as an association list whose order stands
--   for the order of iteration. `Outcome` is a call that changes a state and returns a value or an
--   error, and whatever it changed before the error stays changed. `ℤ` holds the signed integers that
--   the code only compares with zero.
--
-- Jobs (internal/jobs): Value is `any` and the dynamic maps; Model is model.go and errors.go;
--   StateMachine is state_machine.go; Repository and EventLog are the InMemoryRepository of
--   repository.go, each method a step under its lock; Dispatcher is dispatcher.go with the state that
--   calls act on (repository, published items, calls on the metrics); Sweeper is sweeper.go;
--   Normalize, Service and Reports are service.go. Jobs.Invariant says what holds between calls and
--   proves that each call keeps it; Jobs.History has histories of calls, Jobs.History.Changes what each call
--   may do to a status. The publisher, the review sink and the JSON conversion of candidates are
--   parameters. A time counts nanoseconds after Go's zero time, and time.Now() is read once in a call. A
--   lease and a doubled backoff wrap in 64 bits; ids and retry counts are natural numbers that do not. float64 values are carried as bits, or by the integer that the code reads from
--   them. Loops are structural, so no fuel is needed, but for `decimal`, whose fuel is the number
--   itself plus one, more than its digits.
--
-- Tasks (internal/tasks): Model is model.go with the keyword tests of service.go, Equality its `==`,
--   Flow the transition table, Repository the InMemoryRepository of repository.go, Service is
--   service.go. A keyword is read into a data type with the source's constants and `other` for any other
--   text. Validity and Transition describe CreateTask and TransitionTask apart from their steps,
--   Listing what ListTasks lists, Closing the way to a closed task; Tasks.History has histories of
--   calls. Error messages keep no values.
--
-- Auth (internal/auth): RateLimit is the fixedWindowLimiter of rate_limit.go, RateLimit.Window counts
--   what passes; Scope is context.go, with strconv.ParseInt as a parameter and the context as an
--   optional identity; Scope.Access is about the access check.
--
-- Review (internal/review): Model and Service are service.go, Repository the InMemoryRepository of
--   repository.go; Review.History has histories of calls on a repository that SeedCandidate, a helper of
--   the tests, has not filled. float64 values are carried as bits, of which the code reads the sign.
--
-- Publish (internal/publish): Model is model.go; Feedback, Repository and Decisions are
--   in_memory_repository.go; Service is service.go and Workspace is workspace.go. A status is one of the
--   source's constants, since the code writes no other. `clone` is cloneJSONMap, a round trip through
--   encoding/json. Publish.Invariant says what holds between calls, Publish.History has histories of
--   calls, Approval and Published are about OwnerApprove, Overlap about two of its calls that overlap.
--
-- Annotations (internal/annotations): Model is model.go, errors.go and the inputs of repository.go;
--   Repository is in_memory_repository.go and Service is service.go. `encode` is deepCloneJSONMap, a round
--   trip through encoding/json that may fail. Annotations.Invariant says what holds between calls,
--   Annotations.History has histories of calls, Conflict is about revisions, Submission about
--   SubmitWorkspace.
--
-- Datahub (internal/datahub): Model is the types, Repository and Items are the InMemoryRepository of
--   repository.go, Service and Import are service.go. The scanner, the presign function and the %f of
--   package fmt are parameters. float64 values are carried as bits, of which the code tests the sign.
--   Datahub.Imported describes what an import stores, Datahub.Invariant what holds between calls,
--   Datahub.History has histories of calls.
--
-- Versioning (internal/versioning): Model, Matching and Diff are service.go. float64 values are carried as
--   bits and the operations on them are a record, Floats, of which nothing is assumed. Counts, Conservation
--   and Groups count what the matching takes from each side; Laws is about whole snapshots, Updates about the
--   changes reported.
--
-- Jobs reaches Review through the review sink, which is a parameter of the job service. Publish starts
-- tasks through its task creator, which is a parameter too and for which Publish.Published takes
-- CreateTask of Tasks. Annotations reads and moves tasks through TaskService, a record of operations that
-- the task service fills. The others do not call each other: the HTTP layer composes them.
--
-- Not modelled: artifacts (internal/artifacts) and the overview (internal/overview), the audit log,
-- HTTP handlers, SQL repositories, Redis and S3 clients, the command line, logging and metrics, and the
-- code in other languages. The SQL repositories are a second implementation of the
-- interfaces whose in-memory implementation is modelled.
pub mod Base
pub mod Jobs
pub mod Tasks
pub mod Review
pub mod Auth
pub mod Publish
pub mod Annotations
pub mod Datahub
pub mod Versioning
