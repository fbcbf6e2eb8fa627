-- ===== src/Lib.antt =====
-- CareerPilot, a Go service that finds jobs, scores them with language models, prepares resumes
-- and applications, fills application forms in a browser, and stops for a person where it must.
--
-- Each file under Base holds what the parts share: Boolean tests and lists (Tests, Lists), Go's
-- integers as signed integers (Int), texts, their lines and their numbers (Text, Lines, Number),
-- the order of texts (Order), maps (Dict), sorting and the order in which a map is visited (Sort,
-- Sorted), times in nanoseconds (Clock), and errors and calls (Effect). A component's calls out of
-- it (stores, clock, id generator, models, browser) are a data type `Call`; its environment is a
-- record of functions that answer a call from the calls made before it, so it may be any
-- deterministic stateful program; an operation takes the calls made so far, the newest first, and
-- returns its result beside the longer list. An `error` is a value of `Error`, and `(T, error)` is
-- a `Result` where no value comes with an error.
--
-- The parts, each in the file of its name and the folder beside it:
-- - Candidate: internal/candidate: claim.go (IsForbidden, the allowed claims), and profile.go in
--   Profile.
-- - Resume: internal/resume. Version has the statuses and their table, Validation the one-page
--   rule, Pipeline Generate, Approve, Reject and ValidateClaimProvenance, and Latex the renderer
--   and the latexmk compiler of internal/resume/latex. Pipeline.History is the life of a version,
--   any sequence of these operations, which Latex.Generated puts over that compiler.
-- - Application: internal/application. State has the transition table and Transition, Answers
--   Classify, Gate EvaluateSafetyGate and Ready (`make_ready`), Workflow the steps from a job to a
--   reviewed application, Queue BuildReviewQueue, Records RecordEvent and CheckDuplicate.
-- - ModelProvider: internal/modelprovider (Recorder.Generate, and the two Placeholders).
-- - Job: internal/job. Normalize, Dedup (Deduplicate, Ingest), Scoring (ApplyTriage,
--   ApplyEvaluation) and Pipeline (Process, runTriage, runDeepEvaluation), which runs the
--   recorder.
-- - Browser: internal/browser. Types has sessions and the interfaces, Recovery the tokens, Steps
--   what the runner's methods share (saveSession, fail, expire, pauseForHuman, checkpoint), Runner
--   Start, Resume and Submit, and Drivers the Playwright and the scripted driver, with what a
--   launch takes and a close gives back in Drivers.Resources. Lifecycle is the specification: the
--   moves of a session over the states of docs/BROWSER-RECOVERY.md, as the store holds them. Steps.Notified puts the notification service where the runner's notifier stands.
--   Recovery.Race has Redeem call by call, for redemptions that interleave. A method with early
--   returns is split into one definition per stage, each named after what it follows.
-- - Scheduler: internal/scheduler. Retry (Decide, Execute), Discovery and Evaluation, which run
--   the job package, Proposal, and Reports (health and audit). System puts discovery runs,
--   evaluation runs and single jobs over one set of stores, in any order.
-- - Journey: a resume version's life, the workflow and the gate of internal/application, and the
--   runner's Submit behind them.
-- - Analytics: internal/outcome. Records, Funnel, Calibration, Performance (ByResumeVersion,
--   BySource, ByRole, over an argument that is the order in which Go visits the map of groups) and
--   Recommendations. Performance.Reference says what the performances are meant to be, Reordered
--   puts all that is computed from the records into one report of them.
-- - Notification: internal/notification (Service, LogSender). Config: internal/config and the
--   level of internal/logging.
-- - Service: cmd/api (run), internal/app, internal/storage/postgres and the health handler of
--   internal/httpserver. The `select` of run is an argument where both of its cases are ready.
-- The laws of a file stand in the files below it, the runs on examples in the files Tests; what
-- several of these share is in Job.Memory, Application.Samples and Browser.Samples.
--
-- Fuel: only Scheduler.Retry.execute has any; it is given MaxRetries + 1 rounds, or one if
-- MaxRetries is negative, and returns a run for every environment. All other loops are structural.
--
-- Not modelled: context cancellation, except as an error that a call returns; concurrency but for
-- that of redemptions: the Go code has one goroutine, that serves HTTP and is a call that answers
-- at once or keeps serving; overflow of 64-bit integers but for the minutes of a session, since
-- no other modelled value comes near; the float temperature of a model request, kept in
-- thousandths, and the float value of a rate, kept as a fraction, which compares as the float
-- does while the counts stay below 2^17; letters above U+00FF whose lower case is outside ASCII;
-- time zones other than UTC; the escapes of `%q` and strconv.Quote in two error texts; the
-- constructors that only fill a struct (NewRunner, NewPipeline, NewService and their like); the
-- routing of net/http, text/template, latexmk and pdfinfo, which are the environment; and the
-- worker under workers/.
pub mod Base
pub mod Candidate
pub mod Resume
pub mod Application
pub mod ModelProvider
pub mod Job
pub mod Browser
pub mod Scheduler
pub mod Journey
pub mod Service
pub mod Analytics
pub mod Notification
pub mod Config
