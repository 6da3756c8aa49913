-- ===== src/Lib.antt =====
-- A verification library for tjc-be-rag-core-api, the domain backend of pull-request analyses. It
-- models the parts of app/src that decide: who gets a job and when, who may see a project, and how
-- results are classified and ranked. Adapters (HTTP, database client, GitHub, LLM providers) are
-- left out or are parameters.
--
-- Base: the shared Boolean tests, lists and texts.
--
-- Jobs (app/src/jobs): the durable queue. Jobs has the table as a list of rows, the partial unique
-- index of the migration jobs_dedupe_key, and the statements create, insertDeduped, claimNext,
-- touchLock and fencedUpdate of jobs.repository.ts; Jobs.Failure has complete, fail, reschedule,
-- returnToPending, releaseStale, expedite and updatePendingPayload; Jobs.Service has the worker
-- loop of jobs.service.ts (registerHandler, enqueue, enqueueDeduped, sweepStaleLocks, runOnce,
-- notifyExhausted). Each SQL statement is one step on the whole table. Clocks and fresh ids are
-- arguments. The payload is a type parameter. A handler is a function that returns how it ended and
-- the table at its end, so that what the heartbeat and other workers write meanwhile is part of it.
-- Jobs.Index, Jobs.Claim, Jobs.Fencing, Jobs.Attempts and Jobs.Service.* hold the proofs.
--
-- Errors (app/src/common/errors): the codes of the API and how a request ends.
--
-- Access (app/src/project-access, app/src/common/persistence/accessible-project.filter.ts): Access
-- has the tables projects and project_access, the predicate accessibleProject and the reads and
-- writes of project-access.repository.ts; Access.Organization has organization-access.resolver.ts
-- over the port of app/src/github-app/github-access.port.ts, whose answers are a record of
-- functions; Access.Grants has deriveRole, grantOnEntry, revoke and reverify, where a transaction
-- carries what others commit between its reads and its write; Access.Require has require and
-- requireForResource; Access.Guard has project-role.guard.ts; Access.Candidates has
-- listMemberOrganizations and syncOrganizationProjects. The other modules of Access hold the
-- proofs. The read of a descendant's owner (findProjectIdOf) and toLowerCase are arguments.
--
-- Identity (app/src/common/auth): the links of users to GitHub accounts.
--
-- Idempotency (app/src/common/idempotency): one creation for each scope and key. The hash of a
-- request, the check of a UUID, the creation and the rebuilt response are arguments.
--
-- Subscriptions (app/src/realtime/project-subscriptions.service.ts): the sockets that follow
-- projects; it reads visibility from Access. The rooms that sockets are told to leave are a list.
--
-- Runs (app/src/analysis-runs): the states of an analysis run, in the statements of
-- analysis-runs.repository.ts that the service calls; each call of the service is one step on the
-- tables, with the run as its caller read it. Two starts whose statements interleave are not
-- modelled.
--
-- Lifecycle (app/src/access-sync/binding-lifecycle.service.ts): what goes when a binding is revoked
-- or a project hidden; it works on the store of Access and the registry of Subscriptions at once,
-- and which deletions the database refuses is an argument.
--
-- Organizations (app/src/access-sync/organization-lifecycle.service.ts): the hiding and the
-- reconciliation of an organization, and the pause of an installation.
--
-- Webhooks (app/src/github-webhooks/github-webhooks.service.ts): the events of pull requests, over
-- Runs; the calls of the jobs service are kept as a log. Events: the events of access, repositories
-- and installations (access-events.service.ts, repository-events.service.ts,
-- github-webhooks.service.ts), over Lifecycle, Organizations and Reverify.
--
-- Evidence (app/src/evidence/evidence-mapping.ts, app/src/sandbox/sandbox-evidence-facts.ts,
-- app/src/experiments/experiment-failure-fact.ts): the readers of persisted values, the facts of an
-- execution and the candidates of a retrieval; what takes secrets out of a text is an argument.
--
-- Sanitize (app/src/common/sanitize-failure-message.util.ts): the cleaning of a message; its
-- regular expressions are an argument.
--
-- Reconciliations (app/src/access-sync/access-reconciliation.job-handler.ts): the pass of the
-- hourly reconciliation through the bindings; what GitHub answers and the database refuses are
-- arguments, and its loop has a round for each unit of the budget, since each round checks one
-- binding at least.
--
-- Reverify (app/src/access-sync): the keys, the payload and the handler of the job that verifies
-- records again; the service that verifies a scope is an argument. Texts are lists of code units.
--
-- Sandbox (app/src/sandbox/map-sandbox-result.ts): the verdict on a generated test; it cleans
-- messages by Sanitize.
--
-- Experiments (app/src/experiments/attempt-recovery.ts): what to do with a slot of a paired
-- repetition.
--
-- Contexts (app/src/retrieval/context-builder.service.ts): the candidates and rules that go into
-- the context of a generation, within a budget of tokens, and their audit.
--
-- Fingerprints (app/src/functional-knowledge/behavior-fingerprint/behavior-fingerprint.ts): the
-- canonical form of a construct, and the constructs that a change adds.
--
-- Comparisons (app/src/retrieval-comparisons): the ranking of a mode and its precision and recall;
-- the formula of the combined score is an argument.
--
-- Not modelled: the rest of the hourly reconciliation, the analysis of snapshots, the bundle of
-- evidence, generation, the handler of experiments, publications and the questions of functional
-- knowledge; adapters, controllers and configuration are glue.
--
-- Bounds: times, attempts and counts are natural numbers; JavaScript's numbers are exact on the
-- range that they take. Loops are structural over lists, and only that of Reconciliations has fuel.
-- A database that does not answer is not modelled, nor is the order in which a table lists rows
-- that tie.
pub mod Access
pub mod Base
pub mod Comparisons
pub mod Contexts
pub mod Errors
pub mod Events
pub mod Evidence
pub mod Experiments
pub mod Fingerprints
pub mod Idempotency
pub mod Identity
pub mod Jobs
pub mod Lifecycle
pub mod Organizations
pub mod Reconciliations
pub mod Reverify
pub mod Runs
pub mod Sandbox
pub mod Sanitize
pub mod Subscriptions
pub mod Webhooks
