-- ===== src/Lib.antt =====
-- SurfGate: the deterministic core of a gateway for remote browsers.
--
-- The program takes a request for a browser, chooses a provider and a runtime for it (the
-- router), allocates it with at most one fallback to another runtime, keeps the session's
-- lifecycle, relays its messages through a bounded pump, and runs managed tasks under leases.
-- The router, the fallback, the session and the task are pure functions on records that schemas
-- check before and after; the services around them do the input and output.
--
-- The files and the code they are about, with paths from the repository's root:
--   Contracts  packages/contracts/src: ids.ts (Ids), capabilities.ts (Capabilities), tasks.ts
--              (Tasks); Text has the strings and the patterns that the schemas use
--   Task       packages/task-core/src/task-state.ts: the record and its schema (Record),
--              applyTaskTransition (Transition); Step is the specification, and Invariant, Steps and
--              Lifetime have the proofs
--   TaskStore  packages/task-postgres/src/repository.ts: the tables and transactions
--              (Transaction), rows and statements (Database), createIdempotent and the lookups
--              (Create, Sessions), transition and insertArtifactAndComplete (Change), claimNext
--              (Claim); packages/task-core/src/interfaces.ts: ArtifactRecordSchema (Artifact);
--              Sound, Effects, Changed, Exhausted, Exclusive, Claimed, Limit, Idempotent, Retry and Quota have the
--              proofs
--   Session    apps/api/src/domain/session.ts: the record and its schema (Record),
--              applySessionTransition (Transition); Step, Invariant, Steps and Lifetime as above;
--              database/postgres-session-repository.ts, transitionSessionForTenant (Repository;
--              Reached and Answers have the proofs); reconciliation/session-reconciler.ts,
--              SessionReconciler (Reconciler; Justified is the specification, and Reconciled has
--              the proofs)
--   Provider   packages/provider-core/src: provider-descriptor.ts (Descriptor),
--              provider-health.ts (Health), provider-error.ts (Error)
--   Router     packages/router/src: reason-code.ts (Reason), policy-v1.ts (Policy),
--              candidate.ts (Identity for the identifiers, Candidate), routing-input.ts (Input),
--              eligibility.ts (Eligibility/Rules, proofs in Reasons and Sound), scoring.ts
--              (Scoring/Score, proofs in Scoring/Range; the ranking in Ranking/Rank),
--              routing-decision.ts (Ranking/Decision), router.ts (Ranking/Decide; proofs in
--              Ranking/Judged, Order, Ranked, Unordered and Sources), fallback.ts
--              (Fallback/Classify, State, Transition; proofs in Invariant, Moves, Bounded)
--   Security   packages/security/src/relay-token.ts: TOKEN_PATTERN (Format), the claims and their
--              JSON (Claims), createRelayTokenService (Token); Issued and Verified have the proofs;
--              target-policy.ts: the block list and host names (Targets/Addresses),
--              createTargetPolicy (Targets/Policy); Targets/Joined, Permitted and Chain have the
--              proofs; redaction.ts: SENSITIVE_KEYS (Redaction/Keys), redactSensitiveData
--              (Redaction/Visit); Redaction/Clean, Unseen, Parts and Total have the
--              proofs
--   Relay      apps/relay/src: message-pump.ts, BoundedMessagePump (Pump; Invariant and Bounds,
--              Flow and Order have the proofs); redis-coordinator.ts, createRelayCoordinator
--              (Coordinator, over the commands of Redis in Redis; Attempts and Controller have the
--              proofs); authorization.ts, authorizeRelaySession (Authorize)
--   Common     what the others share: tests on numbers, equality, results, sorting
--
-- How the code is read:
--   * A schema is a function that returns what it parses, or `none` where it throws; one that
--     changes nothing is a Boolean test. Types that TypeScript checks are not checked again, and
--     the defaults of a schema are filled in already.
--   * A string is the list of its UTF-16 code units. Patterns are tests on them.
--   * A timestamp is its number of milliseconds; that it is written as an ISO date is not modelled.
--   * Scores are in thousandths of a point, the unit to which the code rounds; Router/Scoring
--     says why the quotients are taken exactly. Signals are whole numbers.
--   * A function that throws returns `none`, or an error where the code tells errors apart.
--   * A version is a number up to the largest safe integer; the theorems that need room for one
--     more step say so.
--   * The pump's sockets and callbacks are a log of effects. The callback of a send comes after the
--     call has returned, as the WebSocket library does it. A failure callback that closes the
--     pump is the event of closing right after, since nothing of the pump changes in between.
--   * A transaction of the task repository is a function from the tables to an error, with which
--     nothing has changed, or to an answer and the new tables. Its statements run on one state of
--     the tables; write_transition and claim_of_tenant are the parts of transition and claimNext
--     behind a read that another transaction may have outdated, and are stated for any tables.
--     The constraints of apps/api/migrations/0008-managed-tasks.sql that a statement of the
--     repository can meet are its errors. Which rows are locked, and the database's clock, are
--     arguments.
--   * Redis, HMAC, base64url and JSON are not part of the repository: they are the records Redis
--     and Crypto of operations, with RedisLaws, CryptoLaws and ReadsBack for what their
--     documentation says, each with a small instance in the tests. Redis runs a script, and each
--     command, at one instant of its clock.
--   * The parser of URLs, isIP, the test of one subnet and the resolver of names are the record
--     Platform and an argument. The resolver's calls are numbered and each may answer something
--     else, after a time of its own; PlatformLaws says that isIP takes no empty text and no NUL.
--   * The reconciler keeps a log of the calls that have answered. Whether a call fails may depend
--     on the log, and a failed call is taken to have done nothing. A transition meets the rows
--     that the repository reads, updates and reads again, each of which may be another, since others
--     commit between the statements; only the log is the reconciler's.
--   * A value that is redacted is a heap of objects, which may hold each other in cycles; the
--     function that redacts a string is an argument, so the theorem holds for any. The visit has
--     fuel for its depth, one more than the number of objects, which is proved to be enough: an
--     object is entered once. Every other loop is structural recursion, and has no fuel but the
--     count of the passes that the code itself counts.
--
-- Not modelled: HTTP and WebSocket servers, databases, Redis, object storage, encryption,
-- telemetry, and the adapters of the providers, which are input and output; the quotas of
-- requests, the session and task services, the worker's loop, the validation of the
-- configuration, and the patterns of redactString.
pub mod Common
pub mod Contracts
pub mod Task
pub mod TaskStore
pub mod Session
pub mod Provider
pub mod Router
pub mod Security
pub mod Relay
