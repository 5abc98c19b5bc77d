-- ===== src/Lib.antt =====
-- BloxOs: the hub stages new agent builds onto the machines of a fleet, and each agent refuses to go
-- back to an older or an ambiguous build. This library models that core and proves what it promises.
--
-- The parts and how they meet. The hub keeps, for each platform, one row of candidate, generation and
-- stage, and one row for each machine that the candidate was offered to. A machine first reserves a
-- slot; one machine, the canary, is admitted at stage 0, and two at a time afterwards. The hub files
-- what each connection reports and measures as evidence; the scheduler's tick promotes a slot whose
-- evidence covers the dwell, fails one whose window ended, and advances the stage. On the other side
-- the agent keeps a release floor in a file: the last accepted release and the build that set it. It
-- establishes the floor at boot, verifies every candidate against it, and raises it before a restart.
-- Agents report their floor, and the hub withholds what the agent would refuse. Agents also send their
-- power history in batches of numbered buckets, which the hub commits and acknowledges by prefix.
--
-- Files, and the code they are about:
--   Base           Boolean tests, texts as lists of character codes, keyed tables, errors as values.
--   Rollout        hub/agent_rollout.go.
--     Tables       the tables of hub/migrations.go, loadPlatform, failSlotTx, the constants.
--     Reserve      reserve, releaseBeforeSend, markOffered, observeRunningCandidate, withhold.
--     Progress     tick, resume, reconcileAfterRestart.
--     Evidence     rolloutEvidence, observeCandidateReport, noteMetrics, observeTelemetry,
--                  forgetConnection, forgetEvidence, dwellSatisfied.
--     Sending      claimSend, releaseSend.
--     Report       status, rolloutSummary.
--     Invariant, Updates, Failing, Ticking, Reserving: what holds of the tables and is preserved.
--     Reach, Safety, Forward: every order of the operations.
--     Dwell, Completing, Deliveries, Promotion: what a proven dwell is worth.
--     Operating, Counting: operators, restarts, sends and the counters.
--   Release        agent/release_floor.go and hub/release_policy.go.
--     Floor        releaseFloor, permits, covers.
--     File         parseReleaseFloor, isHexSHA256, the text of writeReleaseFloor.
--     Store        readReleaseFloor, writeReleaseFloor, seedReleaseFloor, raiseReleaseFloor.
--     Boot         releaseFloorState, seedReleaseFloorAtBoot, currentReleaseFloor,
--                  verifyCandidateRelease, checkStagedRelease, checkAdvisoryRelease.
--     Policy       releaseAnnounceBlocked.
--     Marker       ReleaseMarker, ExtractReleaseReader and parseMarkerBody of
--                  proto/updatesigning/release.go.
--     RoundTrip, Valid, Ahead, BootLaws, Staged, Enabling, Agreement, Scanning, Extracting,
--     Numbering: proofs.
--   Power          hub/power_history.go and agent/power_journal.go.
--     Ingest       commitPowerBatch, declarePowerGapsForMissing, declarePowerGap, powerAckedThrough.
--     Retention    prunePowerHistory on a stream, and what batches and prunings make of a stream.
--     Gaps, Sorted, Walk, Rounds, Prefix, Commit, Acks, Replay, Later, Delivery: what is covered, kept
--                  and promised.
--     Journal      powerSnapshot, powerRecordLive, pendingBatch, ack.
--     Pending, Uplink: what a batch holds and when there is none.
--   Frame          hub/power_history.go and proto/powerhistory/types.go: the upload of a batch.
--     Wire         the frame as it is decoded, int64 and float64.
--     Check        validatePowerBatch, validPowerStats, validPowerSources, validPowerID.
--     Accept       commitPowerHistoryFrame around the commit of Power.Ingest.
--     Passing, Ordered, Once, Answering, Again, Statistics: proofs.
--   Storage        agent/power_journal.go: the journal's files.
--     Disk         writePowerFileAtomic, writeState, rotateStream, removeOrphans, loadIdentity.
--     Enforce      enforce, compactSegment.
--     Recover      recover, readSegment.
--     Append       openPowerJournalWith, append, ensureOpen.
--     Log          the system of the journal, its state files and the sequences given out.
--     Good, Rotating, Reading, Recovered, Assigning, Reopened, Fresh, Bounds, Durable: proofs.
--
--   Access         hub/rbac.go, hub/auth.go, hub/password.go: who may call the hub's API.
--     Roles        the constants, roleScopes, routeScopeRequirements, publicAPIRoutes.
--     Permission   permissionMiddleware, lookupUserRole, normalizeUserRole.
--     Audit        auditRBACRouteCoverage.
--     Gate         jwtMiddleware, credentialRotationMiddleware, and their order in hub/main.go.
--     Setup        generateSetupToken, handleSetup, with requests side by side.
--     Credentials  handleLogin, handleChangePassword, handleChangePIN, verifyTerminalPIN.
--     OneAdmin, Passing, Granting, Rotating: proofs.
--
--   Enrollment     hub/agentws.go, agent/credential_handoff.go: install tokens and credentials.
--     Tokens       validateAgentToken, checkTokenExpiry, deleteExpiredTokens, the row of a new token.
--     Credentials  consumeTokenAndStoreCredential, stageTargetedCredential, revokeAgentCredential.
--     Secrets      promotePendingCredentialCASAt, lookupActiveCredential, validateAgentSecret.
--     Handoff      the agent's files: handleEnrolledFrame, handleEnrollmentConfirmed.
--     SingleUse, Presenting, Recovering, Confirming: proofs.
--
-- How the model reads the code. A table is a list of rows in the order in which they were inserted, the
-- newest first; every statement of the rollout is keyed by the platform, so a model is of one platform.
-- A database error ends an operation with nothing written, or rolls it back, so it is no step. A tick
-- is one step, although its statements commit one by one. Deleting a machine, and statements by hand,
-- are no steps. Times are unix milliseconds, and a duration between two of them stops at 0; the clock
-- may stand still or go back between operations. A connection is a number that stands for the pointer,
-- so evidence is a function of the machine and the connection. Letter case is folded for ASCII letters
-- only, which is what a SHA has. Messages for people are constructors with the data they carry.
-- Release numbers are natural numbers below the bound that the code checks; strconv.ParseUint's range
-- of 64 bits is written out. The floor file can be absent, unreadable or hold any text, and a write can
-- fail at each of its steps; that a crash brings the old file back after the directory could not be synced
-- is not modelled. Recursion is structural except in four places that take
-- fuel: the decimal digits, one more than the number, which shrinks tenfold; the scanner's chunks, one
-- more than the bytes, as every chunk but the last takes a byte or more; the rounds of
-- powerAckedThrough, one more than the gaps and the records, as every round but the last passes one;
-- and the halving of a batch, one more than its buckets.
--
-- A power stream is the rows of one stream of one machine. A finite float64 is a multiple of the smallest
-- one. What a frame decodes to, the JSON of a bucket, whether re-encoding a stored payload changes it, and
-- the encoded size of a batch are arguments. A pruning takes the rows that it is told are too old. The journal of the agent carries its state files along: each replacement of
-- a file is done, fails, or reports an error and is done all the same, and a crash is an opening of
-- what is there. The contents of the segment files are an argument of the opening, as lines that
-- decode to an entry or do not.
--
-- The hub's handlers are functions of what their calls outside answer: the row of a query or its error,
-- the claims of a valid token, whether bcrypt accepts a password, whether the rate limiter lets a
-- request through.
--
-- Not modelled: the network and the database driver, the ed25519 signatures, the opening of files by the
-- scanner (what it reads of a binary is an argument of the agent's checks), locks, logs, and the parts
-- of the program that the library does not name.
pub mod Base
pub mod Rollout
pub mod Release
pub mod Power
pub mod Access
pub mod Enrollment
pub mod Frame
pub mod Storage
