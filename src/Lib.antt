-- ===== src/Lib.antt =====
-- The backend of Payapays: a prediction market on Stellar. This library models the core services of
-- backend/src and proves what they keep.
--
-- The services are handlers of a NestJS server. Each reads and writes tables through TypeORM, calls
-- the market contract through backend/src/soroban/soroban.service.ts, and throws an HTTP exception
-- where it refuses. A handler is an `Action` (Base/Action.antt): a function of a store, a record of
-- the tables it touches, which returns a value or an error with the new store. What was written
-- before a throw stays written, unless the source runs in a transaction.
--
-- Base            numbers, signed amounts, lists, and the actions
-- Table           a database table as the services see it: an interface with laws, which are what
--                 the code relies on in TypeORM and PostgreSQL; Table/Memory implements it
-- Entities        the rows of backend/src/users/entities, markets/entities, predictions/entities
-- Gateway         the calls of the contract, as a log; each answer is an argument
-- Predictions     backend/src/predictions/predictions.service.ts: submit, findById, updateNote, claim;
--                 Status has computeStatus and the filter of findMine, Ledger the books,
--                 Writing, Submit, Claim and Requests what the operations keep
-- Markets         backend/src/markets/markets.service.ts: createMarket, update, resolveMarket,
--                 cancelMarket, pauseMarket, resumeMarket, comments, bookmarks; Bulk has createBulk,
--                 Bookmarks the relation that bookmarks stand for,
--                 Stats getPredictionStats with Counts on its numbers, Flags, Changes and
--                 Final what becomes of a market
-- Competitions    backend/src/competitions/competitions.service.ts: joinCompetition, leave, update;
--                 Status has the status and its filter, Rank getMyRank, Members and Joining the counts
-- Idempotency     backend/src/common/idempotency: the service and the interceptor, as steps that
--                 requests take in any order; Holding, Exclusion and Replay what the keys ensure
-- Webhooks        backend/src/webhooks/services/webhook-dispatcher.service.ts: emit, attemptDelivery,
--                 scheduleRetry; Delivery has the life of a log, Failing its end against an
--                 endpoint that fails, Emit what is queued
-- Seasons         backend/src/seasons/seasons.service.ts: findActive, create, finalizeSeason; Separate
--                 has the overlap of active seasons, Finalize the end of a season
-- Moderation      backend/src/flags/flags.service.ts: createFlag, resolveFlag; Flagging has the open
--                 flags, Resolving what a resolution does
-- Disputes        backend/src/disputes/disputes.service.ts: create, resolve, checkDisputeWindow, and
--                 the background records on chain as tasks; Window and Records what they keep
-- Finalizer       backend/src/matches/creator-event-finalizer.service.ts: triggerFinalization, with
--                 Ticks on what one tick does
-- Indexer         backend/src/indexer/indexer.service.ts: storeAndProcessEvent, retryFailedEvents; Poll
--                 has pollContractEvents and reindex, Reconciliation the runReconciliation of
--                 reconciliation.service.ts; Records, Rows, Recording and Once are about how often an event is
--                 handled, Poll/Checkpoint and Reconciliation/Reaching about the checkpoints
-- Matches         backend/src/matches/entities and the payloads about them; Handlers has the handlers of
--                 indexer.service.ts for EventCreated, MatchAdded, UserJoinedEvent, PredictionSubmitted,
--                 MatchResultSubmitted and EventCancelled, Grading the points against those of
--                 contracts/users/src/storage_types.rs, Results what a result does, Consistent
--                 what these handlers keep, Joins a join that the indexer retries, Payouts has the handler
--                 of EventFinalized
-- Leaderboard     backend/src/leaderboard/leaderboard.service.ts: recalculateRanks; Sorting, Ranking and
--                 Bounds about the ranks
-- Achievements    backend/src/achievements/achievements.service.ts: checkAndUnlockAchievements;
--                 Unlocking what a user has after a check
-- ApiKeys         backend/src/auth/api-key.service.ts: create, revoke, validateKey, touchLastUsed; Created
--                 and Revoked what becomes of a key
-- Oracle          backend/src/oracle/webhook.service.ts: the queue of submitted results with its retries;
--                 Drain and Records about the queue and the stored records, Stats the numbers of
--                 backend/src/oracle/oracle.service.ts
-- Tests           runs on tables in memory
--
-- A request reads the clock once, as `now`. Ids, addresses, hashes and texts are numbers, since they
-- are only compared and copied. Requests to one service run one after the other, except in
-- Idempotency, where their accesses to the database interleave, and in Disputes, where the background
-- tasks run at any time between requests. Polls and retries of the indexer are steps that do not
-- overlap, and a retry reads its row anew; which saves of its rows fail is an argument. Attempts of
-- the oracle do not overlap. Retries of the oracle and of webhooks read the clock again when an attempt
-- ends. Reads of the database succeed. A stake, a pool and a staked total that 64 bits do not hold are
-- refused by the database. No definition runs on fuel: the loops are over lists. Rows leave out
-- columns that no modelled operation reads or writes.
--
-- Not modelled: the transport to the contract, the HTTP client, hashes and signatures, the decorators
-- of the controllers, pagination and cached pages, how a payload's values are read from the chain's
-- format, the batch of pending webhook deliveries that a round takes up, and
-- the services that the manifest lists as left out.
pub mod Base
pub mod Table
pub mod Entities
pub mod Gateway
pub mod Predictions
pub mod Markets
pub mod Competitions
pub mod Idempotency
pub mod Webhooks
pub mod Seasons
pub mod Moderation
pub mod Finalizer
pub mod Disputes
pub mod Indexer
pub mod Matches
pub mod ApiKeys
pub mod Oracle
pub mod Leaderboard
pub mod Achievements
pub mod Tests
