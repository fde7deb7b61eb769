-- ===== src/Lib.antt =====
-- A model of the money path of the Telegram mini app: a player claims a deposit, an admin approves it,
-- the ledger books the claim, a worker credits the player's account at the Ichancy cashier, a sweep
-- cleans up what was left behind, and a relay publishes the messages of all of them.
--
-- The program's parts, and the files that model them:
-- - Types, Db, Db/Rows: the enums and tables of prisma/schema.prisma that the modelled code touches, the
--   tenant in context (src/core/tenant/tenant.storage.ts) and the audit trail
--   (src/core/audit/audit.service.ts). A transaction (`runInTransaction`) is a function from the
--   database to a result: what throws inside it keeps nothing.
-- - Deposit/StateMachine: src/modules/deposit/deposit-state.machine.ts. `transition` is the only writer
--   of a deposit's status: legality of every declared status, compare-and-swap, history row.
-- - Ledger/AccountCodes, Ledger/Posting, Ledger/Rules, Ledger/Validation: src/core/ledger/account-codes.ts,
--   ledger.types.ts, posting-rules.ts and posting-validation.ts.
-- - Ledger/Repository: src/core/ledger/ledger.repository.ts and account-registry.service.ts. `post`
--   looks for an earlier posting of the key (Lookup), resolves and locks the accounts (Accounts), walks
--   the entries and guards the signs (Compute), and writes.
-- - Money: src/common/helpers/money.util.ts: decimal texts and minor units (Parse, Format), division in
--   five rounding modes (Divide), basis points and the small operations (Amounts).
-- - Outbox: src/core/outbox/outbox.service.ts, the producer's side. Outbox/Relay: the relay
--   (outbox-relay.service.ts) and its statements (outbox.sql.ts) on a table of rows. `claim` picks the
--   rows that are due, first by id; `run_once` publishes them and marks them; `reap` takes rows back from
--   workers that died. Outbox/Dispatch: outbox-dispatch.processor.ts, the consumer of the queue.
-- - Deposit/Policy: src/modules/deposit/services/deposit-policy.service.ts with its queries
--   (repositories/deposit.repository.ts): exclusion, the player's status, open deposits, and the limit in
--   force with its ceiling, cooldown and cap.
-- - Deposit/Creation: `create` of src/modules/deposit/services/deposit.service.ts. `create_deposit` asks the
--   operator's row and the payment-method port, then runs the transaction `open_deposit`.
-- - Deposit/Submission: `submitProof`, `attachStoredProof` and `cancel` of the same service: the evidence
--   gate, the proof's row, and `finish_submission`, which moves the deposit and leaves the admin's message.
--   Deposit/Submission/Stored: photos from the bot. Deposit/Submission/Upload: uploads and cancelling.
-- - Transactions: src/core/prisma/retry.util.ts and src/core/ledger/serialization-retry.util.ts, the loops
--   that run a transaction again after a write conflict, as functions of what each run comes to.
-- - Deposit/Credit: src/modules/deposit/services/deposit-credit.service.ts. `credit` is a job that
--   calls the cashier between transactions. A job that throws keeps what it did, so its state stands on
--   both outcomes: the database, the POSTs it sent, and how many reads, lock extensions and statements
--   it made. A `World` holds what the n-th call of each kind is answered, and `others`, what everybody
--   else does to the database before the job's n-th statement.
-- - Admin: src/core/auth/admin-authority.ts, and the evaluator of
--   src/modules/admin/services/admin-approval-limit.service.ts down to its decision.
-- - Deposit/Review: src/modules/deposit/services/deposit-review.service.ts: claim, release, reject, and
--   `approve`, which asks the evaluator, parks an amount above the threshold for a second admin, and
--   otherwise moves the deposit, books the claim and asks for the credit.
-- - Deposit/Retry: src/modules/deposit/services/deposit-retry.service.ts, a credit that an admin runs
--   again. Deposit/Sweep: deposit-sweep.service.ts and deposit-expiry.cron.ts, the three passes over
--   forgotten deposits, each candidate in a transaction of its own.
-- - Deposit/Proofs: the distance and the bands of perceptual hashes (src/core/file/image.util.ts), on which
--   the duplicate check of proofs rests.
-- - Idempotency: src/core/idempotency/idempotency.service.ts, the records that keep a request from running
--   twice. `begin` inserts first and reads what refused it; a record is owned by whoever holds its lock.
--   The call of `requireEffectiveTenantId` is the tenant that `begin` takes.
--   Idempotency/Reaper: idempotency-reaper.service.ts and the batches it deletes.
--   Idempotency/Interceptor: idempotency.interceptor.ts, which checks a request's key, and runs the route's
--   handler or answers with what is stored. A handler is a parameter, as is how the statements that follow
--   it fare.
-- - Examples: concrete inputs.
--
-- How they interact: an approval, a re-run, the sweep and the credit worker move the deposit by
-- `transition`, book by `post`, and leave their messages by `enqueue`, all in one transaction that
-- also writes the audit trail. The relay works on the rows that `enqueue` left (`new_row`), outside
-- of those transactions.
-- The idempotency records stand apart: they are written outside of those transactions.
--
-- Numbers: `bigint` amounts are integers without bound, times are milliseconds. Two things run
-- on fuel: the digits of a decimal numeral, with one more than the number, and the bits of a perceptual
-- hash, with the 64 that it has.
--
-- Parameters: sha256 of a posting's JSON (`request_hash`), uuids (`ids`), the clock (`now`), the cashier,
-- the lock and the account linker, the queue (whether it took a batch), random draws, and what the handlers
-- of messages do. One clock reading stands for the several of one transaction.
-- `BigInt(task.amountMinor)` is done: a task holds the integer that its decimal string denotes.
--
-- Whether the database lets a transaction go on after a failed statement is a parameter of `open_deposit`
-- (PostgreSQL does not). The payment-method module is the record `PaymentMethodPort`.
-- The digest of a request (`hashRequest`) and the encoding of a response as JSON are functions that the
-- interceptor takes.
--
-- Left out: prose, labels and free-form JSON (`reason`, `description`, `metadata`, snapshots of the
-- audit trail), log lines, row and advisory locks (elsewhere a transaction is one step), and the rest of
-- the repository: HTTP and Telegram transport, setting of approval limits, players and reports. A tick of
-- the relay is one step: a worker that is still publishing when the reaper takes its rows back is not
-- covered, nor is the late update by id alone that such a worker may make. Of the books, the deferred
-- zero-sum trigger is not modelled (the validator demands the same before the writes); the keys of
-- postings are a table of their own, on which the reaper works as `reap_keys`. A database error in the
-- middle of `begin` is not modelled. Amounts that come as floating-point numbers (`fromUnsafeNumber`) and
-- the index of perceptual hashes in Redis are not modelled either.
pub mod Admin
pub mod Db
pub mod Deposit
pub mod Examples
pub mod Idempotency
pub mod Ledger
pub mod Money
pub mod Outbox
pub mod Prelude
pub mod Transactions
pub mod Types
pub mod Uuid
