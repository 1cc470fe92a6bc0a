-- ===== src/Lib.antt =====
-- The money and order core of the marketplace backend: what an order may do, who may make it do so,
-- where the buyer's money is at each moment, and that the wallets and the double-entry ledger tell
-- the same story.
--
-- Parts, and the files that model them:
-- - Domain.Enums and Domain.Money: backend/src/domain/enums.ts and money.ts. Cents are integers here;
--   the source keeps them as canonical decimal strings, each of which spells one integer
--   (Money.Canonical). Range checks are those of PostgreSQL's bigint.
-- - Common.Errors: the error values of backend/src/common/errors.ts. Messages with a value in them
--   keep their fixed part only.
-- - Common.Validation: the decimal amounts of backend/src/common/validation.ts, on texts as lists of
--   character codes (Prelude.Decimal). A number is printed with at most twenty digits, which is enough
--   for PostgreSQL's bigint.
-- - Db: the tables as association lists under their unique keys (Rows, Keys), the statements of the
--   services with the CHECKs of backend/migrations that can end a transaction (Tables), and
--   transactions as functions from a database to a result and a database (Tx): an error rolls back,
--   as in `inTxWithIsolation` of backend/src/db/pool.ts. Transactions run one after the other, as
--   SERIALIZABLE promises; Retry is `inSerializableTx`, with the others as a parameter. completePayout
--   runs outside a transaction and is two steps. Ids are numbers and new ones come from a counter.
-- - Orders.Transitions, Orders.Policy, Orders.Lifecycle: order-transitions.ts and
--   order-transition.service.ts of backend/src/modules/orders. Ids of users and services are numbers;
--   a user who acts as a payment service is told from one by the role.
-- - Orders.Accounting and Orders.Bookings: accounting.service.ts. An account or an entry is named by
--   its unique code or key.
-- - Orders.Escrow: ledger.service.ts: Lock, Release and Refund are `lockEscrow`, `releaseEscrow` and
--   `refundEscrow`. The payment provider's `capture` is a parameter; nothing is assumed of it.
-- - Wallet: backend/src/modules/users/wallet.service.ts, and in Wallet.Payouts the providers of
--   backend/src/modules/payments/payout.providers.ts.
-- - Orders.Routes: the handlers of backend/src/modules/orders/orders.routes.ts that write, on inputs
--   that the schemas have parsed; Orders.AutoRelease: auto-release.job.ts beside it. `confirm` reads
--   outside the transaction of its release, and nothing runs between the two here.
-- - Marketplace: all these operations as the steps of one system. Openings says which ledger entries
--   the rows on file still allow, Moves and Requests what an operation on one order or one request
--   does to them, Runs is any sequence of committed transactions.
-- - Disputes: dispute-resolution.service.ts of backend/src/modules/disputes: Claim, Finalize and
--   Resolve are its transactions, Stale the recovery of those that stood still. They run with no other
--   transaction between them, and the clock stands still within a call; a run that stopped between
--   two of them is a start of the next one.
-- - Outbox: backend/src/modules/outbox/outbox.worker.ts. Claim and Worker are its statements and the
--   work on a batch, with the event handler as a parameter; Steps is the outbox under any number of
--   workers, each statement one step.
-- - Idempotency: backend/src/modules/idempotency/idempotency.service.ts. What a request does, the
--   tables it writes and the conversion of its body to JSON are parameters.
-- - Orders.Books is the abstract specification of the money: balances of wallets and of accounts and
--   the set of posted keys, with no tables in it. Escrow.Capture, Escrow.Settlement,
--   Escrow.Restitution, Wallet.Balances and Wallet.Topups are the refinements; Orders.Reconciliation
--   and Wallet.Agreement are the agreement of wallets and ledger.
-- - Auth.Redis and Auth.Sessions: the Redis scripts of backend/src/modules/auth/session.service.ts that
--   rotate a refresh token (Sessions) and log out (Logout), and the transaction of a login. A key that
--   expires holds the second from which it is gone. Tokens stand for their hashes, and users,
--   families and sessions are numbers; that new tokens are new is said where it is needed. A script is
--   one step, and Runs is any sequence of them. Redis's own commands are those of its manual.
-- - Tests: concrete runs.
--
-- The services call each other as in the source: the escrow operations call the transition service,
-- which writes the timeline and the outbox, and the bookings, which post to the ledger, all in one
-- transaction. All recursion is structural; the only bound is that on printed digits.
--
-- Not modelled: notifications, cache invalidation, realtime and logging (effects after the commit),
-- texts and display payloads of events and messages, read-only list queries, the other HTTP
-- handlers, the polling of the outbox worker, the hash of a request, pagination, catalog, chat,
-- storage, and the rest of authentication (tokens, passwords, two-factor, the other revocations).
pub mod Prelude
pub mod Common
pub mod Domain
pub mod Db
pub mod Orders
pub mod Wallet
pub mod Marketplace
pub mod Disputes
pub mod Outbox
pub mod Idempotency
pub mod Auth
pub mod Tests
