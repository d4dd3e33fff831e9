-- ===== src/Lib.antt =====
-- The backend of a point exchange: users deposit points, for which tokens are minted on a chain, and
-- withdraw tokens, for which points are granted. This library models the services that move balances,
-- their HTTP interface, the contract that moves the tokens, the script that brings the events of the
-- chain to the services, and the hooks and routes of the frontend that ask for exchanges.
--
-- Parts. A method of a service runs in the monad of `World`: it reads and changes the committed
-- database, the database that an open transaction sees, the cache, the sent messages and the held
-- locks, and it may throw. `World` also has `transaction` (typeorm) and `with_lock`
-- (backend/src/modules/redlock/redlock.service.ts). The services call the repositories, the
-- repositories call the ORM, and the ORM, the cache, the lock, the broker and the chain are the
-- operations of the record `Platform` with the laws they document: any of these calls may be rejected,
-- where the source's promise may be.
--
-- Files.
-- - Common: the helpers. Common/Int has the integers for BigInt.
-- - Platform: what comes from outside, and the messages (backend/src/modules/rabbitmq/dto).
-- - Entities: the rows and enums (backend/src/modules/*/entities, backend/src/modules/*/constants.ts).
-- - World: the state, the monad, transactions and locks; World/Rules and World/Progress have their
--   proof rules.
-- - Repositories/*: one file for each repository of backend/src/modules/*/repositories, with the
--   methods under their names: findByUserId is `UserPoints.find_by_user_id`.
-- - Point: PointService (backend/src/modules/point/point.service.ts). Point/Dto has the DTOs and the
--   map methods; Point/Balance getPointBalance, increaseUserPointBalance
--   and the message handler of backend/src/modules/point/point.controller.ts; Point/Exchange
--   depositPoints, withdrawPoints, consumePoint and grantPoint; Point/Histories the lists and details;
--   Point/Accounts createUserPoint and validateUser. The proofs are in Point/Steps (what one write
--   does), Reads, Deposit, Withdraw, Consume, Grant, Increase, Progress, Solvency,
--   Conservation, Hazards, Creation and AccountLaws.
-- - Token: TokenService (backend/src/modules/token/token.service.ts) and SwapService
--   (backend/src/modules/swap/swap.service.ts), which call each other. Token/Records has the
--   transaction records, Token/Swaps the swap histories, Token/Process the two methods that chain
--   events call. The proofs are in Token/Steps, Direct, Settle, Mint, Burn, Atomic and
--   Pending.
-- - Chain: BlockchainService (backend/src/modules/blockchain/blockchain.service.ts) over ethers.
-- - Ledger: the account book that PointService refines. Ledger/Book has the book and its entries,
--   Ledger/Calls the calls of the service and the entries that they make; the proofs are in
--   Ledger/Rows, Refines, Runs, Agreement and Steady (the last two on the cache).
-- - Scheduler: SchedulerService (backend/src/modules/scheduler/scheduler.service.ts).
--   Scheduler/Machine has the state of a run, its monad, and the indices of the wallets;
--   Scheduler/Messages what is done with one message; Scheduler/Rounds the loop and the queue of
--   backend/src/modules/rabbitmq/rabbitmq.service.ts; Scheduler/Handler the rest of
--   processPointSwapTransactions and handlePointSwapTransaction (`handle_swap_transaction`). The
--   proofs are in Scheduler/Steps, Nonces, Pushes, Batches, Loop and Ends.
-- - Redis: RedisService (backend/src/modules/redis/redis.service.ts) over the redis client.
-- - Api: the routes of the controllers (backend/src/modules/*/*.controller.ts,
--   backend/src/app.controller.ts); a method that a message or the clock calls is with its service.
--   Api/Routes has the table of routes and the choice of one, Api/Controllers the methods,
--   Api/Shadow and Api/Reachable the proofs.
-- - Polling: the script that reads the events of the chain and posts them to the backend
--   (blockchain/scripts/eventPollingToPointServer.ts). Polling/Network has what it takes from
--   outside, Polling/Events the reading and the grouping of logs, Polling/Deliver processEvents,
--   Polling/Loop the file with the last block, the health check and the loop; Polling/Backend makes
--   the backend, through its routes, the server that the script posts to. The proofs are in
--   Polling/Groups, Jobs (a range of blocks as a list of requests), Delivery, Requests, Coverage,
--   AtLeastOnce, Ranges, CatchUp and Skipped; Token/Twice has what the backend does with a request
--   that it gets again.
-- - Contract: the contract of the points (blockchain/contracts/PointManagerImpl.sol).
--   Contract/Manager has its state and functions, Contract/Calls the transactions, in batches too;
--   the proofs are in Contract/Nonces, Payments, Replay and, on the tokens that the backend counts,
--   Rounding.
-- - Frontend: hooks of the frontend. Frontend/Web has what they take from the browser and the calls
--   that they make, Frontend/Hooks the state and the monad of useSwap, Frontend/Swap useSwap and
--   signEIP712 (frontend/app/components/hooks/useSwap.ts, useSignEIP712.ts), Frontend/Storage the
--   storage (frontend/app/utils/storage/local-storage.ts), Frontend/User useUser
--   (frontend/app/components/hooks/useUser.ts). The proofs are in Frontend/Backed, Posts and Signed
--   for useSwap and in Frontend/Accounts for useUser. Frontend/Points has usePoint
--   (frontend/app/components/hooks/usePoint.ts) and the guards of its buttons
--   (frontend/app/components/PointPanel), Frontend/PointLaws what its statuses show;
--   Frontend/PointRoutes and Frontend/Paid have it on the routes and the backend.
-- - Gateway: the routes of the frontend (frontend/app/api/point/v1) and their call of the backend
--   (frontend/app/utils/api-config.ts): Gateway/Texts has parseInt and BigInt, Gateway/Decimal the
--   text of a number, Gateway/Routes the POST and Gateway/Queries the GET handlers; Gateway/Backend
--   makes the backend, through its routes, the server that they call. The proofs are in
--   Gateway/Amounts, Posts and Guarded.
-- - Tests: concrete platforms, worlds and servers, and runs on them.
--
-- Representation. Keys, addresses, hashes, signatures and texts are natural numbers, since they are
-- only compared; in a filter, 0 is the empty text. Redis has keys, and Gateway texts, of
-- characters. Amounts are integers: the texts that carry them are what `BigInt` and `toString`
-- convert. `World.sent` has the messages that the client of the broker has taken over; that the
-- broker gets them is not said. Dates are seconds, `World.now` is the clock during a call. A method
-- is one step: calls of two requests interleave at the granularity of the methods that the theorems
-- compose. The loops go through lists, except the scheduler's loop over the queue, which has no
-- bound in the source: it runs on fuel, and answers `none` when the fuel is used up. Scheduler/Ends
-- says when the length of the queue and one more is enough, Scheduler/Loop when no fuel is.
--
-- A handler of a hook is one step on the state of the last render; a number of JavaScript is an
-- integer, a fraction, an infinity or no number. A turn of the polling loop is one step, over what the
-- provider and the server answer in it: the logs of the chain are taken not to change below a block
-- that the provider has reported.
--
-- Not modelled: the reading of the configuration, the components of the frontend, the contract of
-- the token, initialize and the upgrade of that of the points, the scripts that deploy and call the
-- contracts by hand, and the parsing of JSON: a body is what it reads as. The acknowledgement of a
-- message, and the COMMIT of a transaction, are taken not to fail. A log line has no effect in the
-- model.
pub mod Common
pub mod Platform
pub mod Entities
pub mod World
pub mod Repositories
pub mod Redis
pub mod Point
pub mod Token
pub mod Chain
pub mod Ledger
pub mod Scheduler
pub mod Api
pub mod Polling
pub mod Contract
pub mod Frontend
pub mod Gateway
pub mod Tests
