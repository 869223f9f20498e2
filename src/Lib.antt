-- ===== src/Lib.antt =====
-- BoltBet: the back end of a betting site (apps/api/src) and the logic of its web client
-- (apps/web/src), modelled and verified.
--
-- The program. Users hold a wallet in cents, deposit into it and place bets on markets.
-- BettingService.placeBet (apps/api/src/betting) refuses administrators, looks for an earlier bet
-- of the same client mutation id in Redis and in the bets table, asks MarketService whether the
-- market is open, debits the stake through WalletService, stores the bet as PENDING, caches its id
-- and puts a message on the bet_placement queue. SettlementWorker (apps/api/src/settlement) takes
-- the message and moves the bet to ACCEPTED. MarketService.settle (apps/api/src/market) ends a
-- market as won or lost: it credits the payouts of the accepted bets through WalletService, marks
-- the bets SETTLED, tells the users through the notifications queue, and closes the market.
-- NotificationWorker takes those messages and pushes them to the sockets of RealtimeGateway
-- (apps/api/src/realtime). IdentityService (apps/api/src/identity) gives users an access token and
-- a refresh token that is exchanged at each use; JwtAuthGuard and RolesGuard (apps/api/src/auth)
-- check every request, the ValidationPipe reads its body, and a controller calls the service. The
-- web client (apps/web) keeps the token, the balance and the toasts in a store, sends the requests
-- of its pages, refreshes its token once when a request is denied, and marks what it has fetched as
-- stale when a socket event or a mutation changes it.
--
-- The files of the back end, with the sources below apps/api/src that they model.
--   Base        numbers, options and lists; Base/Table: the repositories' findOne, find, update
--   Format      formatCents and formatOdds
--   Model       the enumerations (Model/Types), the entities, messages and tables (Model/Entities),
--               and service methods as actions on them (Model/Action, Model/Keeps)
--   Wallet      wallet/WalletService.ts: deposit, debit, credit, applyTransaction, getBalance
--   Market      market/MarketService.ts: createMarket, updateStatus, settle and the look-ups
--   Betting     betting/BettingService.ts: placeBet, getBetById, transitionStatus, isTerminalState
--   Settlement  settlement/SettlementWorker.ts and the consumer of rabbitmq/RabbitmqService.ts
--   Lists       the paginated lists getTransactions, getBets and list of the three services
--   Crypto      what Identity, Auth and Realtime take from other packages
--   Identity    identity/IdentityService.ts: register, login, refresh, logout
--   Auth        auth/guards: JwtAuthGuard and RolesGuard
--   Realtime    realtime/RealtimeGateway.ts and NotificationWorker.ts
--   Validation  the ValidationPipe of main.ts with the dto classes, ParseUUIDPipe and ParseIntPipe
--   Http        what the controllers answer
--   WalletController, BettingController, MarketController, IdentityController, AppController
--               the handlers of the routes
--   Controllers every route with its guards (auth/AuthModule.ts), its pipes and its handler
--   System      the application (AppModule.ts): requests, workers and the replica as events;
--               System/Accounts has the abstract accounts that it refines, a balance for each user
--   Broker      rabbitmq/RabbitmqService.ts: the set-up of the queues (Broker/Topology) and a
--               consumer with prefetch, acknowledgements and redelivery (Broker/Delivery)
--
-- The files of the web client, with the sources below apps/web/src.
--   Client      lib/api/client.ts and store/slices/AuthSlice.ts
--   Web         the state of a tab: store/slices/WalletSlice.ts and UiSlice.ts, the keys of
--               lib/queryClient.ts, the payloads of lib/api; its child modules are
--               Session (hooks/useAuth.ts, AuthBootstrap, the layouts), Navigation (Sidebar),
--               Queries (the retries), Socket (hooks/useSocket.ts), Toasts (ToastContainer),
--               Forms (the pages of app/(auth)), Money (useWallet, the pages wallet, markets and
--               admin/markets/new), AdminMarkets (the page admin/markets), and proofs about them:
--               Guarded, Connected, Payloads, Managing, Forms/Passwords, and Journey, which follows a
--               bet from its button to the tables of the back end
--   Tests       a small state, and the theorems applied to it
-- Functions have the source's names in lower case with underscores: placeBet is place_bet. The child
-- modules of a component of the back end hold its proofs.
--
-- The model. An action takes the state of the back end (World: the tables, the replica, the cache
-- and the queues) to a result and a new state. An exception is a result, and keeps what was written
-- before it; only a database transaction rolls back. What a request draws from outside is its Env:
-- the clock in milliseconds, the ids that the database generates, and which of the calls to
-- PostgreSQL, Redis and RabbitMQ fail; every theorem holds for every choice, unless it says
-- otherwise. A table is the list of its rows, the newest first, findOne is the first row that
-- passes the where clause, and a unique index or an integer column of four bytes refuses a row by
-- an exception. TypeORM's save writes a row, with its time, only if a column has changed. In a list
-- rows of the same time come in the order that the rank of the Env gives them, which is another one
-- in each request. The replica is any earlier state of its tables. UUIDs are numbers that are only
-- compared. Numbers in cents are natural numbers: every amount that the code subtracts is checked
-- to be covered first. The loop of settle has an Env for each bet; the identity service draws on a
-- Draw in place of an Env. A body is a list of named values, where a number is a natural number, a
-- negative one or a fraction. The pages of the web client are functions on the state of the tab,
-- split where the code waits for an answer: one function for what comes before, one for what comes
-- after. The number that parseFloat and Math.round read from an input is a value of Parsed.
--
-- Fuel. In Format a number is divided by ten at most as often as the number plus one, which is
-- enough, since the division stops below ten; in Format/Grouping an amount has at most as many groups
-- of digits as dollars, and one. In Web/Queries the fuel is for three fetches,
-- which is enough, since retry gives up once two have failed before.
--
-- Concurrency. System serves one request after the other. Wallet/Interleaving runs wallet requests
-- as steps that interleave: the look-up of an earlier transaction is one step, the database
-- transaction another. Wallet/Locks divides that transaction: the SELECT FOR UPDATE, which waits for
-- the lock of the wallet's row, is a step, and the writes are computed from the row that was read
-- then, at the commit. Broker/Delivery interleaves deliveries, ends of handlers
-- and losses of the channel; a message that is not acknowledged when the channel is lost goes back
-- to its queue, as RabbitMQ documents. Web/Managing interleaves presses, answers and new lists.
--
-- Not modelled: the connections and environment variables, the logs, the texts of error answers,
-- what the pages render, and the edge proxy (nginx). bcrypt, the JWT signer and the texts of UUIDs
-- are fields of Crypto, and the tests of class-validator and ParseUUIDPipe are fields of Packages;
-- both are parameters, and what a theorem relies on of them is a hypothesis of it: a printed UUID is
-- read back and has no colon, bcrypt accepts the text that it hashed, and it reads 72 bytes of a
-- text. toLowerCase and trim are modelled for ASCII. A page number below zero in a query reaches
-- PostgreSQL, which refuses it; that it does not for a limit of zero, where TypeORM sends neither
-- OFFSET nor LIMIT, is left out. React runs the clean-up of an effect before the next one, TanStack
-- Query asks the retry function after each failure, and invalidates every query whose key starts
-- with the key that is given; a press finds the page as the last change of its state has left it.
pub mod Base
pub mod Format
pub mod Model
pub mod Wallet
pub mod Market
pub mod Betting
pub mod Settlement
pub mod Crypto
pub mod Identity
pub mod Auth
pub mod Realtime
pub mod Lists
pub mod Validation
pub mod Http
pub mod AppController
pub mod IdentityController
pub mod WalletController
pub mod BettingController
pub mod MarketController
pub mod Controllers
pub mod System
pub mod Broker
pub mod Client
pub mod Web
pub mod Tests
