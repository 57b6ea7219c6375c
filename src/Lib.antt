-- ===== src/Lib.antt =====
-- Verification library of the UIT-Go backend, a ride-hailing service in Go (backend/).
--
-- The program keeps users' wallets, trips and drivers in a database. Riders order trips; a trip is
-- assigned to a driver, who accepts or declines it and moves it on until it is completed or cancelled;
-- a completed trip is paid from the rider's wallet. Each part has a repository, which runs the
-- statements on the database (backend/internal/db), and a service, which holds the rules
-- (backend/internal/domain); the services call one another through interfaces.
--
-- The parts and their files:
--   Errors        the sentinel errors (backend/internal/domain/errors.go)
--   Base          lists, int64, texts, and calls that may fail (Base/Action): `Action W A` is a call on
--                 the state `W` that returns a value or an error beside the state after it, and what
--                 was written before an error stays written. Base/Action/Ensures reasons about them.
--   Wallet        the data of backend/internal/domain/wallet.go. Store and Repository are
--                 backend/internal/db/wallet_repository.go (Get, ListTransactions, ApplyTransaction);
--                 Config and Service are backend/internal/domain/wallet_service.go. Effect says what
--                 an applied transaction does, Balance adds up the ledger, Service/Gate says what is
--                 let through, Service/Kept and Service/History follow any sequence of calls, Memory is
--                 a database in memory.
--   Trip          the data and interfaces of backend/internal/domain/model.go and repo.go. Store and
--                 Repository are backend/internal/db/trip_repository.go; Service is
--                 backend/internal/domain/service.go, with Completing and Free on its payment,
--                 Listing on what a user sees and Location on the place of a trip; Memory keeps
--                 trip events in memory.
--   Driver        the data and interfaces of backend/internal/domain/driver.go and notification.go.
--                 Assignments is backend/internal/db/trip_assignment_repository.go; Service and
--                 Service/Dispatch are backend/internal/domain/driver_service.go. Under Dispatch,
--                 Search and Shown are the search of nearby drivers, Lifecycle the diagram of a trip's
--                 statuses, Laws the specification that the repositories owe to the dispatch; Database,
--                 Repositories, Rereading, AssignmentRows and Wiring show that they meet it; Confined,
--                 Assigning, Answering, Declining, Progress and Moving say what each operation does. Memory is
--                 a database in memory, with Active on the newest assignment of a driver.
--                 Profiles, with Rows, is backend/internal/db/driver_repository.go; under it Laws says
--                 what that relies on, and Creating, Saving, Equipping and Registering follow `Register`
--                 of the driver service down to the tables.
--   Notification  backend/internal/notification/service.go over the interfaces of
--                 backend/internal/domain/notification.go and device_token.go. Pushing is about the
--                 tokens that are sent to, Routes about the text for a driver. Repositories is
--                 backend/internal/db/notification_repository.go and device_token_repository.go.
--   Matching      the queue of backend/internal/matching/queue.go and sqs_queue.go. Bounds is about its
--                 settings, Handling about the messages of one delivery.
--   Home          the home content of backend/internal/domain/home.go. Cache is the Redis cache of the
--                 promotions in backend/internal/cache/home_cache.go, and Coherence says what it serves
--                 and what a failed delete of Redis leaves. Repositories is
--                 backend/internal/db/home_repository.go.
--   Security      backend/internal/security/token_crypto.go. Sealing is about what is sealed and opened.
--   Auth          accounts and sessions. Users is backend/internal/domain/user_repo.go, Tokens is
--                 backend/internal/domain/refresh_token_repo.go, Handlers is
--                 backend/internal/http/handlers/auth.go (Data, Session, Entry and Onboarding). Under
--                 Sessions, Accounts is about the lookups of the users' repository, Issuing, Login,
--                 Rotation and Disabled say what a session takes and gives, and Memory is a database in
--                 memory.
--   Http          replies of handlers, the numbers of a query in Params
--                 (backend/internal/http/handlers/params.go), and the handlers of trips in Trips
--                 (backend/internal/http/handlers/trips.go), with Data and with Access on who may see a
--                 trip. Drivers, with Data, is
--                 backend/internal/http/handlers/drivers.go, with Own on whose availability changes;
--                 Wallets is wallet.go and wallet_internal.go beside it; Middleware is auth.go and roles.go
--                 of backend/internal/http/middleware, with Trust on whom a request is from.
--   Live          the hub of a trip in backend/internal/http/handlers/ws.go: `Hub.run` with the goroutines
--                 of its clients as events in any order, a write of `writePump` that fails among them. Panics is about its runs, Took and
--                 Delivery about what a client receives. Messages
--                 is the handler and `readPump`, Confined says what they reach, Admission who is let in.
--
-- A Go method on a struct is a function of the struct's record, under the method's name in this
-- library's spelling: `DriverService.AcceptTrip` is `accept_trip`. A nil pointer is `none`. A method
-- that writes through a pointer returns what it wrote beside its result.
--
-- A handler is a call whose error `response code e` is an error reply; it takes the bound body of its
-- request, or the error of binding it. A goroutine that a handler starts runs at once, and the channels of
-- a hub are lists beside a flag that says whether they are closed; a panic is `none`.
--
-- Outside the source and therefore parameters: GORM and the database, as the records `WalletStore`,
-- `TripStore`, `TripAssignmentStore`, `UserStore`, `RefreshTokenStore`, `DriverStore`, `HomeStore` and
-- `NotificationStore` of the statements that the code runs; the clock and the ids (`Runtime`), with
-- `uuid.Parse`; the JSON form of a location or an event; the clients of SQS and of push messages; AES,
-- hashes, bcrypt and JWT (`Crypto`, `AuthHandler`); gin and the upgrade of a connection. What the code
-- relies on is stated as laws (`IsWalletStore`, `IsDatabase`, `IsQueried`, `IsSessionStore`,
-- `IsProfileStore`, `IsCached`, `IsCrypto`): a row is found under its key, a query changes no row, a failed
-- statement changes nothing, an update counts the rows that it changed, a transaction commits or is
-- rolled back. Calls run one after the other: there is no interleaving inside a call. The law of a
-- read describes a database without a lagging replica, which is how backend/internal/http/router.go
-- wires the repositories.
--
-- Bounds: an int64 keeps its wrap-around (`int64` of Base/Int). A time is a count of nanoseconds, with 0
-- for the zero time; a float64 is its bit pattern, since the modelled code only copies it. No function
-- runs on fuel: every loop of the source goes over a slice and is structural recursion.
--
-- Not modelled: the handlers of administration, home content, notifications and routes, CORS, the rate
-- limit, metrics, the audit log, the queue on Redis and the endless loop of the one on SQS, the geo index, the
-- routing client, the cached news, the clients between the services, configuration, logging and
-- migrations.
pub mod Errors
pub mod Base
pub mod Http
pub mod Wallet
pub mod Trip
pub mod Driver
pub mod Notification
pub mod Matching
pub mod Home
pub mod Live
pub mod Security
pub mod Auth
