-- ===== src/Lib.antt =====
-- CitrineOS Core, a charging station management system for OCPP 1.6 and 2.0.1: a model of its core,
-- written after the TypeScript sources, with the theorems that make it correct.
--
-- A charging station keeps a websocket open. What it sends comes to the router, which checks it and
-- passes it on to the modules through a message broker; what the modules send goes back through the
-- router. The router and the modules share a cache: it holds the one call of a connection that is
-- pending, the status of the last boot, and the actions that a station may not call.
--
--   Identifier       00_Base/src/interfaces/cache/types.ts: createIdentifier, getTenantIdFromIdentifier,
--                    getStationIdFromIdentifier
--   Cache/Store      00_Base/src/interfaces/cache/cache.ts: ICache as a map
--   Cache/Memory     02_Util/src/cache/memory.ts: MemoryCache, its timeouts and its waiters
--   CircuitBreaker   00_Base/src/interfaces/modules/CircuitBreaker.ts; Reconnect below it is the part of
--                    03_Modules/OcppRouter/src/module/router.ts that follows the breaker
--   Rpc              00_Base/src/ocpp/rpc/message.ts and the schema maps of 00_Base/src/index.ts;
--                    Rpc/Value is the payloads, with removeNulls of the router
--   Router           03_Modules/OcppRouter/src/module/router.ts and the validation in
--                    00_Base/src/interfaces/router/AbstractRouter.ts: Sending is sendCall, sendCallResult
--                    and sendCallError, Receiving is _onCall, Responses is _onCallResult and
--                    _onCallError, Incoming is onMessage, Pending is the entry of a pending call
--   Boot             03_Modules/Configuration/src/module/BootNotificationService.ts and the boot handlers of
--                    module.ts beside it: the status of a boot and the list of a station's actions
--   Authenticator    02_Util/src/networkconnection/authenticator: the filters of an upgrade; and the cache
--                    entry that WebsocketNetworkConnection.ts beside it keeps of a connection. Directory
--                    is what the database and the libraries answer
--   Batches          02_Util/src/util/parser.ts: getBatches, on fuel; a unit for every element is enough
--   LocalList        03_Modules/EVDriver/src/module/LocalAuthListService.ts: the checks of a list; Versions
--                    is LocalAuthList.ts of 01_Data/src/layers/sequelize/repository and the handler of
--                    SendLocalList in 03_Modules/EVDriver/src/module/module.ts
--   Reservations     reserveNow and cancelReservation of 03_Modules/EVDriver/src/module/2.0.1/MessageApi.ts,
--                    the handlers of module.ts, and Reservation.ts of the repositories of 01_Data
--   Access           02_Util/src/authorization: who may call the HTTP API. Urls is rbac/UrlMatcher.ts, Rules
--                    is rbac/RbacRulesLoader.ts, Provider is the two providers, and Access itself is
--                    ApiAuthPlugin.ts
--   Authorization    tokens: RealTime is 02_Util/src/authorizer/RealTimeAuthorizer.ts, Mapping is
--                    AuthorizationMapper.ts of 01_Data, Chain is the authorizers in turn, Tokens is the
--                    authorization in a transaction (TransactionService.ts of
--                    03_Modules/Transactions/src/module), Driver and IdTags are Authorize of OCPP 2.0.1
--                    and 1.6 (03_Modules/EVDriver/src/module/module.ts)
--   Dispatch         00_Base/src/interfaces/modules/AbstractModule.ts: what a module does with a message
--   Energy           00_Base/src/util/MeterValueUtils.ts, over any arithmetic
--   SmartCharging    03_Modules/SmartCharging/src/module/smartCharging/InternalSmartCharging.ts
--   ChargingProfiles the profiles that are set: Validation is 02_Util/src/util/validator.ts, Store is
--                    ChargingProfile.ts of 01_Data/src/layers/sequelize/repository, Setting is
--                    setChargingProfile of 03_Modules/SmartCharging/src/module/2.0.1/MessageApi.ts,
--                    Requests is the other endpoints there, and Handlers is module.ts
--   Money            00_Base/src/money and CostCalculator.ts of 03_Modules/Transactions/src/module
--   Statuses         StatusNotificationService.ts of 03_Modules/Transactions/src/module
--   Transactions     the transactions of a tenant: Events is what an event of OCPP 2.0.1 leaves
--                    (TransactionEvent.ts of 01_Data/src/layers/sequelize/repository), Handling is the
--                    handlers of TransactionEvent and MeterValues, StartStop is StartTransaction and
--                    StopTransaction of OCPP 1.6 (03_Modules/Transactions/src/module/module.ts), and
--                    Notifier is Scheduler.ts and CostNotifier.ts beside them
--
-- State is passed along: an operation takes the state and gives the result and the next state, and a
-- promise chain is the sequence of its steps. What the code throws is a value. Numbers are natural
-- numbers, texts are strings, a map is a function from keys to optional values. Time in Cache/Memory is
-- a count of milliseconds, and `wait n` lets n of them pass. Recursion is structural everywhere but in
-- Batches, whose loop runs on fuel. The effects of the router are a log with the newest first.
-- What is not under the repository is a parameter, Environment in Router: the network, the sender of
-- the broker, the compiled JSON schemas and the token provider. The theorems of the router hold for
-- every cache that a handler may find when it starts; that the cache is not changed by someone else
-- during a handler is assumed. Entries of the cache expire between handlers: a theorem about two handlers
-- takes the state that the second one finds, and says what it needs of it.
--
-- The rows of a table are a list in the order of their creation, and a transaction of the database that
-- fails leaves nothing.
--
-- Not modelled: the data layer but for the repositories above, the brokers' clients, the Redis cache, the
-- HTTP API but for who may call it, the generated types and schemas, logging, and the modules that only
-- store what they receive.
pub mod Access
pub mod Authenticator
pub mod Authorization
pub mod Batches
pub mod Boot
pub mod Cache
pub mod ChargingProfiles
pub mod CircuitBreaker
pub mod Dispatch
pub mod Energy
pub mod Identifier
pub mod LocalList
pub mod Money
pub mod Prelude
pub mod Reservations
pub mod Router
pub mod Rpc
pub mod SmartCharging
pub mod Statuses
pub mod Transactions
pub mod Webhooks
