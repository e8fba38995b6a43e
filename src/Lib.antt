-- ===== src/Lib.antt =====
-- Verification of CryptoShloma, a program that trades on exchanges by itself (Qt, C++).
--
-- An exchange's reports arrive as entries (src/api/i_exchange_api_entry.h) and are merged into
-- storages of markets, balances and orders (src/storage). The trading algorithm Hanukkah reads the
-- storages once a second: for every traded market it has a table of steps, lets one step act, and the
-- step submits or cancels an order, closes its sides, or clears all steps when a cycle is over.
-- Submitted orders wait in a table until the exchange confirms them. The API of Binance sends the
-- requests and reads the answers and streams; a searcher of trends keeps the rates of the markets, and a
-- pool keeps the exchanges and stores the settings of their markets. For the views, each exchange has
-- models that take the same reports as the storages and tell what rows changed; filters select from
-- them. Spreder is a second algorithm, which trades on the difference of the newest offers of both
-- sides.
--
-- Files:
--   Prelude     names that all modules share, Boolean tests, lists, integers.
--   Qt          the parts of Qt and of the C++ library that the code calls, as one record: `qreal` with
--               its operations and fuzzy comparison, QDateTime, QJsonObject and QJsonValue, the
--               comparison of texts, addresses, std::sort, and the order in which a proxy model shows
--               rows. Definitions take it as an instance argument, and theorems name what they ask of it.
--   Base        src/base: Market, Order, Balance, Currency. A setter is a function from an object to the
--               changed object and the signals that it emits (Base/Method); Base/Laws is about sequences
--               of them. A getter is a record field.
--   Api         src/api. Entry and TemporaryOrders (temporary_orders_table.cpp); Signals and Hub, the
--               signals of IExchangeAPI and their delivery to the storages, queued or at once
--               (i_exchange_api.cpp); Controller (binance_api_controller.cpp), a slot as the list of the
--               calls and signals that it makes; Binance (binance_api.cpp and binance_api_p.cpp) with the
--               tables of texts and addresses (Codes, EndPoints), the reading of JSON answers (Read,
--               Markets, Orders), the state and the sending of requests (Session), start, stop, timers
--               and errors (Lifecycle), the handlers of answers and streams (Receive), orders (Submit),
--               the other requests (Requests), and sequences of all these calls (Calls). A method is a
--               function from the state to the changed state and the requests, signals and timers that
--               it starts; settings, clock and random numbers are in a record Env.
--   Storage     src/storage, a module for each storage with its theorems below it. Keyed holds the loop
--               that all merges share, find by a key and then change or append, with its lemmas.
--               A pointer from one object to another is the id of that object, and a pointer to a stored
--               order is its place in the list.
--   Algo        src/boilerplate/singly_linked_stack.h (Chain), src/algo/hanukkah/i_step.cpp (Average,
--               Action), step.cpp (Step), zero_step.cpp (ZeroStep), what both do alike (Trade), and
--               src/algo/hanukkah.cpp (Hanukkah). What a step reads is a record View; what it asks of
--               the exchange, the controller or the database is a value of the type Action. Trend is
--               trend_searcher.cpp: what the scan of the markets emits, as a list. Spreder is
--               spreder.cpp: its calculations, and (Submit) what it asks of the exchange, with the mark
--               of a call that reads a list out of range,
--               behind which nothing is said of it.
--   Models      src/models/exchange_pool.cpp (ExchangePool): the exchanges in use and the rows of the
--               table markets_cache, where a row that is read back goes through functions of Qt. Rows has
--               the loops that the list models share, as functions to the new rows and the changes that
--               the views are told; MarketsModel, BalancesModel, OpenOrdersModel, MarketOrdersModel and
--               TradeHistoryModel are the models, Proxies the filters and orders of the views, and
--               ExchangeEntry the signals that reach the models of an exchange.
--   Emulator    src/emulator.cpp: test data, and the answers to orders in test mode, as the signals that
--               it emits; they reach the storages through the Hub of Api.
--   Network     src/network: the streams and the address of a web socket (WebSocketClient), with what
--               the calls of the API of Binance do to it (Session), and the counter of the HTTP client
--               (WebClient). What is asked of the socket is a list of effects; the state of the socket
--               and of the network session is read from a record.
--   Common      src/common: the settings with their cache and their file (Settings), and the encryption
--               of the secret ones (Encrypt) over what OpenSSL does, which is a parameter.
--   Tests       a concrete platform with decimal numbers, and the theorems at concrete inputs.
--
-- Loops are recursion on lists, so that every function ends; no fuel is used. An order id is a natural
-- number, the count of orders in the averages wraps at 2 ^ 16 and the counter of requests at 2 ^ 32; the
-- count of executed steps is an integer without bound, since it is reset in every cycle.
--
-- Not modelled: the locks of the storages and of the settings (one call is one step), logging, the
-- sockets, replies and sessions of Qt's network, the database behind the statements and the texts of the
-- statements, the names of roles, the regular expression that reads the defaults, the typed ids of
-- strong_typedef.h, and the user interface. A text put together by QString::arg is the plain
-- concatenation, which holds for ids without the sign %. The handler of a failed new order refers to
-- variables that are gone when it runs, so the record that it erases is any record. What loadState does
-- to the models when a merge of market data is over arrives there as events; the emulator's slots are
-- not part of the models. A request that is repeated by its method name is
-- an effect, not a call. The getters of src/base are the fields of the records.
pub mod Prelude
pub mod Qt
pub mod Base
pub mod Api
pub mod Storage
pub mod Algo
pub mod Models
pub mod Emulator
pub mod Network
pub mod Common
pub mod Tests
