-- ===== src/Lib.antt =====
-- Verification of the core logic of the stock watcher, a program that downloads daily bars of stocks
-- from several providers, analyses them and delivers recommendations as messages.
--
-- The parts and how they interact. The exchange calendar (internal/calendar) says which session is
-- complete and which one comes next; its days are also frozen in windows from several sources, of
-- which exact lists of days are read. The market sources (internal/market) ask one provider after the
-- other for a history, and rest a provider that keeps failing. The bars that come back are analysed,
-- among other things by a Chan analysis (internal/chanlun). What is recommended becomes events of a
-- delivery ledger (internal/notify), which is stored as JSON and says what is due on which channel;
-- the day range service (internal/dayrange) sends what is due. The selection (internal/selection)
-- hands validated daily and minute histories to an analysis engine, and checks the report it gives.
-- Among the strategies, the Chan signal (internal/strategy/chan.go) aggregates minute bars and analyses
-- them with the Chan analysis.
--
-- The modules:
-- - Base: the shared types, tests, maps, sorting and the lemmas on them. A Go map is an association
--   list without repeated keys; a Go string is the list of its bytes; where Go visits a map in any
--   order, the list's order stands for it, and any order of the list is allowed.
-- - Notify: internal/notify/notify.go. Notify has the types (`Ledger`, `Event`, `ChannelState`), States
--   the reading of a channel's state, Enqueue `EnqueuePart`, Upkeep `Normalize`, `Expire`, `Prune` and
--   `Retry`, Marks `MarkInFlight`, `MarkDelivered`, `MarkFailure` and `MarkUnknown`, Schedule `Due` and
--   `CanDeliver`, Validate `Validate`. A method takes a ledger and returns the next one, also where it
--   returns an error. Instants are numbers; 0 is Go's zero time.
-- - Chanlun: internal/chanlun/chanlun.go. Input is `validate`, Merging `mergeInclusions`, Fractals
--   `detectFractals`, Strokes `buildStrokes`, Zones `buildZones`, Analysis `Analyze`. A slice that the
--   code appends to is a list with its last element first until the loop ends. The outer loop of
--   `buildStrokes` moves its index by its own choice, so it runs on fuel, one more than the number of
--   fractals: each round drops at least one. Running out of fuel and an index out of range are both
--   the result `none`. Prices and volumes are natural numbers of the smallest steps: the code only compares
--   prices and adds volumes, and what `validate` refuses (a NaN, an infinity, a negative number) is a
--   constructor of its own.
-- - Market: internal/market/resilience.go in Health (`available`, `record`); of
--   internal/market/sources.go `Attempt` in Attempts, `FetchTradingDays` in Days, `FetchStatus` in
--   Windows, with the `Validate` of internal/market/status.go, and `mergeStatusWindows` in Statuses;
--   the errors of internal/market/market.go, and in Histories the `Validate` of a daily history there;
--   internal/market/intraday.go in Minutes: `MinuteSession` and
--   `Validate`, with `AggregateMinutes` and `ValidateMinutePair` in Minutes.Grouping, whose loop runs on
--   fuel, the number of bars, of which each round drops one. Prices and volumes of minute bars are
--   numbers of millionths, so that sums are exact. The answers of the providers, the clock and the caller's
--   cancellation are data of a `Turn`. The mutex makes each call one step, so concurrent users are a
--   sequence of calls.
-- - Calendar: internal/calendar/calendar.go. A date text is the day that `time.Parse` reads in it, or
--   nothing. The loops of `Next` and `Completed` have the source's bound of 31 days, and the one of
--   `TradingDays` runs on the number of days of its range.
-- - Calendar.History: internal/calendar/history.go. History has `NewHistory` and `Validate`, Coverage
--   the clipping and merging of windows and `missingSpans`, Dataset the consistency of the windows,
--   `TradingDays` and `Freeze`, Fetching `Sources.Fetch`. The JSON and its SHA-256 are one parameter,
--   `hash`; what is needed of it is that its text is never empty, as a text of 64 digits is not. What a
--   provider answers, and whether the context is over, are data of a `Turn`.
-- - Dayrange: internal/dayrange/delivery.go and execution.go, in Dayrange.Delivery: `flushLocked` and
--   `flushExecutionLocked`, which send what the ledger has due, with the choice of their channels in
--   Routes, of the channels' names and of what `ChannelNamesForRoute` returns; and `ConfigureDelivery`.
--   That a channel answers with a nil `*DeliveryError`, which panics, is modelled. The answers of
--   the store, the clock and the channels are a `Reply` for each delivery, and what a call does is the
--   list of its effects, so that the order of writes and sends can be stated. In Dayrange.Execution:
--   `executionPlans` and `executionStatus`, which say what a card advises.
-- - Secondstage: of internal/secondstage the types, `ValidateModelInputs` and `BlendPlan.Validate`.
--   Weights and scores are numbers of billionths.
-- - Selection: internal/selection/engine.go, the contract of an analysis engine. Inputs has what
--   `Execute` checks before it asks the engine, Results what it checks of the report, Execution the
--   whole of `Execute`, and `DefaultEngine`. The engine is a function; encoding/json and the digest
--   are parameters; the model files that were read and the caller's context are data of a `Turn`.
-- - Strategy: of internal/strategy `completeMinuteDay` of conditional.go, and in Chan chan.go, which
--   analyses the bars of three periods and combines what the levels say. The text of a reason is a
--   constructor with the numbers in it.
-- - Tests: runs of the definitions, and for each result that has parameters its use on concrete data.
--
-- Limits of the model. A count of attempts is an `int` of 64 bits that wraps around (`inc`); other
-- integers have no bounds. An instant is a natural number, so that one before Go's zero time is
-- not represented; for the market and the selection it is a number of whole seconds, so that
-- `FetchedAt` is compared by the second, and the weekday of a minute bar is the one in Shanghai,
-- where the code takes the one of the value's location. Prices, volumes and weights are exact,
-- where the code has floating point: a difference that meets a tolerance exactly may be refused
-- there and accepted here.
--
-- Not modelled: everything that is input and output (HTTP clients, SQL storage, the dashboard, messages
-- and prompts), the statistical models, which are floating point, logging, and the wiring of the
-- commands; the other strategies and their gates and the sync tasks.
mod Base
pub mod Notify
pub mod Chanlun
pub mod Market
pub mod Calendar
pub mod Dayrange
pub mod Secondstage
pub mod Selection
pub mod Strategy
mod Tests
