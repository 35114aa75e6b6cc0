-- ===== src/Lib.antt =====
-- QuantLuna, a crypto pairs-trading system in Python: the components that decide whether an
-- order, a request or a withdrawal may go out, that close positions, and that keep state.
--
-- The files, each with its part of the program:
--
-- Prelude: shared names, Boolean tests, lists, integers, a Python dict as an association list,
-- and abstract doubles.
--
-- Circuit: `CircuitBreaker` of execution/circuit_breaker.py, which guards WebSocket and CCXT
-- calls. Circuit.Invariant, Circuit.Probes and Circuit.Runs are about its states, its half-open
-- calls and runs of calls.
--
-- Throttle: `OrderThrottle` of execution/order_throttle.py. Throttle.History compares it with a
-- specification that forgets nothing, and Throttle.Limits counts orders.
--
-- Traffic: core/bybit_traffic_controller.py. Traffic.Breaker is its `CircuitBreaker`,
-- Traffic.Bucket its `TokenBucket`, Traffic.Cache its `TTLCache`, and Traffic.Request
-- `BybitTrafficController.request` with `_execute_with_retry`, which uses the other three.
--
-- Withdrawal: `WithdrawalGuard` of execution/withdrawal_guard.py; Withdrawal.Steps has its
-- coroutines as a step relation.
--
-- Hedge: `SingleHedgeManager` of execution/single_hedge_manager.py. Hedge.Leg is what a tick
-- does to one leg (`_update_trailing_sl_long`, `_check_sl_tp_long`, `_close_leg` and those of
-- the short leg), and Hedge the manager with `_verify_positions`, `_fetch_mark_price`,
-- `_on_price_tick` and the loop of `manage`.
--
-- Store: core/store.py, with Store.Memory for `MemoryStore`, Store.Sqlite for `SQLiteStore`,
-- Store.Redis for `RedisStore` and Store.Jobs for `JobStore.evict_done`.
--
-- Signals: `SignalGenerator` of strategy/signal.py, with its state and helpers in Signals.State.
-- Signals.Protocol and Signals.Runs have the phases that a consumer of the signals sees,
-- Signals.Cooldown and Signals.Duration are about the bars after and in a trade.
--
-- Orders: `OrderManager` of execution/order_manager.py. Orders.State has its records,
-- Orders.Account the position that it keeps. Orders.Lifecycle, Orders.Timeouts and Orders.Runs
-- are about operations one after the other, Orders.Races about two that wait at the same time.
--
-- Trading: `DecisionEngine` of execution/decision_engine.py, `ActionExecutor` of
-- execution/action_executor.py and the part of `_run_loop` of execution/bybit_live_runner.py
-- from the signal of a bar to its execution; it uses Signals and Orders.Account. Trading.Entries
-- is about the question to the generator and the entries, Trading.Legs about the orders of an
-- action, Trading.Sizes about many bars.
--
-- ProfitGuard: `ProfitGuard` of execution/profit_guard.py. ProfitGuard.Ladder is about one bar,
-- ProfitGuard.Closing about the bars of a position.
--
-- Drawdown: `DrawdownController` of risk/drawdown_controller.py.
--
-- Portfolio: `PortfolioRisk` of risk/portfolio_risk.py; Portfolio.Allocator:
-- `PortfolioAllocator` of risk/multi_pair_allocator.py, over that and the Drawdown controller.
-- The answers of the correlation matrix and the Kelly sizing stand in the request.
-- Portfolio.Agreement has the calls and the outcomes of a request, Portfolio.Admission its gates
-- and the tables, Portfolio.Exposure the limit, Portfolio.Halts the hard stop, Portfolio.Breaker
-- the circuit breaker, Portfolio.Slots the count of pairs. Notionals are whole numbers.
--
-- Reserve: `CapitalAllocator` of execution/capital_allocator.py; Reserve.Scaling is about the
-- high watermarks.
--
-- Emergency: `EmergencyStop` of execution/emergency_stop.py; Emergency.Restarts has the
-- processes that find its file.
--
-- MarginGuard: `MarginRiskGuard` of execution/margin_risk_guard.py.
--
-- Paper: `PaperTradingEngine` of execution/paper_engine.py, with the orders of
-- execution/paper_order.py. Sums of money are integers there, and the products that make them
-- are arguments. Paper.Accounting is about equity, profit and fees, Paper.Closings about the
-- trades, Paper.Saved about the store and the two ways to close a position.
--
-- Positions: `PositionStore` of core/position_store.py, over any store that keeps what
-- Store.Interface promises; Store.Implementations has the memory and the SQLite backend as such
-- stores.
--
-- RiskBreaker: `RiskCircuitBreaker` of risk/circuit_breaker.py.
--
-- PartialExit: `handle_partial_exit` of execution/partial_exit_handler.py.
--
-- Watchdog: `WsWatchdog` of execution/ws_watchdog.py.
--
-- Lock: `SingletonLock` of core/singleton_lock.py; Lock.Holders has processes that share its
-- file.
--
-- A method is a function from the state, a record, to the new state and the result; a raise is a
-- Boolean or an Option in the result. Log lines, alerts, messages and snapshots for display are
-- left out, and so is the cancellation of a task.
--
-- Times are whole ticks of the clock, and a duration test such as `now - t <= window` is written
-- `now <= t + window`, which is exact without negative numbers. Names (symbols, keys, ids,
-- addresses) are only compared, and so are numbers. The USDT amounts of the withdrawal guard are
-- integers in their smallest part: the rounding of sums of doubles is not modelled. The tokens
-- of the traffic controller's bucket are counted in parts of a token, so that a tick brings a
-- whole number of parts. Prices, quantities and equity in Hedge, RiskBreaker and PartialExit are
-- doubles of an abstract type with the operations that the code uses; a theorem that needs laws
-- of the order takes them as a hypothesis (`IsOrdered`), in a form that IEEE comparisons meet,
-- NaN included.
--
-- The loop of `TokenBucket.wait_and_acquire` has fuel: `rounds timeout` is one more than the
-- sleeps that fit before the deadline, and one for the test that ends the loop. The loop of
-- `manage` is a recursion on the polls to come, of which there may be any number. The retries of
-- `_execute_with_retry` are a recursion on the retries that are left, and all other loops are
-- recursions on lists.
--
-- Outside code is a parameter: the executor of a request (the n-th call returns a value or
-- raises with a status), the readings of the clock, the answers of the exchange, the JSON
-- encoder, the Redis server, `str.lower` and `str.upper`.
--
-- Not modelled: the exchange clients, the HTTP interface, the dashboard, reports and
-- notifications, which are I/O, and the numerical code of strategies, filters, sizing and
-- backtests, which rests on numpy and pandas.
pub mod Prelude
pub mod Circuit
pub mod Drawdown
pub mod Emergency
pub mod Hedge
pub mod Lock
pub mod MarginGuard
pub mod Orders
pub mod Paper
pub mod PartialExit
pub mod Portfolio
pub mod Positions
pub mod ProfitGuard
pub mod Reserve
pub mod RiskBreaker
pub mod Signals
pub mod Store
pub mod Throttle
pub mod Trading
pub mod Traffic
pub mod Watchdog
pub mod Withdrawal
