-- ===== src/Lib.antt =====
-- AtlasArb: a Telegram bot that sells access to arbitrage signals, and the scanner that finds them.
-- This library models the parts of the program that decide what a buyer gets and what the scanner
-- does next, and proves them correct. Sources are named from the repository's root.
--
-- Purchases (src/domain/purchase.py, src/domain/product.py): a purchase, its states and the table of
-- legal transitions. Users (src/domain/user.py, src/domain/enums.py): roles, tiers, settings, profiles.
--
-- Payments is the path of money. Payments/Db: the tables (src/database/models.py) as a record of
-- dictionaries and lists, and a monad of actions that may raise; `session` is the transaction of
-- src/database/base.py, which rolls back when its body raises. Payments/Repo: the repositories
-- (src/database/repositories), each query and write with the constraints of its table.
-- Payments/Activation: `activate_lifetime` of src/services/subscription_service.py.
-- Payments/Service: src/services/purchase_service.py, one function per method; `pend`, `close_found`,
-- `pay_found`, `settle_open` and `record_paid` are the method's code behind a query.
-- Payments/Json, Payments/Callback, Payments/Webhook: src/services/payments/webhook.py. A callback is
-- read by `read_update`; `handle` logs it and calls `mark_paid`. Payments/Reconciler:
-- src/services/payments/reconciler.py, which polls the open invoices and calls `mark_paid` too.
--
-- Signals is what the scanner finds. Signals (src/domain/signal.py): the signal and its route, over an
-- abstract type of decimals. Signals/Cooldown: CooldownStore of src/scanner/lifecycle/cooldown.py.
-- Signals/Lifecycle: LifecycleManager of src/scanner/lifecycle/manager.py, a function of the `World`,
-- which holds its table, the cooldowns and the bridge; `expire_where` is the loop that its three mass
-- expiries share. Signals/Bridge: EngineBridge of src/services/engine_bridge.py, with its queue and
-- the archive (src/database/repositories/history_repo.py), and Signals/Registry: the SignalRegistry of
-- src/services/signal_registry.py. The source keeps one object where the model keeps values: a notice
-- holds the signal as it was when it was queued.
--
-- Access is what a user may see. Access (src/domain/entitlements.py): the plans. Access/Ledger
-- (src/database/repositories/delivery_repo.py) and Access/Service
-- (src/services/signal_access_service.py): the signals that a user has been charged for, and the quota.
-- Access/Favorites: src/services/favorites_service.py over src/database/repositories/favorites_repo.py.
--
-- Alerts is what a user is sent. Alerts (src/domain/user.py, src/database/models.py): the filter and the
-- tables. Alerts/Tables: NotificationRepository of src/database/repositories/misc_repos.py.
-- Alerts/Eligible and Alerts/Evaluate: `_evaluate_user` of src/services/notification_service.py; its
-- last write counts the alert too, and what a session leaves when the database fails is not modelled.
--
-- Admin is what administrators do. Admin: the broadcasts of src/services/admin_service.py; a job's
-- recipients are read from the list of users that is given. Admin/Backed and Admin/Handed follow a run of
-- these operations from the writing of a broadcast to its recipients.
--
-- Onboarding: src/services/user_service.py over the table of users, with the allow-lists of staff.
--
-- Scanner is the part that looks for signals. Scanner/Queue: PriorityEventQueue of
-- src/scanner/priority/scheduler.py; `turn` is a round of the loop of its `get`, and a consumer that
-- gets nothing waits for the event. Scanner/Health: HealthRegistry of
-- src/scanner/status/health_registry.py, an operation on a venue being a function of its health and
-- `at_venue` its application in the registry, which keeps what the callbacks are told.
--
-- Scanner/Numbers: what the arithmetic of the scanner takes from Python's decimals and floats, a record of
-- operations without laws; where a theorem needs laws of their order they are its hypotheses.
-- Scanner/Statistics and Scanner/Fills: src/scanner/mathx.py. Scanner/Cache and Scanner/Cache/Writes:
-- MarketStateCache of src/scanner/cache/market_state_cache.py, a dictionary being a list of
-- pairs, a set a list, and a deque a list of bounded length; its listeners are the list of what they were told.
-- Scanner/Legs: the legs of src/scanner/profit/liquidity_leg.py, an interface that a book and a pool implement.
-- Scanner/Profit: src/scanner/profit. Scanner/Liquidity: src/scanner/liquidity/analyzer.py. Scanner/Ranking:
-- src/scanner/ranking; its penalties are whole points. Scanner/Validation:
-- src/scanner/validation/validator.py, whose verdict is a value; Scanner/Profit/Resolved joins the engine to it.
-- Scanner/Cadence: src/scanner/reconciliation/cadence.py, with the pass of src/scanner/engine.py over it.
--
-- Rpc is the pool of endpoints of src/scanner/adapters/rpc_pool.py. Rpc: the provider and its breaker.
-- Rpc/Rotation: `order`. Rpc/Outcomes: `record_success` and `record_failure`, a call being a function of the
-- provider that `at_url` applies. Bucket: TokenBucket of src/scanner/adapters/rate_limiter.py.
--
-- Config: `validate_config` of src/config/scanner_config.py over the attributes by name, raising being `false`.
-- Config/Layers and Config/Manager: ConfigManager, its layers and their changes; the list `told` is what its
-- subscribers were given.
--
-- Limiter: SlidingWindowLimiter of src/services/rate_limiter.py, `now` being the time that `allow`
-- uses, given or read from the clock.
--
-- Concurrency: each call runs alone, session after session. The state between two sessions of a call,
-- such as after a crash between the grant and the record, is a state like any other, and the
-- theorems about retries speak of it. Access/Overlap takes two deliveries whose gates and charges
-- interleave.
--
-- Times are natural numbers of ticks and amounts natural numbers of cents; a tick is a second where the
-- source compares with a constant number of seconds. Profits and prices of signals are of an abstract
-- type with the operations of decimals, the fields of `Signals.Settings`, of which no law is assumed. Rows hold their key, and a
-- list of rows keeps the order of insertion. What the program takes from outside is an argument: the
-- time, a new row's id, the answer of the payment provider, and, as fields of `Codec`, the signature
-- check, the JSON decoder and the conversions of Python, and whether the database or Telegram fails.
-- Recursion is structural, but for the loop of `acquire` in Bucket, which counts rounds of fuel. The `for` loops
-- of fixed length in Scanner/Fills run for the source's 40 and 60 rounds.
--
-- Not modelled: the Telegram handlers and texts, the network clients of exchanges and chains, the detectors and
-- the assembly of candidates, logging and metrics.
pub mod Prelude
pub mod Users
pub mod Purchases
pub mod Payments
pub mod Signals
pub mod Access
pub mod Alerts
pub mod Onboarding
pub mod Admin
pub mod Scanner
pub mod Limiter
pub mod Bucket
pub mod Rpc
pub mod Config
