-- ===== src/Lib.antt =====
-- The price-streaming backend of this repository: feed adapters publish ticks on Redis streams,
-- consumers read them with at-least-once delivery, and CI tools guard the contracts between them.
--
-- The parts, and where they are modelled. Each module's sub-modules hold what is proved of it.
--
-- Prelude: shared names, Boolean tests, `Eq`, lists, texts as lists of code points, Python's `dict`
-- as an association list in insertion order (`get`, `put`), `sorted`, signed integers, and results,
-- where an exception is an `err`.
--
-- Records (libs/tqtk-common/src/tqtk_common/records.py): `Tick` and `Bar`. `construct` is what
-- pydantic does with field values of the annotated types: the field constraints, then the model
-- validator. `float` is the parameter `Floats` with the laws of comparison that are used;
-- `Coercion` is the text of numbers. Wire has `to_dict`, `to_wire` and `from_wire`; Timeframe the
-- two enums.
--
-- Session (session.py of the same package): `FeedSession`, whose `next_seq` numbers the ticks of
-- each (provider, symbol). `assign` is a sequence of calls in the order in which the tasks make
-- them.
--
-- Delivery (delivery.py): `DeliveryTracker.observe`, by cases on the mark of the stream, and
-- `observe_all` over the records that one consumer reads. EndToEnd joins it with Session.
--
-- Names (names.py): `tick_stream`, `bar_stream`, `bar_state_key` and the patterns that guard them.
--
-- Runtime (server.py): Readiness is the dictionary of dependencies under the lock, one call at a
-- time; Handler one HTTP request, with the outcome of each write to the client, and in Alerts the
-- log lines of the request and its connection; Lifecycle `start`, `stop` and the context manager,
-- with what they do to the socket and the thread as a trace of events. Binding and starting the
-- thread may raise, and a stop may wait for ever.
--
-- Config (config.py): `ServiceConfig` as a reading of the environment, field by field, with the
-- errors of all fields. What pydantic-settings does is written out there.
--
-- Storage (testing.py): `load_contract` over a file system that is a parameter; in Ddl the
-- statements of `render_ddl`, and `create_schema` over a cursor. Reader has a reader of the CREATE
-- TABLE statement, which is no code of the repository: the statement is checked against it.
--
-- Logs (logs.py): the fields of a log line, and the handlers of the root logger. What the `logging`
-- library puts on a record and `json.dumps` are the parameter `Logging`.
--
-- Feed (services/feed-adapter-synthetic/src/feed_adapter_synthetic/): Distributions
-- (distributions.py), Decimal (the part of `decimal.Decimal` that the others use), Generator
-- (generator.py, calibration.py, sinks.py), Concurrent (`run_synthetic_feed` of generator.py),
-- Calibration (calibration_store.py), Config (config.py), and Process and Main (__main__.py).
--
-- Generator: `run_symbol` is `_run_symbol` over a list of rounds: a round gives the clock's
-- reading, the shutdown signal, the outcome of the sink and the `next_seq` calls of the other
-- symbols' tasks since the last one. When the rounds are used up, the task is pending: statements
-- about the ticks hold for every number of rounds. The random generator is the parameter `Random`.
-- Concurrent has all tasks of one session: each waits at an await, and an event ends the wait of
-- one of them; the session goes from event to event. Calibration: `load` over what Redis replies in
-- its three round trips, with every check that raises a `CalibrationError`, each reply under the
-- key that was asked for; Calibration/Pipeline has the commands that are queued and the reading of
-- the replies one after another, and Trips the load by them. Process: `wait_for_redis` and
-- `_run_service` leave a trace of what they do (retries, marks of readiness, entries, server and
-- client), composed of Runtime, Calibration and Concurrent; an `Env` is what the outside makes of
-- the run. Main joins it with the settings and the logging.
--
-- Ci (tools/ci/): Affected (affected_members.py), from changed paths to the members to build, and
-- Additive (additive_only.py), the check of one contract version against the one before it, and
-- Released (the same file), the check of a released version against its edit or deletion and
-- `main`. There the files on disk and at the base ref are arguments; Released/Git has the calls of
-- git that give the latter, whose answers are arguments.
--
-- Fixtures has concrete instances of the parameters, and Tests runs the definitions on them.
--
-- Fuel occurs twice: in `Feed.Decimal.excess`, which counts the digits of a number beyond 28, its
-- fuel is the number itself, which is above its count of digits; in `Storage.digits` it is one more
-- than the number that is shown, and each digit divides that by 10.
--
-- Not modelled: the metrics, which wrap the Prometheus client, the texts of errors and of printed
-- lines, the command lines of the CI tools, and the installing of the signal handlers, which set
-- the `stop` that a run is given. Closing a Redis client is taken to succeed. Of a run whose task
-- failed, the entries are those until the other tasks are cancelled. Where a float operation or a
-- draw raises is a parameter, of which only the laws of division and logarithm are used; a sleep of
-- NaN seconds raises, as from Python 3.13 on. Decimal exponents are unbounded.
pub mod Prelude
pub mod Records
pub mod Session
pub mod Delivery
pub mod Names
pub mod Config
pub mod Runtime
pub mod Logs
pub mod Ci
pub mod Storage
pub mod Feed
pub mod Fixtures
pub mod Tests
