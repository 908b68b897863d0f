-- ===== src/Lib.antt =====
-- Sentinel, a host intrusion detector: collectors turn what they read of a Linux host into events, a
-- bounded pipeline deduplicates them, an engine evaluates declarative rules, an alert manager sends
-- what the rules find to its sinks, and a write-behind buffer stores events and alerts. This library
-- models that path from the raw record to the database, and the guard of the HTTP API.
--
-- The parts, with the file that models each:
--
-- - RawEvents, Normalizer: src/sentinel/normalizer/{raw,mapper,enrich}.py. The raw records;
--   `map_raw` with its four mappers, `Normalizer.normalize` as `normalize`, with the dead letters.
-- - Collectors: src/sentinel/collectors/. Each poll of a collector is a function `drain_once` from
--   the collector and what the host answers to the collector after it and the events that it puts on
--   the queue. Clip is `clip` of base.py. Emit is the step from a raw record to an event on the
--   queue or a dead letter, which the collectors share; Snapshot is the comparison of two snapshots,
--   and Snapshot/Replay plays what was found on a table. Process is process.py over Procfs, which
--   reads one process, Network is network.py over the parser Netparse (netparse.py). Integrity is
--   integrity.py: Hashing reads one file, Scan is the walk with the stat cache, the limits and the
--   deadline, Poll is `_drain_once` and `stop`, Watch is a run of polls. AuthLog is authlog.py:
--   Lines cuts chunks into lines, Tail is the open file with its rotation and truncation, Records is
--   `parse_auth_records`, Numbering is `_number`, Poll is `_drain_once`.
-- - Events, Events/Ids: src/sentinel/events.py. The records; `compute_id` over the text `canonical`,
--   the checks of ids, digests and time zones.
-- - Pipeline: src/sentinel/pipeline/. Dedup is `DedupWindow` (`seen`, `__contains__` as `contains`),
--   Queue is `BoundedEventQueue` over the behaviour of `asyncio.Queue`, Runner is `Pipeline`: the
--   consumer loop is cut at its awaits into `fetch` and `finish`, and Runner/Steps interleaves these
--   with the puts of the collectors. Runner/Supervise is the restart of a crashed collector.
-- - Detection: src/sentinel/detection/. Schema and Value are the grammar of rules and the values
--   they read; Checks is the validation at load, Loader is `load_rules`; Evaluator is
--   `evaluate_condition` with every operator; Actions is `required_actions`; Engine is
--   `DetectionEngine` (`evaluate` as `evaluate_event`), with the action index and the thresholds per
--   group.
-- - Alerting: src/sentinel/alerting/. Webhook is the sink of sinks/webhook.py: `emit` with the check
--   of its destination and the retries. Model is `Alert`, Manager is `AlertManager.process` with its
--   gates, Lanes is `_SinkLane`, the bounded queue and worker of one sink.
-- - Runtime: src/sentinel/runtime.py. Buffer is the write-behind buffer: `_consume`, `flush`,
--   `_write_row_by_row`, `_requeue`, `_trim_pending`, `_discard_pending`, cut at the saves, between
--   which events go on being consumed (Buffer/Steps). Consume is `_consume` whole, with the engine
--   and the alert manager. Flusher is the backoff, Retention is `prune`, Paths is the check of
--   watched paths.
-- - Api/Security: src/sentinel/api/security.py. The bearer token, `require_api_key`, and the rate
--   limit.
-- - SlidingWindow: the deque of time stamps that the engine, the alert manager and the rate limit
--   keep in the same way; Limiter is the limit that the last two share. Dict is Python's dictionary
--   with its order of insertion. Prelude holds the shared names, tests, lists, texts and keys, and
--   Prelude/Words the methods of Python's texts that the parsers call.
-- - Tests: concrete runs, and an instance of each theorem that has hypotheses.
--
-- How the code is read. A method that changes `self` is a function from the old record to the new
-- one; what a call of the clock returns is an argument, in microseconds or in ticks of any one size.
-- An exception that a caller handles is a value: `none`, a verdict, a failure. A coroutine is cut at
-- its awaits; a step relation takes the pieces in any order that the event loop can take them. Log
-- lines and metrics are left out. Numbers are natural numbers without a bound, as Python's are; a
-- float in a rule or a view is an exact binary fraction, so NaN and the infinities are left out, and
-- a time is never negative; what the collectors parse as an integer, and a file's times, have a
-- sign.
--
-- Code that is not in the repository is a parameter: the regex engine (`search`, with its timeout),
-- SHA-256, the `ipaddress` module, the dump of a pydantic model, whether pydantic accepts an event,
-- the table of the event model's fields, the answers of the database, how a callback or a delivery
-- ends. So are the answers of the kernel (the files under /proc, `lstat`, `fstat`, `read`,
-- `os.walk`), which the collectors read and do not trust, the spelling of an IPv6 address, the parts
-- of a URL, the answers of DNS and of an HTTP endpoint, what YAML and pydantic make of a rule file,
-- which patterns compile, what the regular expressions of authlog.py find, and what the calendar
-- makes of a time stamp there. `os_text` and the decoding of bytes are parameters as well: a text
-- here has no lone surrogates for them to repair. The methods on texts (`split`, `strip`, `isdigit`,
-- `int`) are those of Python for ASCII.
--
-- Fuel. `prune_loop` runs on fuel: a batch that is not the last deletes a full batch, so one unit
-- for each expired row, and one more, are enough. `digest_loop` runs on fuel: each round reads a
-- byte or ends, so one unit for each byte that may be read, and one more, are enough. `read_lines`
-- runs on two units: after a rotation it reads the new file, and that one is the file at the path.
-- `decimal` writes a number n on n + 1 units. All other loops are recursions on the list they walk.
--
-- Not modelled: the loops of the collectors that repeat a poll until the stop, the flag of an
-- available source, the year of a BSD time stamp, the body and the signature of a webhook's POST,
-- the console and email sinks, the queries of src/sentinel/storage/, the settings, logging, metrics,
-- the command line, the FastAPI application and the migrations; of asyncio, the creation and the
-- cancellation of tasks.
pub mod Alerting
pub mod Api
pub mod Collectors
pub mod Detection
pub mod Dict
pub mod Events
pub mod Normalizer
pub mod Pipeline
pub mod Prelude
pub mod RawEvents
pub mod Runtime
pub mod SlidingWindow
pub mod Tests
