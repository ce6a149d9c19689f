-- ===== src/Lib.antt =====
-- A model of the core of owlclaw, a Python library that lets business programs be run by AI agents
-- under governance: what an agent may see and do, what its runs cost, who has to confirm them, and
-- which events start them.
--
-- The parts and how they interact. A trigger (a message of a queue, a change in a database, a
-- signal of an operator, an HTTP request, a clock) starts a run of an agent. Before a run, the
-- visibility filter decides which capabilities the agent is shown: the risk gate first, then the
-- constraints (budget, rate limit, circuit breaker, confirmation, trading hours), which read what
-- the ledger has recorded of earlier runs. Each run is recorded in the ledger. Decisions that
-- people have to make wait in the approval queue or, for risky operations, in the risk gate.
-- Skills are published in OwlHub after a review.
--
-- The files, and the code that each is about (paths from the root of the repository):
--   Governance/ApprovalQueue   owlclaw/governance/approval_queue.py: InMemoryApprovalQueue
--   Governance/Ledger          owlclaw/governance/ledger_inmemory.py: InMemoryLedger; the filters of
--                              owlclaw/governance/ledger.py
--   Governance/LedgerWriter    owlclaw/governance/ledger.py: Ledger, less its queries
--   Governance/Visibility      owlclaw/governance/visibility.py: VisibilityFilter, RunContext
--   Governance/Constraints     owlclaw/governance/constraints/: Budget (budget.py), CircuitBreaker
--                              (circuit_breaker.py), RateLimit (rate_limit.py), RiskConfirmation
--                              (risk_confirmation.py), TradingHours (time.py)
--   Security/Audit             owlclaw/security/audit.py: SecurityAuditLog
--   Security/RiskGate          owlclaw/security/risk_gate.py: RiskGate
--   Triggers/Signal            owlclaw/triggers/signal/: models.py; State (state.py), Handlers
--                              (handlers.py), Router (router.py)
--   Triggers/EventAggregator   owlclaw/triggers/db_change/aggregator.py: EventAggregator
--   Triggers/DbChange          owlclaw/triggers/db_change/manager.py: DBChangeTriggerManager (Events:
--                              _on_event); Redaction beside it: _redact_sensitive_data
--   Triggers/Queue             owlclaw/triggers/queue/: models.py, config.py, what parsers.py
--                              raises; Idempotency
--                              (idempotency.py); Retry, Tenant, Processing, Worker
--                              (trigger.py)
--   Triggers/Cron              owlclaw/triggers/cron.py: Registry (CronTriggerRegistry), Constraints
--                              (_check_constraints_core), Breaker (CircuitBreaker), Execution and
--                              Run (_run_cron), Scheduler (PriorityScheduler)
--   Triggers/Webhook           owlclaw/triggers/webhook/: types.py; Validator (validator.py), Manager
--                              (manager.py), Execution (execution.py), Governance (governance.py)
--   Agent/ShortTerm            owlclaw/agent/memory/stm.py: STMManager
--   Agent/MemoryStore          owlclaw/agent/memory/store_inmemory.py: InMemoryStore
--   Agent/Maintenance          owlclaw/agent/memory/lifecycle.py: MemoryLifecycleManager
--   Hub/Review                 owlclaw/owlhub/review/system.py: ReviewSystem; ReviewId its patterns
--   Common                     lists, dictionaries, texts, sorting, integers, times, exceptions
-- A definition has the name of the function that it models, without a leading underscore; a `Tests`
-- module beside a part has small runs of it.
--
-- How the code is read. The state of an object is a record, and a method is a function from the
-- arguments and the state to the result and the new state; one that may raise returns `Result`,
-- and gives the new state beside it where the code changes something before it raises. A method
-- that holds a lock is one step. The readings of the clock, new ids and random values are
-- arguments. Dictionaries are lists of items in order of insertion. Times are in microseconds;
-- decimals are whole multiples of a smallest step; a budget ratio is in millionths. All recursion
-- is on a list or a number, so that nothing needs fuel: the retries of the queue and webhook
-- triggers and of a flush recurse on the number that is left of them.
--
-- What is a parameter: the runtime, governance hooks, callbacks, queue adapters, the authorizer,
-- HMAC and hashes, the process environment, parsing, JSON texts and the tokenizer are functions on
-- a state of their own, which may raise; nothing else is assumed of them, except that the hashes
-- of bearer tokens are ASCII texts in the result about them. `lower` is exact for ASCII only.
--
-- What is not modelled: the queries of the ledger and the signal state on a database, the file
-- that the audit log may be written to, metrics for Prometheus, the HTTP server and the
-- transformer of the webhooks, the API trigger, the schedules of cron expressions, the agent's
-- runtime, the search of its memories, the rest of OwlHub, the integrations, the command line and
-- the web console.

pub mod Agent
pub mod Common
pub mod Governance
pub mod Hub
pub mod Security
pub mod Triggers
