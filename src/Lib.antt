-- ===== src/Lib.antt =====
-- PayTwin OS: the decision core of a payment reliability service, modelled from its Python sources.
--
-- The service turns provider callbacks into canonical events, applies them to its tables, judges
-- interventions by a policy, and tests merchants' webhook handlers in a Reliability Lab. Paths below
-- are from services/api/paytwin_api.
--
-- Payments: services/state_machine.py, with the tables of models/pipeline.py and the enums and
-- events of packages/contracts. Rows holds the records and the tables, Transition the lifecycle of
-- one payment, Refunds `_apply_refund`, `_settle_refund` and the two sweeps over held refunds,
-- Apply `_ensure_payment`, `_ensure_order`, `_mark_order_paid`, `_apply_status` and `apply_event`,
-- Fulfil `record_fulfilment`. Money, Frame, Lifecycle, Credit and Fulfil/Once prove.
-- Reliability: reliability/engine.py, fixtures.py and invariants.py. Events holds the events, the
-- policies of the handler and its world, Engine `handle` and `_fulfil`, Invariants the evaluators,
-- Scenario `run_scenario`. Correct, Captured, Fulfilled, Upheld, Amounts, Signatures and Limits
-- prove.
-- Policy: services/policy.py. Decision holds `merge_rules` and `evaluate` with its context and
-- result, Active `active_rules` over the versioned policies, Validate `validate_rules` over the
-- values of a JSON object; Limits, Report, Admitted and Effective prove.
-- Audit: services/audit.py. Chain holds `append_audit` and `verify_chain` over the records and the
-- checkpoints of the database, with the hash of a text and a payload as a parameter; Append and
-- Tamper prove.
-- No other writer comes between the attempts of an append.
-- Checkout: services/checkout_verification.py. Verify holds `_checkout_secret`, `_record` and
-- `verify_razorpay_checkout` over the tables of Payments, with the HMAC as a parameter; Genuine
-- proves.
-- Tenancy: the merchants and integrations of models/tenancy.py and models/measure.py.
-- Bus: services/bus.py. Delivery holds subscribers with their bounded queues, the outbox and the
-- events that wait, and the hooks, which run at the end of a transaction and of a savepoint; History
-- holds the histories of one session; Sound, Safe, Known and Order prove.
-- In the histories of Ingest below nothing waits where one of its savepoints ends, so there they
-- are left out.
-- Ingest: services/ingest.py, connectors/base.py and connectors/registry.py. Envelope, Redact and
-- Secrets hold the stored envelopes, the redaction and the active secrets, Accept
-- `accept_webhook`, Materialize `materialize_inbox`, `ingest_webhook` and
-- `process_pending_inbox`, which call `apply_event` of Payments and `publish_outbox` of Bus. Once
-- names what holds between operations; Replay, Materialized, Reached, Sound, Authentic, Rotation and
-- Clean prove. What other sessions commit between a lookup and the insertion that follows is an
-- argument, `others`.
-- Connectors: connectors/base.py, razorpay.py, simulator.py and mockprovider.py. Dialect holds what
-- the adapters share, Razorpay and Generic their `normalize` on payloads whose fields have the
-- documented types, Draws the simulated action; RefundEntity and Agnostic prove. The digests and
-- the conversions of instants and of rupees are parameters. An adapter here is what the interface
-- `Connector` of Ingest stands for.
-- Reconciliation: services/reconciliation.py. Sweep holds `reconcile_financial_state`, which calls
-- `reconcile_pending_refunds` of Payments, and the counts of `operational_status`; Cleared and
-- Retired prove, the latter against `_secrets_for` of Ingest.
-- Release: reliability/packs.py, router.py and store.py. Packs holds the shipped suites and the
-- presets, Suite `_execute_suite`, `_finding` and `_gate`, which call `run_scenario` of
-- Reliability, Evidence the runs, their store and the release gate, Views the other endpoints;
-- Verdict, Recorded, Gated and Fair prove. What the checks of the runtime sandbox observe is an
-- argument.
-- Local: `simulate_payment`, `simulate_refund` (Emulator) and `simulate_payment_link_outcome`
-- (Outcomes) of services/razorpay_local.py on the tables of Payments. Their webhooks go through
-- `normalize` of Connectors to `apply_event`, as ingestion does with a genuine new delivery.
-- Refunded and Settled prove.
-- Executor: services/executor.py and connectors/execution.py, with `create_order`,
-- `create_payment_link` and `cancel_open_payment_links` of services/razorpay_local.py. Links holds
-- the local payment links, Dispatch `_dispatch`, Request `request_execution`, which asks `evaluate`
-- of Policy, and `approve_and_execute`, Monitor the monitoring and halting. Frame, Gate, Ledger,
-- Sent, Dispatched, Budget, Watched, Requested, Reached and Retries prove. The adapters, the
-- environment, the key of a request and the references of its links are parameters
-- (`Deployment`), and the texts of errors are shortened. What other sessions commit within a
-- request, or between the unlocked read of an approval and its dispatch, is an argument, `others`;
-- the histories of Reached have no other session within an approval, a halt or a pass of the
-- monitor. `calls` lists the calls
-- of the adapters in transactions that came through: one that raises is rolled back as a
-- whole, its calls with it.
-- Prelude and Table are shared: tests, lists, error results, and tables as lists of rows.
--
-- A table is the list of its rows in the order of insertion, a query takes the first row that
-- passes its tests, and an insertion takes the next id of a counter. The database session is passed
-- through each operation, and an exception is an error value with no new state. Texts are native
-- strings, times and amounts natural numbers; Python's truth values of texts and numbers are
-- written out. No operation here runs on fuel: the loops of the code go over lists or a
-- fixed number of attempts.
--
-- Not modelled: the other HTTP routers, the database sessions and migrations, the statistics on
-- floating-point numbers and the web console, which are calls of frameworks or arithmetic that a
-- natural number does not stand for; log texts and formatted messages. The callback that a link
-- sends to ingestion when the executor cancels it, provider payloads whose fields have other types
-- than the documented ones, the synthetic deliveries of the runtime sandbox, and the incident
-- service are outside this library.
pub mod Audit
pub mod Bus
pub mod Checkout
pub mod Connectors
pub mod Executor
pub mod Ingest
pub mod Local
pub mod Payments
pub mod Policy
pub mod Prelude
pub mod Reconciliation
pub mod Release
pub mod Reliability
pub mod Table
pub mod Tenancy
