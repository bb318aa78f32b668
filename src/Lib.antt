-- ===== src/Lib.antt =====
-- CloudCause: the deterministic core of an agent system that explains changes of cloud spending.
--
-- The program measures two periods of cost records, hands the material changes to language-model
-- agents, and publishes the agents' findings only where evidence supports them. The model follows the
-- Python packages of the repository, one module for each package or part of one.
--
--   Contracts   packages/contracts/src/cloudcause_contracts: the data types that the components
--               exchange. Common has providers, origins and date ranges, Analytics the outputs of the
--               comparison, Investigation the findings, their evidence and the issues of validation,
--               Records the cost records and audit events (`numeric_attribute`, `token_count`),
--               Knowledge the billing rules, Request and Report what an investigation is asked and
--               gives, Bundle what a specialist may read.
--   RateLimit   packages/rate_limit/src/cloudcause_rate_limit. Memory is memory.py: token buckets
--               (`acquire_tokens`), permits (`concurrency_permit` as entering, taking a slot, timing
--               out, being counted and leaving) and `evict_inactive`. Redis is the scripts of
--               redis_backend.py as functions on the stored value. Admission is admission.py over any limiter, Governor
--               `permit` of governor.py over any limiter and event loop. Protocol has the results
--               and errors, and `fail_closed`.
--   Evidence    packages/evidence/src/cloudcause_evidence/validation.py. Checks has the nine checks of
--               `validate_findings` one by one, Validate their composition and the loop, Ranking
--               `rank_findings`.
--   Anomaly     packages/anomaly/src/cloudcause_anomaly/comparison.py. Daily is `daily_totals`,
--               Aggregates `_Aggregate` and the loop that fills the aggregates, Compare the
--               candidates, `compare_provider`, `compare_periods` and `reconcile`, Groups
--               `group_changes` and `group_changes_by_actor`. Of actors.py, Actors is the join with the
--               audit trail, the weights and `_split_record`, Allocation `allocate_actor_costs`.
--   Datasets    packages/datasets/src/cloudcause_datasets. Model is models.py, Store the in-memory store
--               of store.py, Topology its choice of a store, Assembly `add_source` and `seal_dataset`
--               of assembly.py.
--   Worker      packages/worker_core/src/cloudcause_worker_core: Jobs is jobs.py, Budget the call budget and
--               Capacity the limit of live investigations of live_limits.py. Engine is `investigate` of
--               engine.py, RetryPolicy is retry_policy.py. Retry is retry.py of packages/rate_limit.
--   Knowledge   packages/knowledge/src/cloudcause_knowledge/store.py: Store is `KnowledgeStore` with the
--               choice of a rule by date (`_select`), citations and `build_knowledge_provenance`.
--   Focus       packages/focus/src/cloudcause_focus: Normalizer is `filter_records` and the projection to
--               FOCUS, Versions the guards on schema versions, Categories and Parsers the tables of
--               service and charge categories with the helpers of the parsers; Cells and Rows are the
--               parsers of the three providers' exports, on rows whose cells are texts or missing.
--   Playbooks   packages/worker_core/src/cloudcause_worker_core/playbooks.py and what it reads of
--               context.py: Match chooses a playbook, Score is `_score_confidence`, Build
--               `build_finding` and `run_playbooks`.
--   Orchestrator  services/orchestrator_adk/src/cloudcause_orchestrator: Planner is planner.py; Load is
--               `_load_costs`, Responses `_investigate` and what is collected from the answers, Run
--               `_run`, Sources `_dedupe_sources` and `_report_origin`, Workers the in-process clients.
--   Prelude     what the modules share: Boolean tests, equality, lists, dictionaries in insertion
--               order, stable sorting, texts, and the interface of floating-point numbers.
--
-- How the parts interact: admission asks a limiter before an investigation starts; a run loads and
-- filters the costs of each provider, compares the periods, plans one task for each provider, asks
-- the workers, and validates, ranks and reconciles what they found. The comparison makes the
-- candidates that validation measures findings against; the playbooks explain candidates with the
-- rules that the store gives for the day; a sealed dataset supplies the records and says which sources
-- a cause can rest on; a job carries the events to the reader.
--
-- State is passed explicitly: an operation takes the state and the clock's reading and gives the new
-- state with its answer. An await that can interleave ends one operation and begins another, so
-- interleavings are sequences of steps (RateLimit.Memory.Steps, RateLimit.Redis.Leases,
-- Datasets.Sealed, Worker.Capacity). The in-process limiter follows asyncio of Python 3.11, the
-- version of the Docker image: a caller of `concurrency_permit` looks up its semaphore, takes a slot
-- or waits in a later step, and counts itself in another one. An error is a value. A lock that covers
-- a whole method makes it one step and is not state.
--
-- Floating-point numbers are a parameter `Num` with the operations of `FloatOps`; the laws that a
-- theorem needs are the record `FloatLaws`, which holds of finite IEEE 754 doubles and assumes
-- neither associativity nor exactness. So nothing is stated of sums of shares, which the source makes
-- exact up to the rounding of doubles only. Prelude.Micro, numbers in millionths, implements the
-- interface, and the tests run on it. Dates are day numbers and time stamps are natural numbers.
-- Loops are structural; fuel is used in Prelude.Text, for the digits of a number, of which twenty are
-- enough for the index of a candidate, and for the part of a text behind its last separator, where
-- its length is enough, and in RateLimit.Governor for the wait for a token, where one more than the
-- rounds that the clock leaves is enough.
--
-- Not modelled: message texts, which the model keeps as the values they are built from; the database,
-- Redis and HTTP clients; agent frameworks; the detection and the parsers of uploads in
-- packages/datasets; cells of an export that are no texts; the reading of rule files; the summary of
-- a report and progress events; the cancellation of a caller that waits for a permit; the gathering
-- of evidence and the tools of the workers; the gateway, the web console and the deployment.
-- Interfaces stand for the parts of the program that a component only calls: the limiter, the
-- adapters of the providers, the workers, and the gathering of evidence. Parameters stand for what
-- the code takes from elsewhere: the size of a dataset's JSON, the hash of a peer address, random
-- numbers, what Python's library reads of a text (numbers, ISO dates, JSON, lower case) and how it
-- writes an amount of money, how Lua writes a number, the first day of a month, and what a parser
-- made of a file.
pub mod Prelude
pub mod RateLimit
pub mod Contracts
pub mod Evidence
pub mod Focus
pub mod Knowledge
pub mod Anomaly
pub mod Datasets
pub mod Worker
pub mod Orchestrator
pub mod Playbooks
