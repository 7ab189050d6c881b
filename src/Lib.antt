-- ===== src/Lib.antt =====
-- HISIEM SOC Copilot: the core of the investigation and response runtime.
--
-- The program runs investigations of security alerts and, after human approval, submits response
-- actions to the HISIEM SOAR service. Its core is a set of aggregates with state machines, command
-- handlers that change them in database transactions, an outbox table that the transactions fill
-- with deliveries, dispatchers that lease deliveries to workers, and runners that the dispatchers
-- call. An agent graph consults a model under a budget, and a retrieval service answers questions
-- from a corpus of knowledge, with citations that can be resolved. Paths are from the root of the
-- repository.
--
-- Prelude and its children hold what all modules share: Boolean tests, lists over the native
-- numbers, texts, and calls that return or raise. Shared has the value objects of
-- src/hisiem_soc_copilot/domain/investigation/value_objects.py.
--
-- Investigation is src/hisiem_soc_copilot/domain/investigation/aggregate.py with its enums and
-- events: the record of the aggregate, the transition table, and one function per method, which
-- returns the aggregate that the method leaves or the error that it raises. Operations has the
-- calls and their sequences, Lifecycle single calls, Traces sequences.
--
-- Commands is the start of an alert investigation
-- (src/hisiem_soc_copilot/application/handlers/investigation.py) and the commands that run once
-- (src/hisiem_soc_copilot/application/handlers/durable_support.py), over the committed rows of
-- src/hisiem_soc_copilot/infrastructure/persistence/repositories/durable.py and investigation.py.
-- A commit is refused by the unique indexes of
-- src/hisiem_soc_copilot/infrastructure/persistence/orm. In Start each database step is a
-- transaction of its own, and an argument says what other transactions have committed before the
-- n-th of them; Receipts, Binding, Again, Indexes and Uniqueness have the theorems. Idempotent
-- takes the body of a command and its replay as arguments.
--
-- Commands.Cancel is the cancellation of an investigation, with the optimistic update of
-- src/hisiem_soc_copilot/infrastructure/persistence/repositories/investigation.py; Stopped has its
-- theorems.
--
-- Outbox is SqlAlchemyOutboxStore of
-- src/hisiem_soc_copilot/infrastructure/persistence/repositories/durable.py and the outbox half of
-- the event ledger there. A table is a list of rows, a statement a function on it. Actions has the
-- statements of any number of workers and their sequences, where a claim may use a row that was
-- selected at any time; Rows, Fencing, Races, Selection, Batches, Claims and Invariant have the
-- theorems.
--
-- Dispatcher is src/hisiem_soc_copilot/infrastructure/durable/dispatcher.py: the claim, delivery,
-- lease renewal and settlement of one worker over the table. The resolver, the runner and the hook
-- for exhausted retries are parameters. Settlements has single deliveries, Rounds a delivery in a
-- whole round, Retries rounds over time.
--
-- Response is src/hisiem_soc_copilot/domain/response/aggregate.py; ActionSpecs is
-- src/hisiem_soc_copilot/domain/response/actions.py and Policy is
-- src/hisiem_soc_copilot/domain/response/policy.py; Lifecycle has sequences of calls.
--
-- Workflow has the rows of one response workflow, its events and its repositories
-- (src/hisiem_soc_copilot/domain/response/value_objects.py and events.py,
-- src/hisiem_soc_copilot/infrastructure/persistence/repositories/response.py). Creation and
-- Approval are the two handlers of src/hisiem_soc_copilot/application/handlers/response.py;
-- Submission is the submit runner and the exhaustion hook, Observation the observe runner of
-- src/hisiem_soc_copilot/infrastructure/durable/response_runner.py. Shapes says how the rows fit
-- together, and the Consistency module of each part that it keeps them so. Runs interleaves
-- commands, deliveries and answers of the provider: a delivery reads in one action and writes in a
-- later one. Decisions and Deliveries have the theorems on runs and on whole deliveries.
--
-- Budget is src/hisiem_soc_copilot/agent/graph/budget.py with the consults and the tools that the
-- nodes of src/hisiem_soc_copilot/agent/graph/nodes.py spend of it; Spending has the theorems.
--
-- Graph is src/hisiem_soc_copilot/agent/graph/builder.py with the part of
-- src/hisiem_soc_copilot/agent/graph/nodes.py that the routing reads: the markers, the counters,
-- the pending request and the guard against repeated failures. A run is a sequence of visits of
-- nodes, each with the answers that it reads; a node may raise at any visit. The number of visits
-- is the fuel, and Termination has the number that is enough; Completion is about runs in which
-- nothing raises. LangGraph's recursion limit, which
-- src/hisiem_soc_copilot/infrastructure/durable/investigation_runner.py and `thread_config` leave
-- to its default, is an argument of `ainvoke`: a run that it cuts short raises.
--
-- Knowledge is src/hisiem_soc_copilot/application/services/knowledge_retrieval.py with its ports
-- and values: Texts (white space and code points), Uuids, Citation
-- (src/hisiem_soc_copilot/domain/knowledge/value_objects.py), Query (normalization and search
-- terms), Ranking (the fusion of ranked lists), Diversification (the page and the excerpts),
-- Corpus (the two candidate queries of
-- src/hisiem_soc_copilot/infrastructure/persistence/repositories/knowledge.py), Retrieval (the
-- service in its three modes) and Resolution (the citation resolver). The children of each have
-- its theorems. A text is a list of code points, and a UUID a number below 16 ^ 32. NFC, SHA-256,
-- the embedding provider, the floating-point operations, and the matching and the orders of
-- PostgreSQL are arguments. The limits are those of the source.
--
-- Conventions. Elsewhere a UUID, a content hash and a row version are numbers, a time is a number
-- of microseconds. What the code draws is an argument: the time, fresh UUIDs, lease tokens, the
-- digest of a content, the text and the parsing of a UUID, the answers of the provider. A database
-- transaction is atomic and leaves no trace when it raises. Rows of equal age are selected in
-- table order. Texts of errors are constructors. No recursion but the graph's needs fuel: loops
-- run over lists or over a given number of checks.
--
-- Not modelled: event ids and event times, asyncio tasks, in-process locks and logging, foreign
-- keys, the unique command id of a receipt and its bounded result, the reread after a lost race of
-- two first creations of a response, int() on digits that are not ASCII, and the columns of an
-- event that say who caused it. Of the graph, the rows that the nodes write and the assessments
-- and the verdict of the model. The workflow handlers of an investigation, the agent's tools, the
-- ingestion of knowledge, the evaluation tools, the screen's queries, the HTTP interface, the
-- adapters and the configuration are not modelled.
pub mod Prelude
pub mod Shared
pub mod Investigation
pub mod Commands
pub mod Outbox
pub mod Dispatcher
pub mod Response
pub mod Workflow
pub mod Budget
pub mod Graph
pub mod Knowledge
