-- ===== src/Lib.antt =====
-- Verification library of the P2 knowledge graph: the satellite (src/p2_satellite) and the patch to
-- core (core-side-patch).
--
-- The satellite keeps a graph of AI systems, regulations, obligations and controls, derives by a
-- walk from a system the obligations and controls that hold for it, and pushes them to core. Core
-- checks the ids against its catalog, derives again from its own tables and compares. Core's change
-- events come to the satellite's webhook, which schedules a derivation.
--
-- Files, and what they model:
--   Base (Tests, Lists, Equality, Sets, Strings, Dicts, Groups, Sorting): Python's
--     str as a list of code points, set
--     as a list without repetition, dict as an association list in the order of insertion.
--   Schema (RoundTrip): src/p2_satellite/schema.py: type names, node_id, split_node_id.
--   Worklist, Paths: loops on a stack, and walks and simple paths over any relation.
--   Traversal (Step, Notes, Loop, Search, Correct, Reports, Coverage): src/p2_satellite/traversal.py.
--     networkx's DiGraph is the record of what the walk reads of it. Walking holds the local
--     variables of _traverse, follow_edge is the body of the for loop, expand that of the while loop.
--   Reference (Step, Loop, Search, Correct): core-side-patch/reference_traversal_cte.py, the path in
--     Python over core's rows.
--   Validation (Laws): core-side-patch/validation.py.
--   Agreement: the contract between the two traversals and the comparison.
--   RateLimiter (Laws, Bounds): core-side-patch/rate_limiter.py.
--   Concurrency (Exclusion): src/p2_satellite/concurrency.py; several callers are a step relation.
--   Webhook (Header, Replay, Record, FirstUse, Genuine, Once, Capacity, Handler):
--     src/p2_satellite/event_listener.py.
--   Tables (Upsert, Links): core-side-patch/models.py. Upsert is upsert_graph_structure: Single is the query of
--     one row, Nodes, Store and AllNodes the first loop, Edges, Link and AllEdges the second, Snapshot
--     both; Repeated, Raises and Unique are about manual edges. A query of one row that finds
--     several raises, which is none.
--   MismatchMetrics: core-side-patch/mismatch_metrics.py.
--   Outbox: core-side-patch/change_event_outbox.py.
--   Ingest (Contract, Batch, Routes, Entries, Persisted): core-side-patch/routers/patent_ingest_p2.py.
--   BreadthFirst (Ends, Visit, Follow, Rounds, Exact): the queue loop that the two searches of
--     core-side-patch/graph_query.py share; they differ in the edges and in what they note.
--   GraphQuery (Search, OrgGraph, Subgraph, Upstream, Needs, Latest, Gaps): core-side-patch/graph_query.py.
--   KnowledgeRouter (Derive, Organisation, Edges, Affected, Pages):
--     core-side-patch/routers/patent_knowledge_graph_p2.py. Governance holds what a request changes.
--   Scheduler (Chunks, Event, Release): src/p2_satellite/scheduler.py, and the background job of
--     src/p2_satellite/event_listener.py. What core answers to a push is a parameter.
--   Retry (Attempts, Requests): tenacity's retry decorator, as an interface with its documented laws, and what one
--     request of httpx comes to.
--   GraphBuilder (Calls, Exact, Perform, Built, Ready, Whole, Layered, Structure, Fetch, Fetch/Steps): src/p2_satellite/graph_builder.py. build_graph
--     is the list of its calls of add_node and add_edge, made one after the other of networkx, which
--     is an interface with its documented laws.
--   IngestClient (Outcome): src/p2_satellite/ingest_client.py.
--   Access: core-side-patch/dependencies.py and permissions.py, the scoped API keys.
--   Export (Changed): core-side-patch/data_providers.py and routers/patent_exports_p2.py.
--   Delivery (View, Received, Mirrored, Accepted, Reported, Validated, Exported, Complete): the path from the exports to a
--     validated derivation. The JSON that ingest_client.py sends is read as the models of
--     core-side-patch/routers/patent_ingest_p2.py, with their defaults.
--   Tests: concrete inputs at which the theorems are applied.
--
-- The two walks run on fuel: (edges + 1) ^ bound rounds. A round takes a frame off the stack and puts
-- at most one frame per edge on it, each one edge deeper, so this many rounds are enough; the
-- theorems below say that the walks return. The breadth-first search has one round for the start and
-- one for each edge, since a node enters the queue once. Times are whole seconds, where Python has floats.
--
-- A TypeError that hmac.compare_digest raises for a digest that is not ASCII counts as a refusal, and the
-- entry of a caller into the lock of a system is one step.
--
-- Not modelled: the SQL text that Postgres runs, logging and metrics, FastAPI's routing, the
-- migrations, and configuration from the environment.
pub mod Base
pub mod Schema
pub mod Worklist
pub mod Paths
pub mod Traversal
pub mod Reference
pub mod Validation
pub mod Agreement
pub mod RateLimiter
pub mod Concurrency
pub mod Webhook
pub mod Tables
pub mod MismatchMetrics
pub mod Ingest
pub mod GraphQuery
pub mod Scheduler
pub mod Outbox
pub mod BreadthFirst
pub mod Retry
pub mod GraphBuilder
pub mod IngestClient
pub mod Access
pub mod Export
pub mod Delivery
pub mod KnowledgeRouter
pub mod Tests
