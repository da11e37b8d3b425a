-- ===== src/Lib.antt =====
-- Verification of searchkernel, a search engine library in Python.
--
-- The library indexes records from several sources into keyword, vector and graph stores, searches
-- them by fused lanes, caches what it computed, and migrates its vectors from one embedding model to
-- another. The model, by file:
--
-- - Exec, Exec/Triple, Exec/Runs, Exec/Grows: methods that change state and may raise, with rules for
--   what they keep, for what they return (total correctness) and for what they leave behind.
-- - Dict: Python dictionaries, ordered ones too, as the list of their items.
-- - Reindex: the embedding-model migration. Reindex/Domain is searchkernel/domain/reindex.py,
--   Reindex/Ports is searchkernel/ports/reindex.py and the fields of `ReindexRoutine`, and
--   Reindex/State, Backfill, Source, Transitions and Serving are the methods of
--   searchkernel/runtime/reindex.py. The stores, the embedding provider, the paged record source, the
--   clock, JSON, base64 and the digest are parameters; the clock and the digest do not raise, and a
--   record's key and text do where its identity is not valid. A message that the code formats is kept
--   as the parts that it is formatted from. `while True` of the paged backfill runs on fuel, and `none`
--   says that it was still running; the backfill over a sequence counts its rounds and needs no fuel.
--   Reindex/Consistent says which states may be saved, Reindex/Keeps goes through the methods,
--   Reindex/Complete is about the backfill over a sequence, Reindex/Switched about a flip with stores
--   that answer, and Reindex/Resumed about resuming after a failure.
-- - Chunking: the fixed-window chunker of searchkernel/chunking/fixed_window_chunker.py. Its loop runs
--   on the size of the text as fuel, and every round moves on by one character at least.
-- - Batching: the generators of searchkernel/utils/ordered_key_chunks.py (Batching/Keys) and
--   searchkernel/indexing/batches.py (Batching/Records), as the lists of what they yield.
-- - Cache: searchkernel/runtime/canonical_cache.py. Cache/Bounded is
--   `_BoundedCache`, Cache/Flights has the single flights that both caches share, Cache/Candidates and
--   Cache/Hydration are the two caches. Cache/Single lets threads interleave between the sections that
--   hold the flight lock. The clock is an argument, in its own unit. Values are never changed in place,
--   so that no clone is modelled; keys are any type with decidable equality.
-- - Bootstrap: the first build of an index. Bootstrap/Readiness is
--   searchkernel/indexing/runtime_readiness.py. Bootstrap/Records, Checkpoint and Semantic are
--   searchkernel/indexing/bootstrap_checkpoint.py, with the checkpoint file as an optional checkpoint
--   and what a call finds on the file system as its argument. Bootstrap/Sound, Marks and Calls are
--   about every sequence of calls, and Bootstrap/Resume about the next start.
-- - ReadThrough: searchkernel/runtime/validated_read_cache.py, over a store, a clock, a clone, a
--   loader and a validation that may all raise. A call is cut where it waits for another caller's
--   flight. ReadThrough/Served and Waiters are about what is served, and to whom.
-- - Search: Search/Groups is `limit_per_group` of searchkernel/search/filters.py, and Search/Adaptive is
--   searchkernel/search/adaptive_limit.py, whose float arithmetic is a parameter of which no law is
--   used, and whose loop runs on the number of scores as fuel. Search/Projects is the other filters of
--   filters.py.
-- - Index: Index/Reconcile is searchkernel/indexing/reconciler.py, with the path of a file below the
--   roots and the match of a path with the patterns as arguments; Index/Changes is what it changes.
-- - Indexing: how sources are indexed. Indexing/Receipts is searchkernel/ports/content_source.py,
--   Indexing/Semantic and Planner are the planner of searchkernel/indexing/semantic.py, with
--   Indexing/Slices for its batches and Indexing/Inputs for the input of a record. Indexing/Parts,
--   Runner, Sources, Coordinator and Prepared are searchkernel/indexing/coordinator.py, whose
--   variables are a state beside the world. The stream of a source, and the batches that a caller has
--   prepared, are the finite list of what is yielded, and an exception may end it; a thread that a
--   call runs on is no part of the model. Indexing/Stages and Payload are
--   searchkernel/indexing/stages.py, Payload with searchkernel/search/edge_types.py and
--   `run_prepared_records` of the coordinator; the texts under a record's `links` are strings.
--   Indexing/Grouped, Placement, Materialized, Groups and Finished are about the planner, Indexing/Cut
--   about the source, Indexing/Fitting about the size of the batches, Indexing/Calm, Succeeded, Moves,
--   Saves, Behind, Safe, Started, Resumable, Reached and Covered about the cursor that a run leaves in
--   the checkpoint store, and Indexing/Answering, LastCursor, Answered and Completed about a run whose
--   parts answer.
-- - Filters: searchkernel/domain/vector_filters.py. Filters/Scoped compiles the source-scoped filters
--   from values that are kept as far as the code looks into them, Filters/Compiled is the match of a
--   record with a compiled filter, Filters/Permitted says what the given constraints ask for, and
--   Filters/Given and Authorized compare the two.
-- - Tests: small runs, and each theorem at an input that meets its hypotheses.
--
-- Not modelled: the stores and indices that hold the records, the search pipeline and its ranking in
-- floats, federation, the ingestion of single records, evaluation, and the adapters of services.
pub mod Prelude
pub mod Exec
pub mod Dict
pub mod Reindex
pub mod Chunking
pub mod Batching
pub mod Cache
pub mod Bootstrap
pub mod Search
pub mod Index
pub mod ReadThrough
pub mod Indexing
pub mod Filters
mod Tests
