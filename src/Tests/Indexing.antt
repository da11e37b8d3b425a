-- ===== src/Tests/Indexing.antt =====
-- A source of three records in batches of two, and two prepared batches, over a store and an index in
-- memory.
use andnp_searchkernel.Prelude.{
  ℕ, ◌≡◌, refl, Option, inl, inr, none, some, String, List, [], ◌∷◌, map, All, arith,
}
use andnp_searchkernel.Exec.{ok, pure, modify, reads, ◌>>=◌, carry_on}
use andnp_searchkernel.Exec.Grows.{Grows}
use andnp_searchkernel.Indexing.Semantic.{SemanticInput}
use andnp_searchkernel.Indexing.Planner.{execute}
use andnp_searchkernel.Indexing.Materialized.{Grows-execute}
use andnp_searchkernel.Indexing.Placement.{Placed}
use andnp_searchkernel.Indexing.Parts.{Coordinator}
use andnp_searchkernel.Indexing.Sources.{yielded, batch_pulls, pulls_of_records}
use andnp_searchkernel.Indexing.Cut.{
  all_records, IsPull, Closes, batch_pulls-Closes, IsFinished, pulls_of_records-IsFinished,
}
use andnp_searchkernel.Indexing.Coordinator.{run_source}
use andnp_searchkernel.Indexing.Calm.{Steady, Collaborates}
use andnp_searchkernel.Indexing.Parts.{PreparedIndexBatch}
use andnp_searchkernel.Indexing.Parts.{Chunk, PreparedIndexRecord, with_context}
use andnp_searchkernel.Indexing.Payload.{tests, links_to, infer_edge_type, prepared_batches}
use andnp_searchkernel.Indexing.Fitting.{Fits, IsYielded, records_of, prepared_batches-Fits}
use andnp_searchkernel.Indexing.Sources.{Yield}
use andnp_searchkernel.Indexing.Stages.{
  ChunkIndexWriter, GraphIndexWriter, keyword_stage, graph_stage, chunk_stage-StageSteady,
  graph_stage-StageSteady,
}
use andnp_searchkernel.Indexing.Prepared.{CheckpointForBatch, run_batches}
use andnp_searchkernel.Indexing.Covered.{IsCovered, run_batches-IsCovered}
use andnp_searchkernel.Indexing.Resumable.{IsResumable, run_source-IsResumable}
use andnp_searchkernel.Tests.Memory.{
  Memory, empty, resumed, store, Good, stored, embedding, embedding-Effects, planner, input_of,
  note, coordinator, options, notes, coordinator-Collaborates,
}

Grows-execute_example :
    Grows
      (Steady Good stored)
      (execute embedding planner (input_of "b" ∷ input_of "a" ∷ []) 1)
      empty
      (λ _ w. All (Placed embedding planner Good w) (input_of "b" ∷ input_of "a" ∷ []))
Grows-execute_example =
    Grows-execute embedding planner embedding-Effects (input_of "b" ∷ input_of "a" ∷ []) 1 empty

run_source-IsResumable_example :
    IsResumable Good stored coordinator options notes 2 none
      (some store)
      resumed
      (run_source coordinator options notes none none 2 none resumed).1
unfolding pure modify reads
run_source-IsResumable_example =
    run_source-IsResumable Good stored coordinator options notes 2 none none resumed
      coordinator-Collaborates
      ((λ kind workspace w. (λ id v g. g, refl)), λ kind workspace c w. ((λ id v g. g), inr refl))
      (tt, λ c w. (λ id v g. g, refl))

abbrev chunk : String → Chunk ℕ
chunk id = record { chunk_id = id; content = "t"; header_path = ""; metadata = 0 }

-- A record with two chunks, and a link to one that tests it.
abbrev page : String → PreparedIndexRecord ℕ
page id = record {
  indexed = note id;
  chunks = chunk "x" ∷ chunk "y" ∷ [];
  graph_metadata = 1;
  links = with_context (ok (record { target = "c"; header_context = "tests" } ∷ []));
}

abbrev prepared : String → PreparedIndexBatch ℕ
prepared id = record {
  records = page id ∷ [];
  chunks = chunk "x" ∷ chunk "y" ∷ [];
  graph_nodes = [];
  graph_edges = [];
  semantic_inputs = input_of id ∷ [];
}

-- Pages in batches of one record and four chunks, and of one chunk, which a page exceeds.
abbrev pages : ℕ → List (Yield (PreparedIndexBatch ℕ))
pages max_chunks =
    prepared_batches embedding (λ t. none) (λ t. t) (page "a" ∷ page "b" ∷ []) 1 max_chunks

prepared_batches-Fits_example :
    All (Fits Memory 1 1) (pages 1)
    × (All IsYielded (pages 1) → records_of (pages 1) ≡ page "a" ∷ page "b" ∷ [])
prepared_batches-Fits_example =
    prepared_batches-Fits Memory 1 1 embedding (λ t. none) (λ t. t) (page "a" ∷ page "b" ∷ [])

infer_edge_type_tests :
    (infer_edge_type (λ t. t) "See also the tests" "c" ≡ tests)
    × (infer_edge_type (λ t. t) "More" "test_a" ≡ tests)
    × (infer_edge_type (λ t. t) "" "test_a" ≡ links_to)
unfolding infer_edge_type
infer_edge_type_tests = (refl, refl, refl)

-- A keyword index and a graph beside the memory, which take everything.
abbrev keyword_index : ChunkIndexWriter Memory ℕ
keyword_index = record { add_chunks = λ chunks. pure tt }

abbrev graph : GraphIndexWriter Memory ℕ
graph = record { add_nodes = λ nodes. pure tt; add_edges = λ edges. pure tt }

abbrev staged : Coordinator Memory ℕ ℕ
staged = record coordinator {
  record_ingestor = none;
  stages = keyword_stage keyword_index ∷ graph_stage graph ∷ [];
}

staged-Collaborates : Collaborates Good stored staged options
unfolding pure
staged-Collaborates = record {
  embeds = embedding-Effects;
  ingests = tt;
  staging = (
    chunk_stage-StageSteady Good stored "keyword" keyword_index (λ chunks w. (λ id v g. g, refl)),
    (
      graph_stage-StageSteady Good stored graph (λ nodes w. (λ id v g. g, refl))
          (λ edges w. (λ id v g. g, refl)),
      tt,
    ),
  );
  reports = tt;
}

-- The cursor of a batch is the id of its last semantic input.
abbrev last_input : Option String → List SemanticInput → Option String
last_input c [] = c
last_input c (item ∷ items) = last_input (some item.source_id) items

abbrev cursor_of : CheckpointForBatch Memory ℕ
cursor_of batch = pure (inl (last_input none batch.semantic_inputs))

run_batches-IsCovered_example :
    IsCovered Good stored staged
      (some cursor_of)
      (yielded (prepared "a") ∷ yielded (prepared "b") ∷ [])
      empty
      (run_batches staged options
        (yielded (prepared "a") ∷ yielded (prepared "b") ∷ [])
        none
        (some cursor_of)
        none
        (some 2)
        (some 2)
        empty).1
unfolding pure modify reads ◌>>=◌ carry_on
run_batches-IsCovered_example =
    run_batches-IsCovered Good stored staged (some cursor_of)
      (yielded (prepared "a") ∷ yielded (prepared "b") ∷ []) options none none (some 2) (some 2)
      empty staged-Collaborates
      ((λ kind workspace w. (λ id v g. g, refl)), λ kind workspace c w. ((λ id v g. g), inr refl))
      (λ batch w. (λ id v g. g, refl))

batch_pulls-Closes_example :
    (all_records (batch_pulls 2 (note "a" ∷ note "b" ∷ note "c" ∷ []) (some "end"))
      ≡ note "a" ∷ note "b" ∷ note "c" ∷ [])
    × All (IsPull 2) (batch_pulls 2 (note "a" ∷ note "b" ∷ note "c" ∷ []) (some "end"))
    × Closes (some "end") (batch_pulls 2 (note "a" ∷ note "b" ∷ note "c" ∷ []) (some "end"))
batch_pulls-Closes_example =
    batch_pulls-Closes 2 (note "a" ∷ note "b" ∷ note "c" ∷ []) (some "end") (omega arith)

pulls_of_records-IsFinished_example :
    (all_records
        (pulls_of_records notes.cursor_for 2 (map yielded (note "a" ∷ note "b" ∷ note "c" ∷ [])) [])
      ≡ note "a" ∷ note "b" ∷ note "c" ∷ [])
    × All
        (IsFinished notes.cursor_for 2)
        (pulls_of_records notes.cursor_for 2 (map yielded (note "a" ∷ note "b" ∷ note "c" ∷ [])) [])
pulls_of_records-IsFinished_example =
    pulls_of_records-IsFinished notes.cursor_for 2 (note "a" ∷ note "b" ∷ note "c" ∷ []) []
      (omega arith)
