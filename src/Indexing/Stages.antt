-- ===== src/Indexing/Stages.antt =====
-- The stages of indexing/stages.py: a batch's chunks go to the keyword and to the vector index, its nodes
-- and edges to the graph.
use andnp_searchkernel.Prelude.{String, List, [], ◌∷◌, length}
use andnp_searchkernel.Exec.{Exec, pure, ◌>>◌}
use andnp_searchkernel.Exec.Grows.{Grows, Anything, Grows-pure, Grows-bind}
use andnp_searchkernel.Indexing.Receipts.{Cursor, Error}
use andnp_searchkernel.Indexing.Placement.{Grows-call}
use andnp_searchkernel.Indexing.Parts.{Chunk, value, IndexStage}
use andnp_searchkernel.Indexing.Calm.{Steady, Steady-IsGrowth, StageSteady}

pub record ChunkIndexWriter (W D : Type 0) : Type 0 where
  pub add_chunks : List (Chunk D) → Exec Error W (Unit {0})

pub record GraphIndexWriter (W D : Type 0) : Type 0 where
  pub add_nodes : List (String × D) → Exec Error W (Unit {0})
  pub add_edges : List (String × String × String × String) → Exec Error W (Unit {0})

-- `if items: add(items)`.
unfoldable pub add_any :
    {W A : Type 0} → (List A → Exec Error W (Unit {0})) → List A → Exec Error W (Unit {0})
add_any add [] = pure tt
add_any add (a ∷ items) = add (a ∷ items)

module _ {W D : Type 0} where
  -- `KeywordStage` and `SemanticStage`, which differ in their name: `apply`.
  unfoldable pub chunk_stage : String → ChunkIndexWriter W D → IndexStage W D
  chunk_stage name writer batch = do
    add_any writer.add_chunks batch.chunks
    pure (
        value record {
          stage = name;
          counters = record {
            records = length batch.records;
            chunks = length batch.chunks;
            nodes = 0;
            edges = 0;
          };
        })

  abbrev pub keyword_stage : ChunkIndexWriter W D → IndexStage W D
  keyword_stage keyword = chunk_stage "keyword" keyword

  abbrev pub semantic_stage : ChunkIndexWriter W D → IndexStage W D
  semantic_stage vector = chunk_stage "semantic" vector

  -- `GraphStage`.
  unfoldable pub graph_stage : GraphIndexWriter W D → IndexStage W D
  graph_stage graph batch = do
    add_any graph.add_nodes batch.graph_nodes
    add_any graph.add_edges batch.graph_edges
    pure (
        value record {
          stage = "graph";
          counters = record {
            records = length batch.records;
            chunks = length batch.chunks;
            nodes = length batch.graph_nodes;
            edges = length batch.graph_edges;
          };
        })

module _ {W F : Type 0} (Good : String → List F → W → Type 0) (stored : W → Cursor) where
  -- Adding items keeps the stored cursor and the vectors.
  abbrev pub Adds : {A : Type 0} → (List A → Exec Error W (Unit {0})) → Type 0
  Adds {A} add = (items : List A) (w : W) → Steady Good stored w (add items w).1

  Grows-add_any :
      {A : Type 0} (add : List A → Exec Error W (Unit {0})) (items : List A) (w : W)
      → Adds add
      → Grows (Steady Good stored) (add_any add items) w Anything
  unfolding add_any
  Grows-add_any add [] w h = Grows-pure (Steady-IsGrowth Good stored) tt w tt
  Grows-add_any add (a ∷ items) w h = Grows-call _ w (h (a ∷ items) w)

  -- Over such writers, the stages are ones that the coordinator may be given.
  pub chunk_stage-StageSteady :
      {D : Type 0} (name : String) (writer : ChunkIndexWriter W D)
      → Adds writer.add_chunks
      → StageSteady Good stored (chunk_stage name writer)
  unfolding chunk_stage
  chunk_stage-StageSteady name writer h batch w =
      let g = Steady-IsGrowth Good stored in
      Grows-bind g (Grows-add_any writer.add_chunks batch.chunks w h) λ _ t _ _. Grows-pure g _ t tt

  pub graph_stage-StageSteady :
      {D : Type 0} (graph : GraphIndexWriter W D)
      → Adds graph.add_nodes
      → Adds graph.add_edges
      → StageSteady Good stored (graph_stage graph)
  unfolding graph_stage
  graph_stage-StageSteady graph hn he batch w =
      let g = Steady-IsGrowth Good stored in
      Grows-bind g (Grows-add_any graph.add_nodes batch.graph_nodes w hn) λ _ t _ _.
        Grows-bind g (Grows-add_any graph.add_edges batch.graph_edges t he)
          λ _ u _ _. Grows-pure g _ u tt
