-- ===== src/Indexing/Payload.antt =====
-- `PreparedIndexBatch.from_records` of indexing/stages.py, with the nodes and edges of its graph and the
-- edge types of search/edge_types.py, and `run_prepared_records` of indexing/coordinator.py. `str.lower`
-- is a parameter, and so is `json.loads`: it gives the three parts of an identity, where the text is a
-- list of three parts that may be one.
use Prim.Native.String.{[] as no_chars, ◌∷◌ as char_and}
use mathlib.Core.List.{flatten}
use andnp_searchkernel.Prelude.{
  strip_prefix, starts_with, ℕ, Bool, ◌||◌, strip_prefix, starts_with, Option, none, some, String,
  str_eq, List, [], ◌∷◌, ◌++◌, map, length, if◌then◌else◌,
}
use andnp_searchkernel.Exec.{Result, ok, err, Exec}
use andnp_searchkernel.Batching.Records.{BoundsError, iter_prepared_index_batches}
use andnp_searchkernel.Indexing.Receipts.{Cursor, Record, Error, value_error}
use andnp_searchkernel.Indexing.Semantic.{Embedding}
use andnp_searchkernel.Indexing.Inputs.{
  canonical_storage_key, storage_key, semantic_input_for_chunk,
}
use andnp_searchkernel.Indexing.Parts.{
  Links, with_context, listed, PreparedIndexRecord, PreparedIndexBatch, CheckpointStore,
  Coordinator, CoordinatorReceipt, Options,
}
use andnp_searchkernel.Indexing.Sources.{Yield, yielded, broken}
use andnp_searchkernel.Indexing.Prepared.{CheckpointForBatch, run_batches}

pub data EdgeType : Type 0 where
  links_to implements tests related : EdgeType

-- `EdgeType.value`.
abbrev pub edge_value : EdgeType → String
edge_value links_to = "links_to"
edge_value implements = "implements"
edge_value tests = "tests"
edge_value related = "related"

-- `HEADER_TO_EDGE_TYPE`, in its order.
abbrev header_to_edge_type : List (String × EdgeType)
header_to_edge_type =
    ("testing", tests)
    ∷ ("tests", tests)
    ∷ ("test", tests)
    ∷ ("implementation", implements)
    ∷ ("implements", implements)
    ∷ ("code", implements)
    ∷ ("related", related)
    ∷ ("see also", related)
    ∷ ("references", related)
    ∷ []

-- `keyword in text`.
abbrev is_within : String → String → Bool
is_within keyword no_chars = starts_with no_chars keyword
is_within keyword (char_and c s) = starts_with (char_and c s) keyword || is_within keyword s

abbrev first_within : String → EdgeType → List (String × EdgeType) → EdgeType
first_within text default [] = default
first_within text default ((keyword, edge_type) ∷ rest) =
    if is_within keyword text then edge_type else first_within text default rest

-- `infer_edge_type`, given `str.lower`.
unfoldable pub infer_edge_type : (String → String) → String → String → EdgeType
infer_edge_type lower header_context target =
    let by_target =
      if starts_with target "tests/" || starts_with target "test_" then tests else links_to in
    if str_eq header_context ""
    then links_to
    else first_within (lower header_context) by_target header_to_edge_type

infixl 10 ◌>>=◌
abbrev pub ◌>>=◌ : {A B : Type 0} → Result Error A → (A → Result Error B) → Result Error B
ok a >>= f = f a
err e >>= f = err e

-- The results for the items of a list, or the first error.
abbrev pub each : {A B : Type 0} → (A → Result Error B) → List A → Result Error (List B)
each f [] = ok []
each f (a ∷ items) = do b ← f a; bs ← each f items; ok (b ∷ bs)

abbrev Edge : Type 0
Edge = String × String × String × String

abbrev pub record_chunks : {D : Type 0} → PreparedIndexRecord D → ℕ
record_chunks p = length p.chunks

abbrev pub then_batches :
    {D : Type 0}
    → Result Error (PreparedIndexBatch D)
    → List (Yield (PreparedIndexBatch D))
    → List (Yield (PreparedIndexBatch D))
then_batches (ok batch) rest = yielded batch ∷ rest
then_batches (err e) rest = broken e ∷ []

-- The batch over a payload.
abbrev pub batch_of :
    {W F D : Type 0}
    → Embedding W F
    → List (PreparedIndexRecord D)
    → List (String × D) × List Edge
    → PreparedIndexBatch D
batch_of parts records (nodes, edges) =
    let chunks = flatten (map (λ p. p.chunks) records) in
    record {
      records = records;
      chunks = chunks;
      graph_nodes = nodes;
      graph_edges = edges;
      semantic_inputs = map (semantic_input_for_chunk parts "") chunks;
    }

module _ {W F : Type 0} (parts : Embedding W F)
    (loads : String → Option (Option String × String × String)) (lower : String → String) where
  abbrev same_key : String → Result Error String → Option String
  same_key text (ok key) = if str_eq key text then some key else none
  same_key text (err e) = none

  abbrev key_of : String → Option (Option String × String × String) → Option String
  key_of text none = none
  key_of text (some (workspace_id, source_kind, source_id)) =
      same_key text (canonical_storage_key parts workspace_id source_kind source_id)

  -- `RecordIdentity.from_storage_key(…).storage_key`; `none` is an error of it.
  unfoldable pub from_storage_key : String → Option String
  from_storage_key text = elim (strip_prefix "record:" text) [
    | none ↦ none
    | some json ↦ key_of text (loads json)
  ]

  -- `_graph_storage_key`.
  unfoldable pub graph_storage_key : Record → String → Result Error String
  graph_storage_key r text = elim (from_storage_key text) [
    | some key ↦ ok key
    | none ↦ canonical_storage_key parts r.workspace_id r.source_kind text
  ]

  abbrev pub links_of : Record → String → Links → Result Error (List Edge)
  links_of r key (with_context found) = do
    links ← found
    each
        (λ l. do
          k ← graph_storage_key r l.target
          let kind = edge_value (infer_edge_type lower l.header_context l.target)
          ok (key, k, kind, l.header_context))
        links
  links_of r key (listed links) =
      each (λ l. do k ← graph_storage_key r l; ok (key, k, "links_to", "")) links

  module _ {D : Type 0} where
    -- The nodes of a record.
    unfoldable pub nodes_of : PreparedIndexRecord D → Result Error (List (String × D))
    nodes_of p = do
      key ← storage_key parts p.indexed
      nodes ← each (λ c. do k ← graph_storage_key p.indexed c.chunk_id; ok (k, c.metadata)) p.chunks
      ok ((key, p.graph_metadata) ∷ nodes)

    -- The edges of a record.
    unfoldable pub edges_of : PreparedIndexRecord D → Result Error (List Edge)
    edges_of p = do key ← storage_key parts p.indexed; links_of p.indexed key p.links

    -- `build_graph_payload`.
    unfoldable pub build_graph_payload :
        List (PreparedIndexRecord D) → Result Error (List (String × D) × List Edge)
    build_graph_payload [] = ok ([], [])
    build_graph_payload (p ∷ ps) = do
      nodes ← nodes_of p
      edges ← edges_of p
      rest ← build_graph_payload ps
      ok (nodes ++ rest.0, edges ++ rest.1)

    -- `PreparedIndexBatch.from_records`, with no encoder namespace.
    unfoldable pub from_records : List (PreparedIndexRecord D) → Result Error (PreparedIndexBatch D)
    from_records records = do
      payload ← build_graph_payload records
      ok (batch_of parts records payload)

    -- What the generator over the batches of records yields; an error ends it.
    unfoldable pub batches_of :
        List (List (PreparedIndexRecord D)) → List (Yield (PreparedIndexBatch D))
    batches_of [] = []
    batches_of (batch ∷ batches) = then_batches (from_records batch) (batches_of batches)

    abbrev pub bounded :
        Result BoundsError (List (List (PreparedIndexRecord D)))
        → List (Yield (PreparedIndexBatch D))
    bounded (ok batches) = batches_of batches
    bounded (err e) = broken (value_error "batch bounds must be positive") ∷ []

    -- The batches that `run_prepared_records` passes on.
    unfoldable pub prepared_batches :
        List (PreparedIndexRecord D) → ℕ → ℕ → List (Yield (PreparedIndexBatch D))
    prepared_batches records max_records max_chunks =
        bounded (iter_prepared_index_batches record_chunks records max_records max_chunks)

-- `run_prepared_records`.
unfoldable pub run_prepared_records :
    {W F D : Type 0}
    → (String → Option (Option String × String × String))
    → (String → String)
    → Coordinator W F D
    → Options W
    → List (PreparedIndexRecord D)
    → Cursor
    → ℕ
    → ℕ
    → Option (CheckpointForBatch W D)
    → Option (CheckpointStore W)
    → Exec Error W CoordinatorReceipt
run_prepared_records loads lower parts options records since max_records max_chunks
      checkpoint_for_batch checkpoint_store =
    run_batches parts options
      (prepared_batches parts.embedding loads lower records max_records max_chunks) since
      checkpoint_for_batch checkpoint_store (some max_records) (some max_chunks)
