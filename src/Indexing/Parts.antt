-- ===== src/Indexing/Parts.antt =====
-- What `ResumableSemanticCoordinator` of indexing/coordinator.py is given and what it keeps while it runs:
-- the batches and results of indexing/stages.py, the collaborators, the events and the loop's variables.
-- The metadata of records and chunks is any `D`.
use andnp_searchkernel.Prelude.{
  ℕ, Bool, true, false, Option, none, some, String, str_eq, List, [], ◌∷◌, ◌++◌, ◌⊎◌, inl, inr,
}
use andnp_searchkernel.Exec.{Result, Exec, pure, raise, try_catch, modify, ◌>>=◌, ◌>>◌}
use andnp_searchkernel.Bootstrap.Readiness.{SearchAvailability}
use andnp_searchkernel.Indexing.Receipts.{
  Cursor, Record, IngestionFailureMode, RecordIngestionResult, IngestionReceipt, Exception, Error,
  raised, ingestion, type_error, on_exception,
}
use andnp_searchkernel.Indexing.Semantic.{
  SemanticInput, SemanticProgress, Embedding, SemanticWorkPlanner,
}
use andnp_searchkernel.Indexing.Planner.{call_back}

pub record StageCounters : Type 0 where
  pub records : ℕ
  pub chunks : ℕ
  pub nodes : ℕ
  pub edges : ℕ

pub record StageResult : Type 0 where
  pub stage : String
  pub counters : StageCounters

-- `Chunk` of domain/models.py: what is read of it here, and the header path that is in its metadata.
pub record Chunk (D : Type 0) : Type 0 where
  pub chunk_id : String
  pub content : String
  pub header_path : String
  pub metadata : D

pub record Link : Type 0 where
  pub target : String
  pub header_context : String

-- The links of a record: what its parser's `extract_links_with_context` gives or raises, or, where the
-- parser has no such method, the texts under `links` in the record's metadata.
pub data Links : Type 0 where
  with_context : Result Error (List Link) → Links
  listed : List String → Links

-- `PreparedIndexRecord` of indexing/batches.py.
pub record PreparedIndexRecord (D : Type 0) : Type 0 where
  pub indexed : Record
  pub chunks : List (Chunk D)
  pub graph_metadata : D
  pub links : Links

pub record PreparedIndexBatch (D : Type 0) : Type 0 where
  pub records : List (PreparedIndexRecord D)
  pub chunks : List (Chunk D)
  pub graph_nodes : List (String × D)
  pub graph_edges : List (String × String × String × String)
  pub semantic_inputs : List SemanticInput

-- What a caller's function gives back: a value, an awaitable of one, or what the code rejects; an awaitable
-- that gives `none` gives what the code rejects.
pub data Given (W A : Type 0) : Type 0 where
  value : A → Given W A
  awaitable : Exec Error W (Option A) → Given W A
  foreign : Given W A

abbrev pub settle_value : {W A : Type 0} → String → Option A → Exec Error W A
settle_value message none = raise (type_error message)
settle_value message (some a) = pure a

-- `if inspect.isawaitable(result): result = await result`, and the check of the type.
unfoldable pub settle : {W A : Type 0} → String → Given W A → Exec Error W A
settle message (value a) = pure a
settle message (awaitable m) = m >>= settle_value message
settle message foreign = raise (type_error message)

pub record CheckpointStore (W : Type 0) : Type 0 where
  pub load : String → Option String → Exec Error W Cursor
  pub save : String → Option String → Cursor → Exec Error W (Unit {0})

abbrev pub RecordIngestor : Type 0 → Type 0
RecordIngestor W = List Record → Cursor → IngestionFailureMode → Exec Error W IngestionReceipt

abbrev pub IndexStage : Type 0 → Type 0 → Type 0
IndexStage W D = PreparedIndexBatch D → Exec Error W (Given W StageResult)

pub record Coordinator (W F D : Type 0) : Type 0 where
  pub planner : SemanticWorkPlanner
  pub embedding : Embedding W F
  pub record_ingestor : Option (RecordIngestor W)
  pub stages : List (IndexStage W D)
  pub checkpoint_store : Option (CheckpointStore W)

pub record CoordinatorProgress : Type 0 where
  pub source_kind : String
  pub workspace_id : Option String
  pub batch_index : ℕ
  pub stage : String
  pub checkpoint : Cursor
  pub checkpoint_persisted : Bool
  pub stage_result : Option StageResult
  pub semantic : Option SemanticProgress
  pub ingestion : Option IngestionReceipt
  pub availability : Option SearchAvailability

pub record CoordinatorReceipt : Type 0 where
  pub ingestion : IngestionReceipt
  pub progress : List CoordinatorProgress
  pub stage_results : List StageResult
  pub semantic_progress : List SemanticProgress
  pub availability : Option SearchAvailability
  pub checkpoint_persisted : Bool

-- `_BatchOutcome`.
pub record BatchOutcome : Type 0 where
  pub records : List RecordIngestionResult
  pub stage_results : List StageResult
  pub semantic : Option SemanticProgress
  pub successful : Bool

-- `_BatchOutcome(records=…)`: not successful, and nothing done yet.
unfoldable pub unfinished : List RecordIngestionResult → BatchOutcome
unfinished records = record {
  records = records;
  stage_results = [];
  semantic = none;
  successful = false;
}

-- The arguments that a run passes down to its batches.
pub record Options (W : Type 0) : Type 0 where
  pub source_kind : String
  pub workspace_id : Option String
  pub failure_mode : IngestionFailureMode
  pub progress : Option (CoordinatorProgress → Exec Error W (Unit {0}))
  pub availability : Option SearchAvailability

-- The world and the variables of a run.
pub record Run (W : Type 0) : Type 0 where
  pub world : W
  pub current_checkpoint : Cursor
  pub checkpoint_blocked : Bool
  pub all_records : List RecordIngestionResult
  pub all_progress : List CoordinatorProgress
  pub all_stage_results : List StageResult
  pub all_semantic_progress : List SemanticProgress

abbrev pub cursor_eq : Cursor → Cursor → Bool
cursor_eq none none = true
cursor_eq (some a) (some b) = str_eq a b
cursor_eq _ _ = false

abbrev pub plain_event : {W : Type 0} → Options W → ℕ → Cursor → String → CoordinatorProgress
plain_event options batch_index checkpoint stage = record {
  source_kind = options.source_kind;
  workspace_id = options.workspace_id;
  batch_index = batch_index;
  stage = stage;
  checkpoint = checkpoint;
  checkpoint_persisted = false;
  stage_result = none;
  semantic = none;
  ingestion = none;
  availability = options.availability;
}

-- The end of a handler: strict ingestion raises with the receipt, lenient goes on.
unfoldable pub reject :
    {S A : Type 0} → IngestionFailureMode → IngestionReceipt → A → Exec Error S A
reject IngestionFailureMode.strict receipt a = raise (raised (ingestion receipt))
reject IngestionFailureMode.lenient receipt a = pure a

module _ {W : Type 0} where
  unfoldable pub call : {A : Type 0} → Exec Error W A → Exec Error (Run W) A
  call m s = let (r, w) = m s.world in (r, record s { world = w })

  -- `_report_progress`.
  unfoldable pub report_progress : Options W → CoordinatorProgress → Exec Error (Run W) (Unit {0})
  report_progress options event = do
    modify (λ s. record s { all_progress = s.all_progress ++ event ∷ [] })
    call (call_back options.progress event)

  -- A call with a handler that gives an outcome: `return` in the handler, or what the call gave.
  unfoldable pub attempt :
      {A : Type 0}
      → Exec Error W A
      → (Exception → Exec Error (Run W) BatchOutcome)
      → Exec Error (Run W) (A ⊎ BatchOutcome)
  attempt m handler =
      try_catch (do a ← call m; pure (inl a)) (on_exception (λ e. do o ← handler e; pure (inr o)))
