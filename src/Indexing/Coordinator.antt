-- ===== src/Indexing/Coordinator.antt =====
-- `run_source` of `ResumableSemanticCoordinator`, indexing/coordinator.py, and the checks of its
-- constructor.
use andnp_searchkernel.Prelude.{
  ℕ, ◌+◌, Bool, true, false, not, ◌&&◌, Option, none, some, is_some, String, List, [], ◌∷◌, ◌++◌,
  map, ltb, if◌then◌else◌,
}
use andnp_searchkernel.Exec.{
  Result, ok, err, Exec, pure, raise, reads, try_catch, modify, ◌>>=◌, ◌>>◌,
}
use andnp_searchkernel.Indexing.Receipts.{
  Cursor, Record, Exception, exception, ingestion, Error, value_error, type_error, on_exception,
  failed_receipt, single_workspace, workspace_or,
}
use andnp_searchkernel.Indexing.Semantic.{SemanticInput}
use andnp_searchkernel.Indexing.Inputs.{inputs_for}
use andnp_searchkernel.Indexing.Parts.{
  PreparedIndexBatch, Given, settle, CheckpointStore, RecordIngestor, IndexStage, Coordinator,
  CoordinatorReceipt, BatchOutcome, unfinished, Options, Run, cursor_eq, plain_event, reject, call,
  report_progress,
}
use andnp_searchkernel.Indexing.Runner.{run}
use andnp_searchkernel.Indexing.Sources.{Source, Pull, pulled, failing, iter_source_batches}

-- `first or second`, of stores.
abbrev pub first_of : {A : Type 0} → Option A → Option A → Option A
first_of none second = second
first_of (some a) second = some a

-- `_select_dependency`: `same` is the identity test, the texts are those of its two errors.
unfoldable pub select_dependency :
    {A : Type 0} → (A → A → Bool) → String → String → Option A → Option A → Result Error A
select_dependency same disagree required none none = err (type_error required)
select_dependency same disagree required (some a) none = ok a
select_dependency same disagree required none (some b) = ok b
select_dependency same disagree required (some a) (some b) =
    if same a b then ok a else err (value_error disagree)

abbrev optional : {A : Type 0} → Option A → List A
optional none = []
optional (some a) = a ∷ []

abbrev any_stage : {A : Type 0} → List A → Bool
any_stage [] = false
any_stage (s ∷ ss) = true

-- The stages that `__init__` selects, or its error.
unfoldable pub select_stages :
    {W D : Type 0}
    → Option (RecordIngestor W)
    → List (IndexStage W D)
    → Option (IndexStage W D)
    → Option (IndexStage W D)
    → Result Error (List (IndexStage W D))
select_stages record_ingestor stages keyword_stage graph_stage =
    let selected = stages ++ optional keyword_stage ++ optional graph_stage in
    if is_some record_ingestor && any_stage selected
    then err (value_error "record_ingestor cannot be combined with explicit indexing stages")
    else if not (is_some record_ingestor) && not (any_stage selected)
    then err (value_error "configure a record_ingestor or at least one indexing stage")
    else ok selected

-- A batch from a preparer, which the caller may leave out.
abbrev pub BatchPreparer : Type 0 → Type 0 → Type 0
BatchPreparer W D = List Record → Exec Error W (Given W (PreparedIndexBatch D))

-- `PreparedIndexBatch(records=[], semantic_inputs=…)`.
abbrev pub prepared_from :
    {W D : Type 0} → Result Error (List SemanticInput) → Exec Error W (PreparedIndexBatch D)
prepared_from (err e) = raise e
prepared_from (ok inputs) = pure record {
  records = [];
  chunks = [];
  graph_nodes = [];
  graph_edges = [];
  semantic_inputs = inputs;
}

module _ {W : Type 0} where
  -- `_save_checkpoint`.
  unfoldable pub save_checkpoint :
      Option (CheckpointStore W) → Options W → Cursor → Exec Error W (Unit {0})
  save_checkpoint none options checkpoint = pure tt
  save_checkpoint (some store) options checkpoint =
      store.save options.source_kind options.workspace_id checkpoint

  -- What a batch's outcome adds to the lists of the run.
  abbrev pub with_outcome : BatchOutcome → Run W → Run W
  with_outcome outcome s = record s {
    all_records = s.all_records ++ outcome.records;
    all_stage_results = s.all_stage_results ++ outcome.stage_results;
    all_semantic_progress = s.all_semantic_progress ++ optional outcome.semantic;
  }

  -- The state that a run begins in.
  abbrev pub begun : Cursor → W → Run W
  begun checkpoint w = record {
    world = w;
    current_checkpoint = checkpoint;
    checkpoint_blocked = false;
    all_records = [];
    all_progress = [];
    all_stage_results = [];
    all_semantic_progress = [];
  }

  -- A run over variables of its own: only the world is left.
  unfoldable pub within : {A : Type 0} → Exec Error (Run W) A → Cursor → Exec Error W A
  within m checkpoint w = let (r, s) = m (begun checkpoint w) in (r, s.world)

  -- `CheckpointStore.load`, where no cursor is given and there is a store.
  unfoldable pub load_checkpoint :
      Option (CheckpointStore W) → Options W → Cursor → Exec Error W Cursor
  load_checkpoint (some store) options none = store.load options.source_kind options.workspace_id
  load_checkpoint _ options since = pure since

  -- The receipt of a run.
  unfoldable pub receipt : Options W → Option (CheckpointStore W) → Run W → CoordinatorReceipt
  receipt options store s = record {
    ingestion = record {
      source_kind = options.source_kind;
      workspace_id =
          workspace_or options.workspace_id
            (single_workspace (map (λ r. r.workspace_id) s.all_records));
      checkpoint = s.current_checkpoint;
      records = s.all_records;
      cancelled = false;
    };
    progress = s.all_progress;
    stage_results = s.all_stage_results;
    semantic_progress = s.all_semantic_progress;
    availability = options.availability;
    checkpoint_persisted = is_some store;
  }

module _ {W F D : Type 0} (parts : Coordinator W F D) (options : Options W)
    (store : Option (CheckpointStore W)) where
  -- `_prepare`.
  unfoldable pub prepare :
      Option (BatchPreparer W D) → List Record → Exec Error W (PreparedIndexBatch D)
  prepare none records = prepared_from (inputs_for parts.embedding parts.planner records)
  prepare (some prepare_batch) records =
      prepare_batch records >>= settle "prepare_batch must return PreparedIndexBatch"

  -- A new cursor is saved, kept and reported.
  unfoldable pub save_and_report : ℕ → Cursor → Exec Error (Run W) (Unit {0})
  save_and_report batch_index cursor = do
    call (save_checkpoint store options cursor)
    modify (λ s. record s { current_checkpoint = cursor })
    report_progress options (record (plain_event options batch_index cursor "checkpoint") {
      checkpoint_persisted = is_some store;
    })

  -- `if terminal_cursor is not None and not checkpoint_blocked and terminal_cursor != current_checkpoint`.
  unfoldable pub advance : ℕ → Cursor → Exec Error (Run W) (Unit {0})
  advance batch_index terminal_cursor = do
    due ← reads (λ s.
        is_some terminal_cursor
        && not s.checkpoint_blocked
        && not (cursor_eq terminal_cursor s.current_checkpoint))
    if due then save_and_report batch_index terminal_cursor else pure tt

  -- The handlers of a batch.
  unfoldable pub batch_failed : List Record → Cursor → Exception → Exec Error (Run W) BatchOutcome
  batch_failed records checkpoint (ingestion receipt) =
      reject options.failure_mode receipt (unfinished receipt.records)
  batch_failed records checkpoint (exception name message) =
      let receipt =
        failed_receipt options.source_kind options.workspace_id checkpoint records
          (exception name message) in
      reject options.failure_mode receipt (unfinished receipt.records)

  -- The `try` of a batch.
  unfoldable pub run_batch :
      Option (BatchPreparer W D) → List Record → ℕ → Cursor → Exec Error (Run W) BatchOutcome
  run_batch prepare_batch records batch_index checkpoint =
      try_catch
        (do
          prepared ← call (prepare prepare_batch records)
          run parts options prepared records batch_index checkpoint)
        (on_exception (batch_failed records checkpoint))

  -- The rest of the loop's body, by the outcome of the batch.
  unfoldable pub settle_batch : ℕ → Cursor → BatchOutcome → Exec Error (Run W) (Unit {0})
  settle_batch batch_index terminal_cursor outcome = do
    modify (with_outcome outcome)
    if outcome.successful
        then advance batch_index terminal_cursor
        else modify (λ s. record s { checkpoint_blocked = true })

  unfoldable pub process_pull :
      Option (BatchPreparer W D) → ℕ → List Record → Cursor → Exec Error (Run W) (Unit {0})
  process_pull prepare_batch batch_index [] terminal_cursor = advance batch_index terminal_cursor
  process_pull prepare_batch batch_index (r ∷ records) terminal_cursor = do
    checkpoint ← reads (λ s. s.current_checkpoint)
    outcome ← run_batch prepare_batch (r ∷ records) batch_index checkpoint
    settle_batch batch_index terminal_cursor outcome

  -- The loop over the source's batches.
  unfoldable pub process_pulls :
      Option (BatchPreparer W D) → ℕ → List Pull → Exec Error (Run W) (Unit {0})
  process_pulls prepare_batch batch_index [] = pure tt
  process_pulls prepare_batch batch_index (failing e ∷ pulls) = raise e
  process_pulls prepare_batch batch_index (pulled records terminal_cursor ∷ pulls) = do
    process_pull prepare_batch batch_index records terminal_cursor
    process_pulls prepare_batch (batch_index + 1) pulls

-- The options, with the source's kind.
abbrev pub of_source : {W : Type 0} → Source W → Options W → Options W
of_source source options = record options { source_kind = source.source_kind }

-- `run_source`.
unfoldable pub run_source :
    {W F D : Type 0}
    → Coordinator W F D
    → Options W
    → Source W
    → Option (BatchPreparer W D)
    → Cursor
    → ℕ
    → Option (CheckpointStore W)
    → Exec Error W CoordinatorReceipt
run_source parts options source prepare_batch since batch_size checkpoint_store =
    let store = first_of checkpoint_store parts.checkpoint_store in
    if ltb batch_size 1
    then raise (value_error "batch_size must be >= 1")
    else if not (is_some parts.record_ingestor) && not (is_some prepare_batch)
    then raise (value_error "prepare_batch is required when using explicit indexing stages")
    else do
      checkpoint ← load_checkpoint store (of_source source options) since
      within
          (do
            pulls ← call (iter_source_batches source batch_size checkpoint)
            process_pulls parts (of_source source options) store prepare_batch 0 pulls
            reads (receipt (of_source source options) store))
          checkpoint
