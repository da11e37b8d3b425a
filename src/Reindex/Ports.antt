-- ===== src/Reindex/Ports.antt =====
-- ports/reindex.py and the fields of `ReindexRoutine`: what the migration is given. The stores, the
-- embedding provider, the record source, the clock, the JSON and digest libraries are parameters.
use andnp_searchkernel.Prelude.{
  ℕ, ◌&&◌, Bool, not, Option, none, some, String, List, leb, ltb, if◌then◌else◌,
}
use andnp_searchkernel.Exec.{Result, ok, err, Exec}
use andnp_searchkernel.Reindex.Domain.{
  Error, reindex, text, counts, ModelNamespace, MigrationPhase, ActiveModelMetadata,
  ValidationResult, BackupMetadata, RollbackMetadata, MigrationState,
}

abbrev pub Cursor : Type 0
Cursor = Option String

-- `total_records` of a source: a count, or what the code rejects (a bool, a negative number or no
-- integer at all).
pub data Total : Type 0 where
  count : ℕ → Total
  invalid : Total

pub record RecordBatch (R : Type 0) : Type 0 where
  pub records : List R
  pub next_cursor : Cursor
  pub batch_total : Option Total

-- A lock as a context manager: taking it and giving it up may raise.
pub record TransitionLock (W : Type 0) : Type 0 where
  pub enter : Exec Error W (Unit {0})
  pub exit : Exec Error W (Unit {0})

-- A capability that the code looks up by `getattr` may be missing.
pub record LifecycleStore (W : Type 0) : Type 0 where
  pub ensure_namespace : ModelNamespace → Exec Error W (Unit {0})
  pub delete_namespace : ModelNamespace → Exec Error W (Unit {0})
  pub validate_namespace : ModelNamespace → ℕ → Exec Error W ValidationResult
  pub get_active_model : Exec Error W (Option ActiveModelMetadata)
  pub set_active_model : ActiveModelMetadata → Exec Error W (Unit {0})
  pub compare_and_set_active_model :
      Option (Option ActiveModelMetadata → ActiveModelMetadata → Exec Error W Bool)
  pub create_backup : ModelNamespace → Exec Error W BackupMetadata
  pub restore_backup : BackupMetadata → Exec Error W RollbackMetadata
  pub acquire_transition_lock : Option (Exec Error W (TransitionLock W))
  pub load_migration : String → Exec Error W (Option MigrationState)
  pub save_migration : MigrationState → Exec Error W (Unit {0})

-- `replace(record, embedding=…, embedding_model=…)`.
pub record TargetRecord (R F : Type 0) : Type 0 where
  pub original : R
  pub embedding : List F
  pub embedding_model : String

-- The records of a routine: a sequence, or a source that is read page by page.
pub data Corpus (W R : Type 0) : Type 0 where
  sequence : List R → Corpus W R
  source : (W → Option Total) → (Cursor → ℕ → Exec Error W (RecordBatch R)) → Corpus W R

-- `ReindexRoutine`, over a world `W`, records `R` and embedding components `F`. A record's key, and the
-- text of its semantic input, which needs the key, raise where its identity is not valid.
pub record Routine (W R F : Type 0) : Type 0 where
  pub corpus : Corpus W R
  pub storage_key : R → Result Error String
  pub semantic_text : R → Result Error String
  pub model_name : String
  pub provider_dim : ℕ
  pub embed : List String → Exec Error W (List (List F))
  pub upsert : List (TargetRecord R F) → String → ℕ → Exec Error W (Unit {0})
  pub batch_size : ℕ
  pub truncate_dim : ℕ
  pub store : LifecycleStore W
  pub migration_id : String
  pub source_namespace : Option ModelNamespace
  pub digest : List (String × String) → String
  pub encode_cursor : Cursor → String
  pub decode_cursor : String → Option Cursor
  pub now : W → String

-- The world and the routine's own field `_current_stage`.
pub record Session (W : Type 0) : Type 0 where
  pub world : W
  pub current_stage : MigrationPhase

-- The checks of `ReindexRoutine.__init__`, and the dimension that it keeps.
unfoldable pub effective_dim : ℕ → Option ℕ → ℕ → Result Error ℕ
effective_dim batch_size none dim =
    if ltb batch_size 1 then err (reindex (text "batch_size must be >= 1")) else ok dim
effective_dim batch_size (some t) dim =
    if ltb batch_size 1
    then err (reindex (text "batch_size must be >= 1"))
    else if not (ltb 0 t && leb t dim)
    then err (reindex (counts "truncate_dim must be > 0 and <= provider dim" t dim))
    else ok t
