-- ===== src/Tests/Routine.antt =====
-- A routine over stores in memory, for the tests of the migration.
use andnp_searchkernel.Prelude.{
  ℕ, Bool, true, false, Option, none, some, String, List, [], ◌∷◌, ◌++◌, map,
}
use andnp_searchkernel.Exec.{ok, Exec, pure, reads, modify}
use andnp_searchkernel.Reindex.Domain.{
  Error, ModelNamespace, MigrationPhase, ActiveModelMetadata, active_eq, ValidationResult,
  BackupMetadata, RollbackMetadata, MigrationState,
}
use andnp_searchkernel.Reindex.Ports.{sequence, LifecycleStore, Routine, Session}
use andnp_searchkernel.Reindex.Backfill.{ReindexProgress}
use andnp_searchkernel.Reindex.Consistent.{IsSaved}

pub record Memory : Type 0 where
  pub saved : Option MigrationState
  pub active : Option ActiveModelMetadata
  pub stored : List ℕ

abbrev pub old_model : ModelNamespace
old_model = record { model_name = "old"; dim = 2 }

abbrev pub new_model : ModelNamespace
new_model = record { model_name = "new"; dim = 2 }

abbrev pub evidence : ModelNamespace → ℕ → ValidationResult
evidence ns n = record {
  evidence_for = ns;
  expected_records = n;
  indexed_records = n;
  errors = [];
  checked_at = none;
}

abbrev pub saved_backup : ModelNamespace → BackupMetadata
saved_backup ns = record { backup_id = "b"; backup_of = ns; reference = "file"; created_at = none }

abbrev pub restored : BackupMetadata → RollbackMetadata
restored b = record {
  from_namespace = new_model;
  to_namespace = b.backup_of;
  backup_id = b.backup_id;
  reason = "rollback";
  rolled_back_at = none;
}

unfoldable pub swap_if : Bool → ActiveModelMetadata → Exec Error Memory Bool
swap_if true a w = (ok true, record w { active = some a })
swap_if false a w = (ok false, w)

unfoldable pub swap : Option ActiveModelMetadata → ActiveModelMetadata → Exec Error Memory Bool
unfolding swap_if
swap expected a w = swap_if (active_eq w.active expected) a w

abbrev pub memory_store : LifecycleStore Memory
memory_store = record {
  ensure_namespace = λ ns. pure tt;
  delete_namespace = λ ns. pure tt;
  validate_namespace = λ ns n. pure (evidence ns n);
  get_active_model = reads (λ w. w.active);
  set_active_model = λ a. modify (λ w. record w { active = some a });
  compare_and_set_active_model = some swap;
  create_backup = λ ns. pure (saved_backup ns);
  restore_backup = λ b. pure (restored b);
  acquire_transition_lock = some (pure (record { enter = pure tt; exit = pure tt }));
  load_migration = λ id. reads (λ w. w.saved);
  save_migration = λ s. modify (λ w. record w { saved = some s });
}

abbrev pub embed_all : List String → List (List ℕ)
embed_all [] = []
embed_all (t ∷ ts) = (1 ∷ 2 ∷ []) ∷ embed_all ts

abbrev pub routine : Routine Memory ℕ ℕ
routine = record {
  corpus = sequence (1 ∷ 2 ∷ 3 ∷ []);
  storage_key = λ a. ok "key";
  semantic_text = λ a. ok "text";
  model_name = "new";
  provider_dim = 2;
  embed = λ texts. pure (embed_all texts);
  upsert = λ ts name dim. modify (λ w. record w { stored = w.stored ++ map (λ t. t.original) ts });
  batch_size = 2;
  truncate_dim = 2;
  store = memory_store;
  migration_id = "m";
  source_namespace = some old_model;
  digest = λ payload. "digest";
  encode_cursor = λ c. "cursor";
  decode_cursor = λ v. some none;
  now = λ w. "now";
}

abbrev pub blank : Session Memory
blank = record {
  world = record { saved = none; active = none; stored = [] };
  current_stage = MigrationPhase.init;
}

abbrev pub IsSound : Memory → Type 0
IsSound w = IsSaved w.saved

abbrev pub started : MigrationState
started = record {
  migration_id = "m";
  source = old_model;
  target = new_model;
  phase = MigrationPhase.backfill;
  validation = none;
  backup = none;
  rollback_evidence = none;
  error = none;
  resume_phase = none;
  checkpoint = 1;
  attempts = 0;
  total_records = some 3;
  corpus_fingerprint = some "digest";
}

abbrev pub progress : ReindexProgress
progress = record {
  stage = MigrationPhase.backfill;
  records_processed = 0;
  total = some 3;
  checkpoint = 1;
  attempts = 0;
}
