-- ===== src/Reindex/Consistent.antt =====
-- The states that a migration may save, and what the stores are taken to do.
use andnp_searchkernel.Prelude.{
  ℕ, ◌≡◌, Bool, true, false, Option, none, some, is_some, String, List,
}
use andnp_searchkernel.Exec.{Exec}
use andnp_searchkernel.Exec.Triple.{Triple, Any}
use andnp_searchkernel.Reindex.Domain.{
  Error, ModelNamespace, ns_eq, MigrationPhase, phase_eq, ActiveModelMetadata, ValidationResult,
  BackupMetadata, MigrationState,
}
use andnp_searchkernel.Reindex.Ports.{
  TransitionLock, Cursor, Corpus, sequence, source, TargetRecord, Routine,
}
use andnp_searchkernel.Reindex.Transitions.{is_validated}

-- The phases in which the target serves, or is about to.
abbrev pub serving : MigrationPhase → Bool
serving MigrationPhase.flip = true
serving MigrationPhase.contract = true
serving MigrationPhase.complete = true
serving _ = false

abbrev pub resumes_serving : Option MigrationPhase → Bool
resumes_serving none = false
resumes_serving (some phase) = serving phase

-- The stages that a failure may name.
abbrev pub resumable : Option MigrationPhase → Bool
resumable (some MigrationPhase.init) = false
resumable (some MigrationPhase.complete) = false
resumable (some MigrationPhase.failed) = false
resumable _ = true

abbrev pub evidence_fits : ModelNamespace → Option ValidationResult → Bool
evidence_fits target none = true
evidence_fits target (some v) = ns_eq v.evidence_for target

pub record IsConsistent (s : MigrationState) : Type 0 where
  pub distinct : ns_eq s.source s.target ≡ false
  pub fits : evidence_fits s.target s.validation ≡ true
  pub evidenced : serving s.phase ≡ true → is_validated s.validation ≡ true
  pub resumed : resumes_serving s.resume_phase ≡ true → is_validated s.validation ≡ true
  pub stage : resumable s.resume_phase ≡ true
  pub backed_up : phase_eq s.phase MigrationPhase.complete ≡ true → is_some s.backup ≡ true
  pub failed_only : is_some s.resume_phase ≡ true → phase_eq s.phase MigrationPhase.failed ≡ true
  pub resumes : phase_eq s.phase MigrationPhase.failed ≡ true → is_some s.resume_phase ≡ true

abbrev pub IsSaved : Option MigrationState → Type 0
IsSaved none = Unit
IsSaved (some s) = IsConsistent s

-- `P` is a condition on the world that every call of the stores keeps, a save only of a consistent
-- state; what is loaded is consistent.
abbrev pub CorpusKeeps : {W R : Type 0} → (W → Type 0) → Corpus W R → Type 0
CorpusKeeps P (sequence records) = Unit
CorpusKeeps P (source total fetch) =
    (cursor : Cursor) (limit : ℕ) → Triple P (fetch cursor limit) Any

abbrev pub SwapKeeps :
    {W : Type 0}
    → (W → Type 0)
    → Option (Option ActiveModelMetadata → ActiveModelMetadata → Exec Error W Bool)
    → Type 0
SwapKeeps P none = Unit
SwapKeeps P (some swap) =
    (expected : Option ActiveModelMetadata) (active : ActiveModelMetadata)
    → Triple P (swap expected active) Any

abbrev pub LockKeeps :
    {W : Type 0} → (W → Type 0) → Option (Exec Error W (TransitionLock W)) → Type 0
LockKeeps P none = Unit
LockKeeps P (some acquire) =
    Triple P acquire (λ lock. Triple P lock.enter Any × Triple P lock.exit Any)

pub record StoresKeep {W R F : Type 0} (r : Routine W R F) (P : W → Type 0) : Type 0 where
  pub ensure : (ns : ModelNamespace) → Triple P (r.store.ensure_namespace ns) Any
  pub delete : (ns : ModelNamespace) → Triple P (r.store.delete_namespace ns) Any
  pub validates : (ns : ModelNamespace) (n : ℕ) → Triple P (r.store.validate_namespace ns n) Any
  pub active : Triple P r.store.get_active_model Any
  pub set : (a : ActiveModelMetadata) → Triple P (r.store.set_active_model a) Any
  pub swap : SwapKeeps P r.store.compare_and_set_active_model
  pub backs_up : (ns : ModelNamespace) → Triple P (r.store.create_backup ns) Any
  pub restores : (b : BackupMetadata) → Triple P (r.store.restore_backup b) Any
  pub lock : LockKeeps P r.store.acquire_transition_lock
  pub load : (id : String) → Triple P (r.store.load_migration id) IsSaved
  pub saves : (s : MigrationState) → IsConsistent s → Triple P (r.store.save_migration s) Any
  pub embeds : (texts : List String) → Triple P (r.embed texts) Any
  pub upserts :
      (ts : List (TargetRecord R F)) (name : String) (dim : ℕ) → Triple P (r.upsert ts name dim) Any
  pub pages : CorpusKeeps P r.corpus
