-- ===== src/Reindex/State.antt =====
-- runtime/reindex.py: the durable state of a routine, loaded, checked, created and saved.
use andnp_searchkernel.Prelude.{
  [], ◌∷◌, ℕ, ◌&&◌, not, Option, none, some, String, str_eq, List, ◌==◌, length, if◌then◌else◌,
}
use andnp_searchkernel.Exec.{Result, Exec, pure, raise, reads, modify, ◌>>=◌, ◌>>◌}
use andnp_searchkernel.Reindex.Domain.{
  Message, text, counts, Error, reindex, dimension_mismatch, ModelNamespace, make_namespace, ns_eq,
  MigrationPhase, phase_eq, ActiveModelMetadata, MigrationState, make_state,
}
use andnp_searchkernel.Reindex.Ports.{
  Cursor, Total, count, invalid, Corpus, sequence, source, Routine, Session,
}

module _ {W A : Type 0} where
  -- A call of a store: `_current_stage` is not its business.
  unfoldable pub call : Exec Error W A → Exec Error (Session W) A
  call m s = let (r, w) = m s.world in (r, record s { world = w })

unfoldable pub lift : {S A : Type 0} → Result Error A → Exec Error S A
lift r s = (r, s)

unfoldable pub check_namespace_dimensions :
    {S : Type 0} → ModelNamespace → ModelNamespace → Exec Error S (Unit {0})
check_namespace_dimensions from to =
    if str_eq from.model_name to.model_name && not (from.dim == to.dim)
    then raise (dimension_mismatch (counts "model cannot migrate between dims" from.dim to.dim))
    else pure tt

unfoldable pub reject_failed : {S : Type 0} → MigrationState → Exec Error S (Unit {0})
reject_failed state =
    if phase_eq state.phase MigrationPhase.failed
    then raise (reindex (text "migration is failed; call retry() before advancing"))
    else pure tt

unfoldable pub check_old_model_name :
    {S : Type 0} → MigrationState → Option String → Exec Error S (Unit {0})
check_old_model_name state none = pure tt
check_old_model_name state (some old) =
    if str_eq old state.source.model_name
    then pure tt
    else raise (reindex (text "expected old model is not the source model"))

unfoldable pub checked_total : {S : Type 0} → Option Total → Exec Error S (Option ℕ)
checked_total none = pure none
checked_total (some (count n)) = pure (some n)
checked_total (some invalid) =
    raise (reindex (text "record source total_records must be non-negative"))

-- The comparison that `_load_or_create_state` makes if both counts are known.
unfoldable pub check_total : {S : Type 0} → Option ℕ → Option ℕ → Exec Error S (Unit {0})
check_total none found = pure tt
check_total (some expected) none = pure tt
check_total (some expected) (some found) =
    if expected == found
    then pure tt
    else raise (reindex (counts "migration expects another record count" expected found))

unfoldable pub require_cursor : {S : Type 0} → Option Cursor → Exec Error S Cursor
require_cursor none =
    raise (reindex (text "migration checkpoint does not contain a cursor-source checkpoint"))
require_cursor (some cursor) = pure cursor

module _ {W R F : Type 0} (r : Routine W R F) where
  unfoldable pub save : MigrationState → Exec Error (Session W) (Unit {0})
  save state = do
    call (r.store.save_migration state)
    modify (λ s. record s { current_stage = state.phase })

  unfoldable pub set_stage : MigrationPhase → Exec Error (Session W) (Unit {0})
  set_stage phase = modify (λ s. record s { current_stage = phase })

  unfoldable pub fail :
      MigrationState → MigrationPhase → Message → Exec Error (Session W) (Unit {0})
  fail state resume_phase message = save (record state {
    phase = MigrationPhase.failed;
    error = some message;
    resume_phase = some resume_phase;
  })

  unfoldable pub target_namespace : Result Error ModelNamespace
  target_namespace = make_namespace r.model_name r.truncate_dim

  -- `_source_total`, where the corpus is a source.
  unfoldable pub source_total : Corpus W R → Exec Error (Session W) (Option ℕ)
  source_total (sequence records) = pure none
  source_total (source total fetch) = do found ← reads (λ s. total s.world); checked_total found

  -- `_total_records` past its first test, and `_total_records_for_new_state`.
  unfoldable pub corpus_total : Corpus W R → Exec Error (Session W) (Option ℕ)
  corpus_total (sequence records) = pure (some (length records))
  corpus_total (source total fetch) = source_total (source total fetch)

  unfoldable pub known_or : Option ℕ → Exec Error (Session W) (Option ℕ)
  known_or none = corpus_total r.corpus
  known_or (some n) = pure (some n)

  unfoldable pub total_records : MigrationState → Exec Error (Session W) (Option ℕ)
  total_records state = known_or state.total_records

  -- The payload of `_sequence_fingerprint`.
  unfoldable pub identities : List R → Exec Error (Session W) (List (String × String))
  identities [] = pure []
  identities (a ∷ records) = do
    key ← lift (r.storage_key a)
    content ← lift (r.semantic_text a)
    rest ← identities records
    pure ((key, content) ∷ rest)

  unfoldable pub sequence_fingerprint : List R → Exec Error (Session W) String
  sequence_fingerprint records = do payload ← identities records; pure (r.digest payload)

  unfoldable pub corpus_fingerprint : Corpus W R → Exec Error (Session W) String
  corpus_fingerprint (sequence records) = sequence_fingerprint records
  corpus_fingerprint (source total fetch) = pure (r.encode_cursor none)

  -- The corpus identity of a saved state, against the one of the routine, by the kind of corpus.
  unfoldable pub check_corpus :
      Corpus W R → MigrationState → String → String → Exec Error (Session W) (Unit {0})
  check_corpus (source total fetch) saved saved_fingerprint fingerprint = do
    require_cursor (r.decode_cursor saved_fingerprint)
    found ← source_total (source total fetch)
    check_total saved.total_records found
  check_corpus (sequence records) saved saved_fingerprint fingerprint =
      if str_eq saved_fingerprint fingerprint
      then check_total saved.total_records (some (length records))
      else raise (
          reindex (text "migration checkpoint corpus identity does not match the supplied records"))

  unfoldable pub check_fingerprint :
      MigrationState → Option String → String → Exec Error (Session W) (Unit {0})
  check_fingerprint saved none fingerprint =
      raise (reindex (text "migration checkpoint is missing corpus identity"))
  check_fingerprint saved (some saved_fingerprint) fingerprint =
      check_corpus r.corpus saved saved_fingerprint fingerprint

  unfoldable pub check_source :
      Option ModelNamespace → ModelNamespace → Exec Error (Session W) (Unit {0})
  check_source none saved_source = pure tt
  check_source (some given) saved_source =
      if ns_eq saved_source given
      then pure tt
      else raise (reindex (text "migration source namespace does not match"))

  -- The branch of `_load_or_create_state` for a saved state.
  unfoldable pub accept_saved :
      MigrationState → ModelNamespace → String → Exec Error (Session W) MigrationState
  accept_saved saved target fingerprint =
      if ns_eq saved.target target
      then (do
        check_namespace_dimensions saved.source saved.target
        check_source r.source_namespace saved.source
        check_fingerprint saved saved.corpus_fingerprint fingerprint
        pure saved)
      else raise (reindex (text "migration targets another namespace"))

  unfoldable pub require_active : Option ActiveModelMetadata → Exec Error (Session W) ModelNamespace
  require_active none =
      raise (reindex (text "source_namespace is required when no active model exists"))
  require_active (some active) = pure active.model

  unfoldable pub source_for_new : Option ModelNamespace → Exec Error (Session W) ModelNamespace
  source_for_new (some given) = pure given
  source_for_new none = do active ← call r.store.get_active_model; require_active active

  unfoldable pub create_state : ModelNamespace → String → Exec Error (Session W) MigrationState
  create_state target fingerprint = do
    from ← source_for_new r.source_namespace
    check_namespace_dimensions from target
    total ← corpus_total r.corpus
    lift (make_state r.migration_id from target total (some fingerprint))

  unfoldable pub resume_or_create :
      Option MigrationState → ModelNamespace → String → Exec Error (Session W) MigrationState
  resume_or_create (some saved) target fingerprint = accept_saved saved target fingerprint
  resume_or_create none target fingerprint = create_state target fingerprint

  unfoldable pub load_or_create_state : Exec Error (Session W) MigrationState
  load_or_create_state = do
    saved ← call (r.store.load_migration r.migration_id)
    target ← lift target_namespace
    fingerprint ← corpus_fingerprint r.corpus
    resume_or_create saved target fingerprint
