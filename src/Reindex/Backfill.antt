-- ===== src/Reindex/Backfill.antt =====
-- runtime/reindex.py: `expand`, and `backfill` over a sequence of records or a paged source.
use andnp_searchkernel.Prelude.{
  ℕ, zero, suc, ◌+◌, ◌-◌, ◌/◌, Bool, true, false, ◌&&◌, not, Option, none, some, is_some, String,
  List, [], ◌∷◌, str_eq, leb, ltb, ◌==◌, length, take, drop, if◌then◌else◌,
}
use andnp_searchkernel.Exec.{Exec, pure, raise, try_catch, ◌>>=◌, ◌>>◌}
use andnp_searchkernel.Reindex.Domain.{
  Message, text, about, batch_failed, counts, Error, reindex, dimension_mismatch, other,
  MigrationPhase, phase_eq, MigrationState,
}
use andnp_searchkernel.Reindex.Ports.{
  Cursor, Total, count, invalid, TargetRecord, Corpus, sequence, source, Routine, Session,
}
use andnp_searchkernel.Reindex.State.{
  call, lift, reject_failed, save, set_stage, fail, load_or_create_state,
}

pub record ReindexProgress : Type 0 where
  pub stage : MigrationPhase
  pub records_processed : ℕ
  pub total : Option ℕ
  pub checkpoint : ℕ
  pub attempts : ℕ

-- The start of a phase: `replace(state, phase=…, error=None, resume_phase=None)`.
abbrev pub at_phase : MigrationPhase → MigrationState → MigrationState
at_phase phase state = record state { phase = phase; error = none; resume_phase = none }

abbrev pub past_backfill : MigrationPhase → Bool
past_backfill MigrationPhase.validate = true
past_backfill MigrationPhase.flip = true
past_backfill MigrationPhase.contract = true
past_backfill MigrationPhase.complete = true
past_backfill MigrationPhase.rollback = true
past_backfill _ = false

abbrev pub reached : Option ℕ → ℕ → Bool
reached none checkpoint = false
reached (some n) checkpoint = leb n checkpoint

-- `ReindexProgress.complete`.
unfoldable pub progress_complete : ReindexProgress → Bool
progress_complete p = reached p.total p.checkpoint

-- Python's `==` of two cursors.
abbrev pub cursor_eq : Cursor → Cursor → Bool
cursor_eq none none = true
cursor_eq none (some b) = false
cursor_eq (some a) none = false
cursor_eq (some a) (some b) = str_eq a b

abbrev pub progress_of : MigrationState → Option ℕ → ReindexProgress
progress_of state total = record {
  stage = state.phase;
  records_processed = 0;
  total = total;
  checkpoint = state.checkpoint;
  attempts = state.attempts;
}

-- `_terminal_total`.
unfoldable pub terminal_total : {S : Type 0} → ℕ → Option ℕ → Exec Error S (Option ℕ)
terminal_total checkpoint none = pure (some checkpoint)
terminal_total checkpoint (some n) =
    if n == checkpoint
    then pure (some checkpoint)
    else raise (reindex (counts "record source ended early" checkpoint n))

-- `_batch_total_records`.
unfoldable pub batch_total_records :
    {S : Type 0} → MigrationState → Option Total → Exec Error S (Option ℕ)
batch_total_records state none = pure state.total_records
batch_total_records state (some (count n)) = pure (some n)
batch_total_records state (some invalid) =
    raise (reindex (text "record source total_records must be non-negative"))

abbrev pub or_known : Option ℕ → Option ℕ → Option ℕ
or_known (some n) known = some n
or_known none known = known

abbrev pub advance : ReindexProgress → MigrationState → ℕ → ReindexProgress
advance progress state n = record progress {
  records_processed = progress.records_processed + n;
  checkpoint = state.checkpoint;
  attempts = state.attempts;
}

-- The number of rounds of `range(start, stop, step)`.
abbrev pub range_rounds : ℕ → ℕ → ℕ → ℕ
range_rounds start stop step = (stop - start + (step - 1)) / step

module _ {W R F : Type 0} (r : Routine W R F) where
  -- The two handlers of `expand`, in one: both record the failure.
  unfoldable pub expand_failed : {A : Type 0} → MigrationState → Error → Exec Error (Session W) A
  expand_failed state (dimension_mismatch m) = do
    fail r state MigrationPhase.expand m
    raise (dimension_mismatch m)
  expand_failed state (reindex m) = do
    fail r state MigrationPhase.expand m
    raise (reindex (about "Failed to expand migration" m))
  expand_failed state (other m) = do
    fail r state MigrationPhase.expand m
    raise (reindex (about "Failed to expand migration" m))

  unfoldable pub expand_init : MigrationState → Exec Error (Session W) MigrationState
  expand_init state = do
    let expanded = at_phase MigrationPhase.expand state
    try_catch (do call (r.store.ensure_namespace state.target); save r expanded)
        (expand_failed state)
    set_stage r MigrationPhase.expand
    pure expanded

  unfoldable pub expand_state : MigrationState → Exec Error (Session W) MigrationState
  expand_state state =
      if phase_eq state.phase MigrationPhase.init
      then expand_init state
      else (do set_stage r state.phase; pure state)

  unfoldable pub expand : Exec Error (Session W) MigrationState
  expand = do state ← load_or_create_state r; reject_failed state; expand_state state

  -- The loop of `_backfill_batch` over the records and their embeddings.
  unfoldable pub target_records :
      List R → List (List F) → Exec Error (Session W) (List (TargetRecord R F))
  target_records [] es = pure []
  target_records (a ∷ as_) [] = pure []
  target_records (a ∷ as_) (e ∷ es) =
      if length e == r.provider_dim
      then (do
        rest ← target_records as_ es
        pure (
            record {
              original = a;
              embedding = take r.truncate_dim e;
              embedding_model = r.model_name;
            }
            ∷ rest))
      else raise (reindex (counts "provider returned another dimension" (length e) r.provider_dim))

  -- The texts that are embedded.
  unfoldable pub semantic_texts : List R → Exec Error (Session W) (List String)
  semantic_texts [] = pure []
  semantic_texts (a ∷ records) = do
    content ← lift (r.semantic_text a)
    rest ← semantic_texts records
    pure (content ∷ rest)

  -- The `try` block of `_backfill_batch`.
  unfoldable pub embed_and_upsert : List R → Exec Error (Session W) (Unit {0})
  embed_and_upsert batch = do
    texts ← semantic_texts batch
    embeddings ← call (r.embed texts)
    if length embeddings == length batch
        then (do
          targets ← target_records batch embeddings
          call (r.upsert targets r.model_name r.truncate_dim))
        else raise (
            reindex (
              counts "provider returned another number of embeddings" (length embeddings)
                (length batch)))

  unfoldable pub batch_handler :
      {A : Type 0} → MigrationState → ℕ → Error → Exec Error (Session W) A
  batch_handler state n (dimension_mismatch m) = do
    fail r state MigrationPhase.backfill (batch_failed n m)
    raise (dimension_mismatch m)
  batch_handler state n (reindex m) = do
    fail r state MigrationPhase.backfill (batch_failed n m)
    raise (reindex (batch_failed n m))
  batch_handler state n (other m) = do
    fail r state MigrationPhase.backfill (batch_failed n m)
    raise (reindex (batch_failed n m))

  unfoldable pub fail_batch : {A : Type 0} → MigrationState → Message → Exec Error (Session W) A
  fail_batch state m = do fail r state MigrationPhase.backfill m; raise (reindex m)

  -- The cursor is the durable fingerprint only where the corpus is a source.
  abbrev pub fingerprint_after : Corpus W R → Cursor → Option String → Option String
  fingerprint_after (sequence records) cursor fingerprint = fingerprint
  fingerprint_after (source total fetch) cursor fingerprint = some (r.encode_cursor cursor)

  abbrev pub committed : MigrationState → ℕ → Cursor → Option ℕ → MigrationState
  committed state next_checkpoint next_cursor total = record state {
    checkpoint = next_checkpoint;
    total_records = or_known total state.total_records;
    corpus_fingerprint = fingerprint_after r.corpus next_cursor state.corpus_fingerprint;
    error = none;
    resume_phase = none;
  }

  -- The checks of `_backfill_batch` after the upsert.
  unfoldable pub check_batch_total :
      MigrationState → ℕ → Cursor → Option ℕ → Option ℕ → Exec Error (Session W) (Unit {0})
  check_batch_total state next_checkpoint next_cursor none known = pure tt
  check_batch_total state next_checkpoint next_cursor (some n) none =
      if not (is_some next_cursor) && not (next_checkpoint == n)
      then fail_batch state (counts "record source ended at another count" next_checkpoint n)
      else pure tt
  check_batch_total state next_checkpoint next_cursor (some n) (some k) =
      if not (k == n)
      then fail_batch state (counts "record source changed total" k n)
      else if not (is_some next_cursor) && not (next_checkpoint == n)
      then fail_batch state (counts "record source ended at another count" next_checkpoint n)
      else pure tt

  unfoldable pub backfill_batch :
      MigrationState → List R → ℕ → Cursor → Option ℕ → Exec Error (Session W) (MigrationState × ℕ)
  backfill_batch state batch batch_number next_cursor total = do
    let tried = record state { attempts = state.attempts + 1; error = none }
    save r tried
    try_catch (embed_and_upsert batch) (batch_handler tried batch_number)
    let next_checkpoint = tried.checkpoint + length batch
    check_batch_total tried next_checkpoint next_cursor total tried.total_records
    let done = committed tried next_checkpoint next_cursor total
    save r done
    pure (done, length batch)

  -- `for offset in range(checkpoint, len(records), batch_size)`: the rounds are counted.
  unfoldable pub sequence_loop :
      ℕ → ℕ → List R → MigrationState → ReindexProgress → Exec Error (Session W) ReindexProgress
  sequence_loop zero offset records state progress = pure progress
  sequence_loop (suc rounds) offset records state progress = do
    (state', n) ←
        backfill_batch state (take r.batch_size (drop offset records)) (offset / r.batch_size) none
          none
    sequence_loop rounds (offset + r.batch_size) records state' (advance progress state' n)

  unfoldable pub backfill_sequence :
      List R → MigrationState → ReindexProgress → Exec Error (Session W) ReindexProgress
  backfill_sequence records state progress =
      if ltb (length records) state.checkpoint
      then raise (
          reindex
            (counts "backfill checkpoint exceeds record count" state.checkpoint (length records)))
      else sequence_loop (range_rounds state.checkpoint (length records) r.batch_size)
          state.checkpoint records state progress
