-- ===== src/Reindex/Source.antt =====
-- runtime/reindex.py: `_backfill_source`, and `backfill` over either kind of corpus. The loop
-- `while True` runs on fuel: `none` means that it was still running.
use andnp_searchkernel.Prelude.{
  ℕ, zero, suc, ◌+◌, ◌/◌, Bool, ◌&&◌, ◌||◌, not, Option, none, some, is_some, String, List, [], ◌∷◌,
  ltb, length, if◌then◌else◌,
}
use andnp_searchkernel.Exec.{Exec, pure, raise, try_catch, ◌>>=◌, ◌>>◌}
use andnp_searchkernel.Reindex.Domain.{
  text, batch_failed, counts, Error, reindex, message, MigrationPhase, phase_eq, MigrationState,
}
use andnp_searchkernel.Reindex.Ports.{
  Cursor, RecordBatch, Corpus, sequence, source, Routine, Session,
}
use andnp_searchkernel.Reindex.State.{
  call, reject_failed, require_cursor, save, set_stage, source_total, total_records,
  load_or_create_state,
}
use andnp_searchkernel.Reindex.Backfill.{
  ReindexProgress, at_phase, past_backfill, reached, cursor_eq, progress_of, terminal_total,
  batch_total_records, fail_batch, backfill_batch, backfill_sequence, advance,
}

abbrev pub is_empty : {A : Type 0} → List A → Bool
is_empty [] = Bool.true
is_empty (x ∷ xs) = Bool.false

-- `next_cursor == cursor and next_cursor is not None`.
abbrev pub stuck : Cursor → Cursor → Bool
stuck next_cursor cursor = cursor_eq next_cursor cursor && is_some next_cursor

abbrev pub page_done : MigrationState → Cursor → Bool
page_done state next_cursor =
    not (is_some next_cursor) || reached state.total_records state.checkpoint

module _ {W R F : Type 0} (r : Routine W R F) where
  unfoldable pub fetch :
      (Cursor → ℕ → Exec Error W (RecordBatch R))
      → MigrationState
      → Cursor
      → Exec Error (Session W) (RecordBatch R)
  fetch fetch_batch state cursor =
      try_catch (call (fetch_batch cursor r.batch_size))
        λ e. fail_batch r state (batch_failed (state.checkpoint / r.batch_size) (message e))

  unfoldable pub or_source_total : Option ℕ → Exec Error (Session W) (Option ℕ)
  or_source_total (some n) = pure (some n)
  or_source_total none = source_total r r.corpus

  -- The total that a page is committed with: the page's, the source's, and at the last page the
  -- count that was reached.
  unfoldable pub page_total : MigrationState → RecordBatch R → Exec Error (Session W) (Option ℕ)
  page_total state batch = do
    told ← batch_total_records state batch.batch_total
    total ← or_source_total told
    if is_some batch.next_cursor
        then pure total
        else terminal_total (state.checkpoint + length batch.records) total

  -- An empty page only moves the durable cursor.
  abbrev pub skipped : MigrationState → Cursor → Option ℕ → MigrationState
  skipped state next_cursor total = record state {
    total_records = total;
    corpus_fingerprint = some (r.encode_cursor next_cursor);
  }

  -- A page without records: the second test and the second total of the loop.
  unfoldable pub empty_page :
      MigrationState → Cursor → Cursor → Option ℕ → Exec Error (Session W) MigrationState
  empty_page state cursor next_cursor total =
      if stuck next_cursor cursor
      then raise (reindex (text "record source did not advance its cursor"))
      else (do
        total' ← (if is_some next_cursor then pure total else terminal_total state.checkpoint total)
        save r (skipped state next_cursor total')
        pure (skipped state next_cursor total'))

  unfoldable pub check_page : RecordBatch R → Cursor → Exec Error (Session W) (Unit {0})
  check_page batch cursor =
      if ltb r.batch_size (length batch.records)
      then raise (
          reindex
            (counts "record source returned too many records" (length batch.records) r.batch_size))
      else if not (is_empty batch.records) && stuck batch.next_cursor cursor
      then raise (reindex (text "record source did not advance its cursor"))
      else pure tt

  unfoldable pub source_loop :
      ℕ
      → (Cursor → ℕ → Exec Error W (RecordBatch R))
      → Cursor
      → MigrationState
      → ReindexProgress
      → Exec Error (Session W) (Option ReindexProgress)
  source_loop zero fetch_batch cursor state progress = pure none
  source_loop (suc fuel) fetch_batch cursor state progress = do
    batch ← fetch fetch_batch state cursor
    check_page batch cursor
    total ← page_total state batch
    if is_empty batch.records
        then (do
          state' ← empty_page state cursor batch.next_cursor total
          let progress' = record progress { total = state'.total_records }
          if is_some batch.next_cursor
              then source_loop fuel fetch_batch batch.next_cursor state' progress'
              else pure (some (record progress' { checkpoint = state'.checkpoint })))
        else (do
          (state', n) ←
              backfill_batch r state batch.records (state.checkpoint / r.batch_size)
                batch.next_cursor total
          let progress' = record (advance progress state' n) { total = state'.total_records }
          if page_done state' batch.next_cursor
              then pure (some progress')
              else source_loop fuel fetch_batch batch.next_cursor state' progress')

  unfoldable pub decode_cursor : Option String → Exec Error (Session W) Cursor
  decode_cursor none = require_cursor none
  decode_cursor (some value) = require_cursor (r.decode_cursor value)

  -- `_source_cursor`.
  unfoldable pub source_cursor : MigrationState → Exec Error (Session W) Cursor
  source_cursor state = decode_cursor state.corpus_fingerprint

  unfoldable pub backfill_corpus :
      ℕ
      → Corpus W R
      → MigrationState
      → ReindexProgress
      → Exec Error (Session W) (Option ReindexProgress)
  backfill_corpus fuel (sequence records) state progress = do
    done ← backfill_sequence r records state progress
    pure (some done)
  backfill_corpus fuel (source total fetch_batch) state progress = do
    cursor ← source_cursor state
    source_loop fuel fetch_batch cursor state progress

  unfoldable pub start_backfill :
      ℕ → MigrationState → Exec Error (Session W) (Option ReindexProgress)
  start_backfill fuel state = do
    let started = at_phase MigrationPhase.backfill state
    save r started
    total ← total_records r started
    done ← backfill_corpus fuel r.corpus started (progress_of started total)
    set_stage r MigrationPhase.backfill
    pure done

  unfoldable pub backfill : ℕ → Exec Error (Session W) (Option ReindexProgress)
  backfill fuel = do
    state ← load_or_create_state r
    reject_failed state
    if phase_eq state.phase MigrationPhase.init
        then raise (reindex (text "Cannot backfill before expand is complete"))
        else (do
          known_total ← total_records r state
          if phase_eq state.phase MigrationPhase.backfill && reached known_total state.checkpoint
              then pure (some (progress_of state known_total))
              else if past_backfill state.phase
              then (do total ← total_records r state; pure (some (progress_of state total)))
              else start_backfill fuel state)
