-- ===== src/Reindex/Keeps/Source.antt =====
-- What `backfill` over a paged source keeps, and `backfill` itself.
use andnp_searchkernel.Prelude.{
  ℕ, zero, suc, ◌≡◌, refl, true, Option, none, some, is_some, String, ltb, length, not, ◌&&◌,
}
use andnp_searchkernel.Exec.{Exec}
use andnp_searchkernel.Exec.Triple.{
  Triple, Any, Triple-pure, Triple-raise, Triple-if, Triple-try, ◌⨾◌,
}
use andnp_searchkernel.Reindex.Domain.{Error, MigrationPhase, phase_eq, MigrationState}
use andnp_searchkernel.Reindex.Ports.{Cursor, RecordBatch, Corpus, sequence, source, Routine}
use andnp_searchkernel.Reindex.Backfill.{ReindexProgress, past_backfill, reached}
use andnp_searchkernel.Reindex.Source
use andnp_searchkernel.Reindex.Source.{is_empty, page_done, skipped, stuck}
use andnp_searchkernel.Reindex.Consistent.{IsConsistent, StoresKeep, CorpusKeeps}
use andnp_searchkernel.Reindex.Keeps.Rules.{On, Triple-call, Triple-save, Triple-set_stage}
use andnp_searchkernel.Reindex.Keeps.State.{
  Triple-reject_failed, Triple-require_cursor, Triple-source_total, Triple-total_records,
  Triple-load_or_create_state,
}
use andnp_searchkernel.Reindex.Keeps.Backfill.{
  at_phase-IsConsistent, Triple-terminal_total, Triple-batch_total_records, Triple-fail_batch,
  Triple-backfill_batch, Triple-backfill_sequence,
}

module _ {W R F : Type 0} (r : Routine W R F) {P : W → Type 0} (h : StoresKeep r P) where
  or_source_total : (o : Option ℕ) → Triple (On P) (Source.or_source_total r o) Any
  unfolding Source.or_source_total
  or_source_total none = Triple-source_total r h r.corpus
  or_source_total (some n) = Triple-pure (some n) tt

  page_total :
      (s : MigrationState) (b : RecordBatch R) → Triple (On P) (Source.page_total r s b) Any
  unfolding Source.page_total
  page_total s b = Triple-batch_total_records s b.batch_total ⨾ λ told _.
      or_source_total told ⨾ λ total _.
      Triple-if (is_some b.next_cursor) _ _ (λ _. Triple-pure total tt)
        (λ _. Triple-terminal_total _ total)

  skipped-IsConsistent :
      (s : MigrationState) (next : Cursor) (total : Option ℕ)
      → IsConsistent s
      → IsConsistent (skipped r s next total)
  skipped-IsConsistent s next total c = record {
    distinct = c.distinct;
    fits = c.fits;
    evidenced = c.evidenced;
    resumed = c.resumed;
    stage = c.stage;
    backed_up = c.backed_up;
    failed_only = c.failed_only;
    resumes = c.resumes;
  }

  empty_page :
      (s : MigrationState) (cursor next : Cursor) (total : Option ℕ)
      → IsConsistent s
      → phase_eq s.phase MigrationPhase.backfill ≡ true
      → Triple
          (On P)
          (Source.empty_page r s cursor next total)
          (λ t. IsConsistent t × (phase_eq t.phase MigrationPhase.backfill ≡ true))
  unfolding Source.empty_page
  empty_page s cursor next total c running =
      Triple-if (stuck next cursor) _ _ (λ _. Triple-raise _)
        λ _.
          Triple-if (is_some next) _ _ (λ _. Triple-pure total tt)
            (λ _. Triple-terminal_total s.checkpoint total)
          ⨾ λ total' _. Triple-save r h _ (skipped-IsConsistent s next total' c) ⨾ λ _ _.
              Triple-pure _ (skipped-IsConsistent s next total' c, running)

  check_page :
      (b : RecordBatch R) (cursor : Cursor) → Triple (On P) (Source.check_page r b cursor) Any
  unfolding Source.check_page
  check_page b cursor =
      Triple-if (ltb r.batch_size (length b.records)) _ _ (λ _. Triple-raise _)
        λ _.
          Triple-if (not (is_empty b.records) && stuck b.next_cursor cursor) _ _
            (λ _. Triple-raise _) (λ _. Triple-pure tt tt)

  source_loop :
      (fuel : ℕ) (fetch : Cursor → ℕ → Exec Error W (RecordBatch R))
      (pages : (cursor : Cursor) (limit : ℕ) → Triple P (fetch cursor limit) Any) (cursor : Cursor)
      (s : MigrationState) (p : ReindexProgress)
      → IsConsistent s
      → phase_eq s.phase MigrationPhase.backfill ≡ true
      → Triple (On P) (Source.source_loop r fuel fetch cursor s p) Any
  unfolding Source.source_loop Source.fetch
  source_loop zero fetch pages cursor s p c running = Triple-pure none tt
  source_loop (suc fuel) fetch pages cursor s p c running =
      Triple-try _ _ (Triple-call _ (pages cursor r.batch_size)) (λ e. Triple-fail_batch r h s _ c)
      ⨾ λ b _. check_page b cursor ⨾ λ _ _. page_total s b ⨾ λ total _.
          Triple-if (is_empty b.records) _ _
            (λ _. empty_page s cursor b.next_cursor total c running ⨾ λ t ct.
              Triple-if (is_some b.next_cursor) _ _
                (λ _. source_loop fuel fetch pages b.next_cursor t _ ct.0 ct.1)
                (λ _. Triple-pure _ tt))
            (λ _. Triple-backfill_batch r h s b.records _ b.next_cursor total c running ⨾ λ q cq.
              Triple-if (page_done q.0 b.next_cursor) _ _ (λ _. Triple-pure _ tt)
                (λ _. source_loop fuel fetch pages b.next_cursor q.0 _ cq.0 cq.1))

  decode_cursor : (o : Option String) → Triple (On P) (Source.decode_cursor r o) Any
  unfolding Source.decode_cursor
  decode_cursor none = Triple-require_cursor none
  decode_cursor (some v) = Triple-require_cursor _

  backfill_corpus :
      (fuel : ℕ) (corpus : Corpus W R) (pages : CorpusKeeps P corpus) (s : MigrationState)
      (p : ReindexProgress)
      → IsConsistent s
      → phase_eq s.phase MigrationPhase.backfill ≡ true
      → Triple (On P) (Source.backfill_corpus r fuel corpus s p) Any
  unfolding Source.backfill_corpus Source.source_cursor
  backfill_corpus fuel (sequence records) pages s p c running =
      Triple-backfill_sequence r h records s p c running ⨾ λ _ _. Triple-pure _ tt
  backfill_corpus fuel (source total fetch) pages s p c running =
      decode_cursor s.corpus_fingerprint ⨾ λ cursor _.
      source_loop fuel fetch pages cursor s p c running

  start_backfill :
      (fuel : ℕ) (s : MigrationState)
      → IsConsistent s
      → Triple (On P) (Source.start_backfill r fuel s) Any
  unfolding Source.start_backfill
  start_backfill fuel s c =
      let started = at_phase-IsConsistent MigrationPhase.backfill s c refl refl in
      Triple-save r h _ started ⨾ λ _ _. Triple-total_records r h _ ⨾ λ total _.
      backfill_corpus fuel r.corpus h.pages _ _ started refl ⨾ λ done _.
      Triple-set_stage r h _ ⨾ λ _ _. Triple-pure done tt

  pub Triple-backfill : (fuel : ℕ) → Triple (On P) (Source.backfill r fuel) Any
  unfolding Source.backfill
  Triple-backfill fuel = Triple-load_or_create_state r h ⨾ λ s c. Triple-reject_failed s ⨾ λ _ _.
      Triple-if (phase_eq s.phase MigrationPhase.init) _ _ (λ _. Triple-raise _)
        λ _. Triple-total_records r h s ⨾ λ known _.
          Triple-if (phase_eq s.phase MigrationPhase.backfill && reached known s.checkpoint) _ _
            (λ _. Triple-pure _ tt)
            λ _.
              Triple-if (past_backfill s.phase) _ _
                (λ _. Triple-total_records r h s ⨾ λ total _. Triple-pure _ tt)
                (λ _. start_backfill fuel s c.0)
