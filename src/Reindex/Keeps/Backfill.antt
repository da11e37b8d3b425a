-- ===== src/Reindex/Keeps/Backfill.antt =====
-- What `expand` and `backfill` keep.
use andnp_searchkernel.Prelude.{
  ℕ, zero, suc, ◌≡◌, ◌+◌, refl, true, false, Option, none, some, is_some, List, [], ◌∷◌, length,
  ltb, ◌==◌, not, ◌&&◌, arith,
}
use andnp_searchkernel.Exec.Triple.{
  Triple, Any, Triple-pure, Triple-raise, Triple-if, Triple-try, ◌⨾◌,
}
use andnp_searchkernel.Reindex.Domain.{
  Message, Error, reindex, dimension_mismatch, other, MigrationPhase, phase_eq, MigrationState,
}
use andnp_searchkernel.Reindex.Ports.{Cursor, Total, count, invalid, Routine}
use andnp_searchkernel.Reindex.Backfill
use andnp_searchkernel.Reindex.Backfill.{ReindexProgress, at_phase, past_backfill, committed}
use andnp_searchkernel.Reindex.Consistent.{IsConsistent, StoresKeep, serving}
use andnp_searchkernel.Reindex.Keeps.Rules.{
  Triple-lift, On, Triple-call, Triple-save, Triple-set_stage, Triple-fail, rules,
}
use andnp_searchkernel.Reindex.Keeps.State.{
  IsLoaded, Triple-reject_failed, Triple-load_or_create_state,
}

-- A phase before the target serves can be entered from any consistent state.
pub at_phase-IsConsistent :
    (phase : MigrationPhase) (s : MigrationState)
    → IsConsistent s
    → serving phase ≡ false
    → phase_eq phase MigrationPhase.failed ≡ false
    → IsConsistent (at_phase phase s)
at_phase-IsConsistent phase s c before running = record {
  distinct = c.distinct;
  fits = c.fits;
  evidenced = λ e. ground arith;
  resumed = λ e. ground arith;
  stage = refl;
  backed_up = λ e. ground arith;
  failed_only = λ e. ground arith;
  resumes = λ e. ground arith;
}

tried-IsConsistent :
    (s : MigrationState) (n : ℕ)
    → IsConsistent s
    → IsConsistent (record s { attempts = n; error = none })
tried-IsConsistent s n c = record {
  distinct = c.distinct;
  fits = c.fits;
  evidenced = c.evidenced;
  resumed = c.resumed;
  stage = c.stage;
  backed_up = c.backed_up;
  failed_only = c.failed_only;
  resumes = c.resumes;
}

module _ {S : Type 0} {P : S → Type 0} where
  pub Triple-terminal_total : (n : ℕ) (o : Option ℕ) → Triple P (Backfill.terminal_total n o) Any
  unfolding Backfill.terminal_total
  Triple-terminal_total n none = search rules
  Triple-terminal_total n (some k) = search rules

  pub Triple-batch_total_records :
      (s : MigrationState) (o : Option Total) → Triple P (Backfill.batch_total_records s o) Any
  unfolding Backfill.batch_total_records
  Triple-batch_total_records s none = search rules
  Triple-batch_total_records s (some (count n)) = search rules
  Triple-batch_total_records s (some invalid) = search rules

module _ {W R F : Type 0} (r : Routine W R F) {P : W → Type 0} (h : StoresKeep r P) where
  expand_failed :
      {A : Type 0} {Q : A → Type 0} (s : MigrationState) (e : Error)
      → IsConsistent s
      → Triple (On P) (Backfill.expand_failed r s e) Q
  unfolding Backfill.expand_failed
  expand_failed s (dimension_mismatch m) c =
      Triple-fail r h s MigrationPhase.expand m c refl (λ e. ground arith) ⨾ λ _ _. Triple-raise _
  expand_failed s (reindex m) c =
      Triple-fail r h s MigrationPhase.expand m c refl (λ e. ground arith) ⨾ λ _ _. Triple-raise _
  expand_failed s (other m) c =
      Triple-fail r h s MigrationPhase.expand m c refl (λ e. ground arith) ⨾ λ _ _. Triple-raise _

  expand_init :
      (s : MigrationState) → IsLoaded r s → Triple (On P) (Backfill.expand_init r s) (IsLoaded r)
  unfolding Backfill.expand_init
  expand_init s c =
      let expanded = at_phase-IsConsistent MigrationPhase.expand s c.0 refl refl in
      Triple-try _ _ (Triple-call _ (h.ensure s.target) ⨾ λ _ _. Triple-save r h _ expanded)
        (λ e. expand_failed s e c.0)
      ⨾ λ _ _. Triple-set_stage r h _ ⨾ λ _ _. Triple-pure _ (expanded, c.1)

  pub Triple-expand : Triple (On P) (Backfill.expand r) (IsLoaded r)
  unfolding Backfill.expand Backfill.expand_state
  Triple-expand = Triple-load_or_create_state r h ⨾ λ s c. Triple-reject_failed s ⨾ λ _ _.
      Triple-if (phase_eq s.phase MigrationPhase.init) _ _ (λ _. expand_init s c)
        (λ _. Triple-set_stage r h s.phase ⨾ λ _ _. Triple-pure s c)

  Triple-target_records :
      (batch : List R) (es : List (List F)) → Triple (On P) (Backfill.target_records r batch es) Any
  unfolding Backfill.target_records
  Triple-target_records [] es = Triple-pure [] tt
  Triple-target_records (a ∷ batch) [] = Triple-pure [] tt
  Triple-target_records (a ∷ batch) (e ∷ es) =
      Triple-if (length e == r.provider_dim) _ _
        (λ _. Triple-target_records batch es ⨾ λ rest _. Triple-pure _ tt) (λ _. Triple-raise _)

  semantic_texts : (batch : List R) → Triple (On P) (Backfill.semantic_texts r batch) Any
  unfolding Backfill.semantic_texts
  semantic_texts [] = Triple-pure [] tt
  semantic_texts (a ∷ batch) =
      Triple-lift (r.semantic_text a) ⨾ λ t _. semantic_texts batch ⨾ λ rest _. Triple-pure _ tt

  embed_and_upsert : (batch : List R) → Triple (On P) (Backfill.embed_and_upsert r batch) Any
  unfolding Backfill.embed_and_upsert
  embed_and_upsert batch = semantic_texts batch ⨾ λ texts _. Triple-call _ (h.embeds _) ⨾ λ es _.
      Triple-if (length es == length batch) _ _
        (λ _. Triple-target_records batch es ⨾ λ ts _. Triple-call _ (h.upserts ts _ _))
        (λ _. Triple-raise _)

  batch_handler :
      {A : Type 0} {Q : A → Type 0} (s : MigrationState) (n : ℕ) (e : Error)
      → IsConsistent s
      → Triple (On P) (Backfill.batch_handler r s n e) Q
  unfolding Backfill.batch_handler
  batch_handler s n (dimension_mismatch m) c =
      Triple-fail r h s MigrationPhase.backfill _ c refl (λ e. ground arith) ⨾ λ _ _. Triple-raise _
  batch_handler s n (reindex m) c =
      Triple-fail r h s MigrationPhase.backfill _ c refl (λ e. ground arith) ⨾ λ _ _. Triple-raise _
  batch_handler s n (other m) c =
      Triple-fail r h s MigrationPhase.backfill _ c refl (λ e. ground arith) ⨾ λ _ _. Triple-raise _

  pub Triple-fail_batch :
      {A : Type 0} {Q : A → Type 0} (s : MigrationState) (m : Message)
      → IsConsistent s
      → Triple (On P) (Backfill.fail_batch r s m) Q
  unfolding Backfill.fail_batch
  Triple-fail_batch s m c =
      Triple-fail r h s MigrationPhase.backfill m c refl (λ e. ground arith) ⨾ λ _ _. Triple-raise _

  check_batch_total :
      (s : MigrationState) (n : ℕ) (next : Cursor) (total known : Option ℕ)
      → IsConsistent s
      → Triple (On P) (Backfill.check_batch_total r s n next total known) Any
  unfolding Backfill.check_batch_total
  check_batch_total s n next none known c = Triple-pure tt tt
  check_batch_total s n next (some t) none c =
      Triple-if (not (is_some next) && not (n == t)) _ _ (λ _. Triple-fail_batch s _ c)
        (λ _. Triple-pure tt tt)
  check_batch_total s n next (some t) (some k) c =
      Triple-if (not (k == t)) _ _ (λ _. Triple-fail_batch s _ c)
        λ _.
          Triple-if (not (is_some next) && not (n == t)) _ _ (λ _. Triple-fail_batch s _ c)
            (λ _. Triple-pure tt tt)

  pub Triple-backfill_batch :
      (s : MigrationState) (batch : List R) (n : ℕ) (next : Cursor) (total : Option ℕ)
      → IsConsistent s
      → phase_eq s.phase MigrationPhase.backfill ≡ true
      → Triple
          (On P)
          (Backfill.backfill_batch r s batch n next total)
          (λ p. IsConsistent p.0 × (phase_eq p.0.phase MigrationPhase.backfill ≡ true))
  unfolding Backfill.backfill_batch
  Triple-backfill_batch s batch n next total c running =
      let tried = tried-IsConsistent s (s.attempts + 1) c in
      let done : IsConsistent (
          committed r (record s { attempts = s.attempts + 1; error = none })
            (s.checkpoint + length batch) next total) =
        record {
          distinct = c.distinct;
          fits = c.fits;
          evidenced = c.evidenced;
          resumed = λ e. ground arith;
          stage = refl;
          backed_up = c.backed_up;
          failed_only = λ e. ground arith;
          resumes = λ e. ground arith;
        } in
      Triple-save r h _ tried ⨾ λ _ _.
      Triple-try _ _ (embed_and_upsert batch) (λ e. batch_handler _ n e tried) ⨾ λ _ _.
      check_batch_total _ _ next total _ tried ⨾ λ _ _.
      Triple-save r h _ done ⨾ λ _ _. Triple-pure _ (done, running)

  sequence_loop :
      (rounds offset : ℕ) (records : List R) (s : MigrationState) (p : ReindexProgress)
      → IsConsistent s
      → phase_eq s.phase MigrationPhase.backfill ≡ true
      → Triple (On P) (Backfill.sequence_loop r rounds offset records s p) Any
  unfolding Backfill.sequence_loop
  sequence_loop zero offset records s p c running = Triple-pure p tt
  sequence_loop (suc rounds) offset records s p c running =
      Triple-backfill_batch s _ _ none none c running ⨾ λ q cq.
      sequence_loop rounds _ records q.0 _ cq.0 cq.1

  pub Triple-backfill_sequence :
      (records : List R) (s : MigrationState) (p : ReindexProgress)
      → IsConsistent s
      → phase_eq s.phase MigrationPhase.backfill ≡ true
      → Triple (On P) (Backfill.backfill_sequence r records s p) Any
  unfolding Backfill.backfill_sequence
  Triple-backfill_sequence records s p c running =
      Triple-if (ltb (length records) s.checkpoint) _ _ (λ _. Triple-raise _)
        (λ _. sequence_loop _ _ records s p c running)
