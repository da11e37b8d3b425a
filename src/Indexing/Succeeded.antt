-- ===== src/Indexing/Succeeded.antt =====
-- What one batch of indexing/coordinator.py leaves behind: it touches no stored cursor, and where it is
-- successful its semantic inputs are in place.
use andnp_searchkernel.Prelude.{
  ℕ, ◌≡◌, refl, sym, ◌∙◌, true, ◌==◌, Option, none, some, List, [], ◌∷◌, ◌⊎◌, inl, inr, All, String,
}
use mathlib.Core.Bool.{true≢false}
use andnp_searchkernel.Exec.Grows.{Grows, Anything, Grows-pure, Grows-if, Grows-bind}
use andnp_searchkernel.Indexing.Receipts.{Cursor, Record, IngestionReceipt, Exception, count_failed}
use andnp_searchkernel.Indexing.Semantic.{SemanticProgress}
use andnp_searchkernel.Indexing.Materialized.{Grows-execute}
use andnp_searchkernel.Indexing.Placement.{Grows-call, Placed, All-map}
use andnp_searchkernel.Indexing.Parts.{
  StageResult, PreparedIndexBatch, Given, RecordIngestor, IndexStage, Coordinator, BatchOutcome,
  unfinished, Options, Run,
}
use andnp_searchkernel.Indexing.Runner.{
  Commit, stopped, going, silent, ingestor_failed, work_failed, ingested, ingest, stage_applied,
  apply_stages, commit, semantic_done, run_semantic, run,
}
use andnp_searchkernel.Indexing.Calm.{
  Calm, Calm-IsGrowth, GivenSteady, IngestsSteady, StageSteady, Grows-world, Grows-report_progress,
  Grows-reject, Unsuccessful, Attempted, Grows-attempt, Stopped, Grows-unless_stopped, Grows-settle,
  Collaborates, silent_effects,
}

module _ {W F : Type 0} (Good : String → List F → W → Type 0) (stored : W → Cursor) where
  module _ {D : Type 0} (parts : Coordinator W F D) (options : Options W)
      (h : Collaborates Good stored parts options) (batch : PreparedIndexBatch D)
      (records : List Record) (batch_index : ℕ) (checkpoint : Cursor) where
    Grows-ingestor_failed :
        (e : Exception) (s : Run W)
        → Grows
            (Calm Good stored)
            (ingestor_failed parts options batch records batch_index checkpoint e)
            s
            (Unsuccessful Good stored)
    unfolding ingestor_failed unfinished
    Grows-ingestor_failed e s = Grows-reject Good stored _ _ _ s refl

    Grows-work_failed :
        (e : Exception) (s : Run W)
        → Grows
            (Calm Good stored)
            (work_failed parts options batch records batch_index checkpoint e)
            s
            (Unsuccessful Good stored)
    unfolding work_failed unfinished
    Grows-work_failed e s = Grows-reject Good stored _ _ _ s refl

    Grows-ingested :
        (r : IngestionReceipt) (s : Run W)
        → Grows
            (Calm Good stored)
            (ingested parts options batch records batch_index checkpoint r)
            s
            (Stopped Good stored)
    unfolding ingested unfinished
    Grows-ingested r s =
        Grows-bind (Calm-IsGrowth Good stored)
          (Grows-report_progress Good stored options _ s h.reports)
          λ _ t _ _.
            Grows-if (Calm-IsGrowth Good stored) (count_failed r.records == 0) _ _ t
              (λ _. Grows-pure (Calm-IsGrowth Good stored) _ t tt)
              (λ _. Grows-reject Good stored _ r _ t refl)

    Grows-stage_applied :
        (outcome : BatchOutcome) (given : Given W StageResult) (s : Run W)
        → GivenSteady Good stored given
        → Grows
            (Calm Good stored)
            (stage_applied parts options batch records batch_index checkpoint outcome given)
            s
            Anything
    unfolding stage_applied
    Grows-stage_applied outcome given s g =
        Grows-bind (Calm-IsGrowth Good stored)
          (Grows-world Good stored (Grows-settle Good stored _ given s.world g))
          λ r t _ _.
            Grows-bind (Calm-IsGrowth Good stored)
              (Grows-report_progress Good stored options _ t h.reports)
              λ _ u _ _. Grows-pure (Calm-IsGrowth Good stored) _ u tt

    Grows-apply_stages :
        (stages : List (IndexStage W D)) (outcome : BatchOutcome) (s : Run W)
        → All (StageSteady Good stored) stages
        → Grows
            (Calm Good stored)
            (apply_stages parts options batch records batch_index checkpoint stages outcome)
            s
            (Stopped Good stored)
    unfolding apply_stages
    Grows-apply_stages [] outcome s a = Grows-pure (Calm-IsGrowth Good stored) _ s tt
    Grows-apply_stages (stage ∷ stages) outcome s a =
        Grows-bind (Calm-IsGrowth Good stored)
          (Grows-attempt Good stored (stage batch) _ s (a.0 batch s.world) Grows-work_failed)
          λ x t _ q. Grows-unless_stopped Good stored _ _ x t q λ given g.
            Grows-bind (Calm-IsGrowth Good stored) (Grows-stage_applied outcome given t g)
              λ o u _ _. Grows-apply_stages stages o u a.1

    Grows-commit :
        (ingestor : Option (RecordIngestor W)) (s : Run W)
        → IngestsSteady Good stored ingestor
        → Grows
            (Calm Good stored)
            (commit parts options batch records batch_index checkpoint ingestor)
            s
            (Stopped Good stored)
    unfolding commit ingest
    Grows-commit none s i = Grows-apply_stages parts.stages _ s h.staging
    Grows-commit (some ingestor) s i =
        Grows-bind (Calm-IsGrowth Good stored)
          (Grows-attempt Good stored {Q = Anything}
            (ingestor records checkpoint options.failure_mode) _ s
            (Grows-call _ s.world (i records checkpoint options.failure_mode s.world))
            Grows-ingestor_failed)
          λ x t _ q. Grows-unless_stopped Good stored Anything _ x t q λ r _. Grows-ingested r t

    -- A successful outcome: the batch's semantic inputs are in place.
    abbrev pub Succeeded : BatchOutcome → Run W → Type 0
    Succeeded outcome t =
        outcome.successful ≡ true
        → All (Placed parts.embedding parts.planner Good t.world) batch.semantic_inputs

    fails-Succeeded :
        (outcome : BatchOutcome) (t : Run W)
        → Unsuccessful Good stored outcome t
        → Succeeded outcome t
    fails-Succeeded outcome t u e = absurd (true≢false (sym e ∙ u))

    Grows-semantic_done :
        (outcome : BatchOutcome) (x : SemanticProgress ⊎ BatchOutcome) (s : Run W)
        → Attempted Good stored
            (λ _ w. All (Placed parts.embedding parts.planner Good w) batch.semantic_inputs)
            x
            s
        → Grows
            (Calm Good stored)
            (semantic_done parts options batch records batch_index checkpoint outcome x)
            s
            Succeeded
    unfolding semantic_done
    Grows-semantic_done outcome (inr failed) s q =
        Grows-pure (Calm-IsGrowth Good stored) failed s (fails-Succeeded failed s q)
    Grows-semantic_done outcome (inl progress) s q =
        Grows-bind (Calm-IsGrowth Good stored)
          (Grows-report_progress Good stored options _ s h.reports)
          λ _ t b _. Grows-pure (Calm-IsGrowth Good stored) _ t λ _.
            All-map _ _ (λ item p. (p.0, p.1, b.steady.0 item.source_id p.0 p.2))
              batch.semantic_inputs q

    Grows-run_semantic :
        (c : Commit) (s : Run W)
        → Stopped Good stored c s
        → Grows
            (Calm Good stored)
            (run_semantic parts options batch records batch_index checkpoint c)
            s
            Succeeded
    unfolding run_semantic
    Grows-run_semantic (stopped outcome) s q =
        Grows-pure (Calm-IsGrowth Good stored) outcome s (fails-Succeeded outcome s q)
    Grows-run_semantic (going outcome) s q =
        Grows-bind (Calm-IsGrowth Good stored)
          (Grows-attempt Good stored _ _ s
            (Grows-execute (silent parts.embedding) parts.planner
              (silent_effects Good stored parts.embedding h.embeds) batch.semantic_inputs 32
              s.world)
            Grows-work_failed)
          λ x t _ p. Grows-semantic_done outcome x t p

    -- One batch.
    pub Grows-run :
        (s : Run W)
        → Grows
            (Calm Good stored)
            (run parts options batch records batch_index checkpoint)
            s
            Succeeded
    unfolding run
    Grows-run s =
        Grows-bind (Calm-IsGrowth Good stored) (Grows-commit parts.record_ingestor s h.ingests)
          λ c t _ q. Grows-run_semantic c t q
