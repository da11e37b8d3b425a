-- ===== src/Indexing/Answering.antt =====
-- One batch of indexing/coordinator.py with an ingestor, a planner and a callback that answer.
use andnp_searchkernel.Prelude.{
  ℕ, ◌≡◌, refl, sym, ◌∙◌, subst, true, ◌==◌, ==_iff, Option, some, String, List, ◌⊎◌, inl, inr,
  arith,
}
use andnp_searchkernel.Exec.{Exec, modify}
use andnp_searchkernel.Exec.Triple.{Any}
use andnp_searchkernel.Exec.Grows.{IsGrowth}
use andnp_searchkernel.Exec.Runs.{Runs, Returns, Runs-try, Runs-if_true, Returns-pure, Returns-bind}
use andnp_searchkernel.Indexing.Receipts.{
  Cursor, Record, IngestionFailureMode, IngestionReceipt, count_failed, Exception, Error,
}
use andnp_searchkernel.Indexing.Semantic.{SemanticProgress}
use andnp_searchkernel.Indexing.Finished.{CallsBack, Answers, Returns-call_back, Returns-execute}
use andnp_searchkernel.Indexing.Parts.{
  PreparedIndexBatch, CheckpointStore, RecordIngestor, Coordinator, CoordinatorProgress,
  BatchOutcome, Options, Run, call, report_progress, attempt,
}
use andnp_searchkernel.Indexing.Runner.{
  Commit, stopped, going, unless_stopped, silent, ingested, ingest, commit, semantic_done,
  run_semantic, run,
}

module _ {W : Type 0} (stored : W → Cursor) where
  -- The stored cursor is the same.
  abbrev pub Same : W → W → Type 0
  Same w w' = stored w' ≡ stored w

  -- And the run's own cursor and flag.
  abbrev pub SameRun : Run W → Run W → Type 0
  SameRun s t =
      (stored t.world ≡ stored s.world)
      × (t.current_checkpoint ≡ s.current_checkpoint)
      × (t.checkpoint_blocked ≡ s.checkpoint_blocked)

  pub SameRun-IsGrowth : IsGrowth SameRun
  SameRun-IsGrowth = record {
    stays = λ s. (refl, refl, refl);
    joins = λ s t u a b. (b.0 ∙ a.0, b.1 ∙ a.1, b.2 ∙ a.2);
  }

  -- An ingestor that commits every record, a planner and a callback that answer, and a store that keeps
  -- the cursor that it is given.
  pub record Serves {F D : Type 0} (parts : Coordinator W F D) (options : Options W)
      (ingestor : RecordIngestor W) (store : CheckpointStore W) : Type 0 where
    pub embeds : Answers parts.embedding parts.planner Same
    pub ingests :
        (records : List Record) (c : Cursor) (mode : IngestionFailureMode) (w : W)
        → Returns Same (ingestor records c mode) w (λ r. count_failed r.records ≡ 0)
    pub reports : CallsBack Same options.progress
    pub loads :
        (kind : String) (workspace : Option String) (w : W)
        → Runs (store.load kind workspace) w (λ c w'. (stored w' ≡ stored w) × (c ≡ stored w))
    pub saves :
        (kind : String) (workspace : Option String) (c : Cursor) (w : W)
        → Runs (store.save kind workspace c) w (λ _ w'. stored w' ≡ c)

  pub Returns-call :
      {A : Type 0} {Q : A → Type 0} {m : Exec Error W A} (s : Run W)
      → Returns Same m s.world Q
      → Returns SameRun (call m) s Q
  unfolding call
  Returns-call s r = record {
    value = r.value;
    state = record s { world = r.state };
    result = rw r.result refl;
    holds = ((r.holds.0, refl, refl), r.holds.1);
  }

  pub Returns-modify :
      (f : Run W → Run W) (s : Run W)
      → SameRun s (f s)
      → Returns {E = Error} SameRun (modify f) s Any
  unfolding modify
  Returns-modify f s c = record { value = tt; state = f s; result = refl; holds = (c, tt) }

  pub Returns-report_progress :
      (options : Options W) (event : CoordinatorProgress) (s : Run W)
      → CallsBack Same options.progress
      → IsGrowth Same
      → Returns SameRun (report_progress options event) s Any
  unfolding report_progress
  Returns-report_progress options event s h g =
      Returns-bind SameRun-IsGrowth (Returns-modify _ s (refl, refl, refl))
        λ _ t _. Returns-call t (Returns-call_back g options.progress event t.world h)

  abbrev Went : {A : Type 0} → (A → Type 0) → A ⊎ BatchOutcome → Type 0
  Went Q (inl a) = Q a
  Went Q (inr outcome) = ⊥

  Returns-attempt :
      {A : Type 0} {Q : A → Type 0} (m : Exec Error W A)
      (handler : Exception → Exec Error (Run W) BatchOutcome) (s : Run W)
      → Returns Same m s.world Q
      → Returns SameRun (attempt m handler) s (Went Q)
  unfolding attempt
  Returns-attempt m handler s r = Runs-try _ _ s (
      Returns-bind SameRun-IsGrowth (Returns-call s r)
        λ a t q. Returns-pure SameRun-IsGrowth (inl a) t q)

  abbrev Goes : Commit → Type 0
  Goes (stopped outcome) = ⊥
  Goes (going outcome) = Unit

  module _ {F D : Type 0} (parts : Coordinator W F D) (options : Options W)
      {ingestor : RecordIngestor W} {store : CheckpointStore W}
      (h : Serves parts options ingestor store) (batch : PreparedIndexBatch D)
      (records : List Record) (batch_index : ℕ) (checkpoint : Cursor) where
    Returns-ingested :
        (r : IngestionReceipt) (s : Run W)
        → count_failed r.records ≡ 0
        → Returns SameRun (ingested parts options batch records batch_index checkpoint r) s Goes
    unfolding ingested
    Returns-ingested r s e =
        Returns-bind SameRun-IsGrowth
          (Returns-report_progress options _ s h.reports h.embeds.growth)
          λ _ t _.
            Runs-if_true (count_failed r.records == 0) _ _ t
              ((==_iff (count_failed r.records) 0).1 e) (Returns-pure SameRun-IsGrowth _ t tt)

    Returns-unless_stopped :
        (x : IngestionReceipt ⊎ BatchOutcome) (s : Run W)
        → Went (λ r. count_failed r.records ≡ 0) x
        → Returns SameRun
            (unless_stopped (ingested parts options batch records batch_index checkpoint) x)
            s
            Goes
    Returns-unless_stopped (inl r) s q = Returns-ingested r s q
    Returns-unless_stopped (inr outcome) s q = absurd q

    Returns-commit :
        (s : Run W)
        → Returns SameRun
            (commit parts options batch records batch_index checkpoint (some ingestor))
            s
            Goes
    unfolding commit ingest
    Returns-commit s =
        Returns-bind SameRun-IsGrowth
          (Returns-attempt _ _ s (h.ingests records checkpoint options.failure_mode s.world))
          λ x t q. Returns-unless_stopped x t q

    Returns-semantic_done :
        (Q : SemanticProgress → Type 0) (outcome : BatchOutcome)
        (x : SemanticProgress ⊎ BatchOutcome) (s : Run W)
        → Went Q x
        → Returns SameRun
            (semantic_done parts options batch records batch_index checkpoint outcome x)
            s
            (λ o. o.successful ≡ true)
    unfolding semantic_done
    Returns-semantic_done Q outcome (inr failed) s q = absurd q
    Returns-semantic_done Q outcome (inl progress) s q =
        Returns-bind SameRun-IsGrowth
          (Returns-report_progress options _ s h.reports h.embeds.growth)
          λ _ t _. Returns-pure SameRun-IsGrowth _ t refl

    silent_answers : Answers (silent parts.embedding) parts.planner Same
    silent_answers = record {
      growth = h.embeds.growth;
      gets = h.embeds.gets;
      puts = h.embeds.puts;
      encodes = h.embeds.encodes;
      materializes = h.embeds.materializes;
      reports = tt;
    }

    Returns-run_semantic :
        (c : Commit) (s : Run W)
        → Goes c
        → Returns SameRun
            (run_semantic parts options batch records batch_index checkpoint c)
            s
            (λ o. o.successful ≡ true)
    unfolding run_semantic
    Returns-run_semantic (stopped outcome) s q = absurd q
    Returns-run_semantic (going outcome) s q =
        Returns-bind SameRun-IsGrowth
          (Returns-attempt _ _ s (
            Returns-execute (silent parts.embedding) parts.planner silent_answers
              batch.semantic_inputs 32 s.world (omega arith)))
          λ x t p. Returns-semantic_done _ outcome x t p

    -- A batch is successful.
    pub Returns-run :
        (s : Run W)
        → parts.record_ingestor ≡ some ingestor
        → Returns SameRun
            (run parts options batch records batch_index checkpoint)
            s
            (λ o. o.successful ≡ true)
    unfolding run
    Returns-run s e =
        Returns-bind SameRun-IsGrowth
          (subst
            (λ o.
              Returns SameRun (commit parts options batch records batch_index checkpoint o) s Goes)
            (sym e) (Returns-commit s))
          λ c t q. Returns-run_semantic c t q
