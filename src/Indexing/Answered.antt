-- ===== src/Indexing/Answered.antt =====
-- The loop of `run_source` of indexing/coordinator.py, with parts that answer.
use andnp_searchkernel.Prelude.{
  ℕ, ◌+◌, ◌≡◌, refl, ap, ◌∙◌, true, false, not, Bool-cases, none, some, String, eq_iff, List, [],
  ◌∷◌, inl, inr, All, arith,
}
use andnp_searchkernel.Exec.{Result, ok, err, reads}
use andnp_searchkernel.Exec.Triple.{Any}
use andnp_searchkernel.Exec.Runs.{
  Runs, Returns, Runs-pure, Runs-try, Runs-if_true, Runs-if_false, Runs-weaken, Runs-modify,
  Runs-bind, Returns-pure, Returns-bind,
}
use andnp_searchkernel.Indexing.Receipts.{Cursor, Record, Error}
use andnp_searchkernel.Indexing.Parts.{
  CheckpointStore, RecordIngestor, Coordinator, BatchOutcome, Options, Run, cursor_eq, call,
}
use andnp_searchkernel.Indexing.Sources.{Pull, pulled, failing}
use andnp_searchkernel.Indexing.Coordinator.{
  save_checkpoint, prepare, prepared_from, save_and_report, advance, run_batch, settle_batch,
  process_pull, process_pulls,
}
use andnp_searchkernel.Indexing.LastCursor.{after, last_cursor, NoneFails}
use andnp_searchkernel.Indexing.Semantic.{SemanticInput}
use andnp_searchkernel.Indexing.Inputs.{
  storage_key, input_with, semantic_input_for_record, inputs_for,
}
use andnp_searchkernel.Indexing.Grouped.{All-append_left}
use andnp_searchkernel.Indexing.Cut.{all_records}
use andnp_searchkernel.Indexing.Answering.{
  Same, SameRun, SameRun-IsGrowth, Serves, Returns-call, Returns-report_progress, Returns-run,
}

pub cursor_eq_lem : (c d : Cursor) → cursor_eq c d ≡ true → c ≡ d
cursor_eq_lem none none e = refl
cursor_eq_lem (some a) (some b) e = ap some ((eq_iff a b).0 e)
cursor_eq_lem none (some b) e = absurd (ground arith)
cursor_eq_lem (some a) none e = absurd (ground arith)

module _ {W F D : Type 0} (parts : Coordinator W F D) where
  -- The record's identity is valid.
  abbrev pub HasKey : Record → Type 0
  HasKey r = (key : String) × (storage_key parts.embedding r ≡ ok key)

  pub inputs_for-HasKey :
      (records : List Record)
      → All HasKey records
      → (inputs : List SemanticInput) × (inputs_for parts.embedding parts.planner records
          ≡ ok inputs)
  unfolding inputs_for semantic_input_for_record
  inputs_for-HasKey [] k = ([], refl)
  inputs_for-HasKey (r ∷ records) k =
      let rest = inputs_for-HasKey records k.1 in
      (input_with parts.embedding parts.planner r k.0.0 ∷ rest.0, rw (k.0.1, rest.1) refl)

module _ {W : Type 0} (stored : W → Cursor) where
  -- The run is at this cursor, not blocked, and has it stored.
  abbrev pub At : Cursor → Run W → Type 0
  At c s = (stored s.world ≡ c) × (s.current_checkpoint ≡ c) × (s.checkpoint_blocked ≡ false)

  pub At-SameRun : (c : Cursor) (s t : Run W) → SameRun stored s t → At c s → At c t
  At-SameRun c s t b a = (b.0 ∙ a.0, b.1 ∙ a.1, b.2 ∙ a.2)

  module _ {F D : Type 0} (parts : Coordinator W F D) (options : Options W)
      {ingestor : RecordIngestor W} {store : CheckpointStore W}
      (h : Serves stored parts options ingestor store)
      (e : parts.record_ingestor ≡ some ingestor) where
    pub Runs-save_and_report :
        (batch_index : ℕ) (c d : Cursor) (s : Run W)
        → At c s
        → Runs (save_and_report parts options (some store) batch_index d) s (λ _ t. At d t)
    unfolding save_and_report save_checkpoint call
    Runs-save_and_report batch_index c d s a =
        let saved = h.saves options.source_kind options.workspace_id d s.world in
        Runs-bind {Q = λ _ t. (stored t.world ≡ d) × (t.checkpoint_blocked ≡ false)}
          record {
            value = saved.value;
            state = record s { world = saved.state };
            result = rw saved.result refl;
            holds = (saved.holds, a.2);
          }
          λ _ t q. Runs-bind {Q = λ _ u. At d u} (Runs-modify _ t (q.0, refl, q.1)) λ _ u q'.
            Runs-weaken _ u (Returns-report_progress stored options _ u h.reports h.embeds.growth)
              λ _ x b. At-SameRun d u x b.0 q'

    Runs-advance :
        (batch_index : ℕ) (c d : Cursor) (s : Run W)
        → At c s
        → Runs (advance parts options (some store) batch_index d) s (λ _ t. At (after c d) t)
    unfolding advance reads
    Runs-advance batch_index c none s a =
        Runs-bind {Q = λ due t. (due ≡ false) × At c t}
          record { value = _; state = s; result = refl; holds = (refl, a) }
          λ due t q. Runs-if_false due _ _ t q.0 (Runs-pure tt t q.1)
    Runs-advance batch_index c (some d) s a =
        Runs-bind {Q = λ due t. (due ≡ not (cursor_eq (some d) c)) × At c t}
          record { value = _; state = s; result = refl; holds = (rw (a.2, a.1) refl, a) }
          λ due t q. elim (Bool-cases (cursor_eq (some d) c)) [
            | inl y ↦
                Runs-if_false due _ _ t (ground arith)
                  (Runs-pure tt t (rw (cursor_eq_lem (some d) c y) q.1))
            | inr n ↦
                Runs-if_true due _ _ t (ground arith)
                  (Runs-save_and_report batch_index c (some d) t q.1)
          ]

    Returns-prepared_from :
        (o : Result Error (List SemanticInput)) (inputs : List SemanticInput) (w : W)
        → o ≡ ok inputs
        → Returns (Same stored) (prepared_from {D = D} o) w Any
    Returns-prepared_from (err x) inputs w q = absurd (ground arith)
    Returns-prepared_from (ok a) inputs w q = Returns-pure h.embeds.growth _ w tt

    Returns-run_batch :
        (records : List Record) (batch_index : ℕ) (c : Cursor) (s : Run W)
        → All (HasKey parts) records
        → Returns
            (SameRun stored)
            (run_batch parts options (some store) none records batch_index c)
            s
            (λ o. o.successful ≡ true)
    unfolding run_batch prepare
    Returns-run_batch records batch_index c s k = Runs-try _ _ s (
        let inputs = inputs_for-HasKey parts records k in
        Returns-bind (SameRun-IsGrowth stored)
          (Returns-call stored {Q = Any} s (Returns-prepared_from _ inputs.0 s.world inputs.1))
          λ batch t _. Returns-run stored parts options h batch records batch_index c t e)

    Runs-settle_batch :
        (batch_index : ℕ) (c d : Cursor) (o : BatchOutcome) (s : Run W)
        → At c s
        → o.successful ≡ true
        → Runs (settle_batch parts options (some store) batch_index d o) s (λ _ t. At (after c d) t)
    unfolding settle_batch
    Runs-settle_batch batch_index c d o s a y =
        Runs-bind {Q = λ _ t. At c t} (Runs-modify _ s a)
          λ _ t q. Runs-if_true o.successful _ _ t y (Runs-advance batch_index c d t q)

    Runs-process_pull :
        (batch_index : ℕ) (records : List Record) (c d : Cursor) (s : Run W)
        → All (HasKey parts) records
        → At c s
        → Runs
            (process_pull parts options (some store) none batch_index records d)
            s
            (λ _ t. At (after c d) t)
    unfolding process_pull reads
    Runs-process_pull batch_index [] c d s k a = Runs-advance batch_index c d s a
    Runs-process_pull batch_index (r ∷ records) c d s k a =
        Runs-bind {Q = λ _ t. At c t} record { value = _; state = s; result = refl; holds = a }
          λ checkpoint t q.
            Runs-bind (Returns-run_batch (r ∷ records) batch_index checkpoint t k)
              λ o u b. Runs-settle_batch batch_index c d o u (At-SameRun c t u b.0 q) b.1

    pub Runs-process_pulls :
        (batch_index : ℕ) (pulls : List Pull) (c : Cursor) (s : Run W)
        → At c s
        → NoneFails pulls
        → All (HasKey parts) (all_records pulls)
        → Runs
            (process_pulls parts options (some store) none batch_index pulls)
            s
            (λ _ t. At (last_cursor pulls c) t)
    unfolding process_pulls
    Runs-process_pulls batch_index [] c s a n k = Runs-pure tt s a
    Runs-process_pulls batch_index (failing x ∷ pulls) c s a n k = absurd n
    Runs-process_pulls batch_index (pulled records d ∷ pulls) c s a n k =
        let k' = All-append_left (HasKey parts) records (all_records pulls) k in
        Runs-bind (Runs-process_pull batch_index records c d s k'.0 a)
          λ _ t q. Runs-process_pulls (batch_index + 1) pulls (after c d) t q n k'.1
