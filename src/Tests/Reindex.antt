-- ===== src/Tests/Reindex.antt =====
-- The migration over an in-memory store: three numbered records, a provider of dimension 2.
use andnp_searchkernel.Exec
use andnp_searchkernel.Reindex.Backfill
use andnp_searchkernel.Reindex.Domain
use andnp_searchkernel.Reindex.Serving
use andnp_searchkernel.Reindex.Source
use andnp_searchkernel.Reindex.State
use andnp_searchkernel.Reindex.Transitions
use andnp_searchkernel.Prelude.{
  ℕ, ◌+◌, ◌≡◌, refl, ◌⊎◌, ◌-◌, Bool, true, false, Option, none, some, String, List, [], ◌∷◌, ◌++◌,
  length, drop, All, suc, arith, ap,
}
use andnp_searchkernel.Exec.{Result, ok, err, Exec, pure, reads, modify, raise, ◌>>=◌, ◌>>◌}
use andnp_searchkernel.Exec.Triple.{Triple, Any, Returned}
use andnp_searchkernel.Exec.Runs.{Runs}
use andnp_searchkernel.Reindex.Domain.{
  Message, Error, ModelNamespace, MigrationPhase, phase_eq, ActiveModelMetadata, active_eq,
  ValidationResult, passed, BackupMetadata, RollbackMetadata, MigrationState, is_blank, is_space,
  make_namespace, ns_eq, make_state,
}
use andnp_searchkernel.Reindex.Ports.{Session}
use andnp_searchkernel.Reindex.State.{target_namespace}
use andnp_searchkernel.Reindex.Backfill.{ReindexProgress, backfill_sequence, expand, expand_state}
use andnp_searchkernel.Reindex.Source.{backfill}
use andnp_searchkernel.Reindex.Transitions.{validate, effective_phase}
use andnp_searchkernel.Reindex.Serving.{
  flip, contract, rollback, rollback_state, retry, retry_state, run,
}
use andnp_searchkernel.Reindex.Consistent.{IsConsistent, IsSaved, StoresKeep, resumable}
use andnp_searchkernel.Reindex.Keeps.Rules.{On}
use andnp_searchkernel.Reindex.Keeps.Validate.{IsProven}
use andnp_searchkernel.Reindex.Keeps.Serving.{IsIn}
use andnp_searchkernel.Reindex.Keeps.Validate
use andnp_searchkernel.Reindex.Keeps.Serving as Kept
use andnp_searchkernel.Reindex.Keeps.Rollback
use andnp_searchkernel.Reindex.Keeps.Retry
use andnp_searchkernel.Reindex.Keeps.Run
use andnp_searchkernel.Reindex.Complete
use andnp_searchkernel.Reindex.Complete.{Answers}
use andnp_searchkernel.Reindex.Resumed
use andnp_searchkernel.Tests.Routine.{
  Memory, swap_if, swap, embed_all, routine, blank, IsSound, started, progress,
}

program : Unit {0}
unfolding Exec.pure Exec.raise Exec.reads Exec.handle Exec.try_catch Exec.finally Exec.unless_raised
    Exec.modify Exec.carry_on Exec.◌>>=◌ Domain.is_space Domain.is_blank Domain.make_namespace
    Domain.ns_eq Domain.active_eq Domain.passed Domain.make_state State.call State.lift
    State.check_namespace_dimensions State.reject_failed State.check_old_model_name
    State.checked_total State.check_total State.require_cursor State.save State.set_stage State.fail
    State.target_namespace State.source_total State.corpus_total State.known_or State.total_records
    State.identities State.sequence_fingerprint State.corpus_fingerprint State.check_corpus
    State.check_fingerprint State.check_source State.accept_saved State.require_active
    State.source_for_new State.create_state State.resume_or_create State.load_or_create_state
    Backfill.progress_complete Backfill.terminal_total Backfill.batch_total_records
    Backfill.expand_failed Backfill.expand_init Backfill.expand_state Backfill.expand
    Backfill.target_records Backfill.semantic_texts Backfill.embed_and_upsert Backfill.batch_handler
    Backfill.fail_batch Backfill.check_batch_total Backfill.backfill_batch Backfill.sequence_loop
    Backfill.backfill_sequence Source.fetch Source.or_source_total Source.page_total
    Source.empty_page Source.check_page Source.source_loop Source.decode_cursor Source.source_cursor
    Source.backfill_corpus Source.start_backfill Source.backfill Transitions.acquire_lock
    Transitions.with_lock Transitions.fail_with Transitions.require_owner
    Transitions.compare_and_set_with Transitions.activate Transitions.validate_failed
    Transitions.checked_evidence Transitions.validate_records Transitions.validate_total
    Transitions.run_validation Transitions.validate_state Transitions.validate
    Transitions.save_stage Serving.flip_to Serving.flip_active Serving.flip_state Serving.flip
    Serving.back_up Serving.contract_from Serving.contract_active Serving.contract_state
    Serving.contract Serving.restore Serving.reactivate Serving.roll_back Serving.rollback_state
    Serving.rollback Serving.retry_phase Serving.retry_state Serving.retry Serving.require_state
    Serving.run_rest Serving.run_after Serving.run
program = tt

swap_if-Keeps :
    (same : Bool) (a : ActiveModelMetadata) (w : Memory)
    → IsSound w
    → Returned (Any {A = Bool}) (swap_if same a w).0 × IsSound (swap_if same a w).1
unfolding swap_if
swap_if-Keeps true a w p = (tt, p)
swap_if-Keeps false a w p = (tt, p)

swap-Keeps :
    (expected : Option ActiveModelMetadata) (a : ActiveModelMetadata)
    → Triple IsSound (swap expected a) Any
unfolding swap
swap-Keeps expected a = record { at = λ w p. swap_if-Keeps (active_eq w.active expected) a w p }

memory-StoresKeep : StoresKeep routine IsSound
unfolding pure reads modify
memory-StoresKeep = record {
  ensure = λ ns. record { at = λ w p. (tt, p) };
  delete = λ ns. record { at = λ w p. (tt, p) };
  validates = λ ns n. record { at = λ w p. (tt, p) };
  active = record { at = λ w p. (tt, p) };
  set = λ a. record { at = λ w p. (tt, p) };
  swap = swap-Keeps;
  backs_up = λ ns. record { at = λ w p. (tt, p) };
  restores = λ b. record { at = λ w p. (tt, p) };
  lock = record {
    at = λ w p. ((record { at = λ v q. (tt, q) }, record { at = λ v q. (tt, q) }), p);
  };
  load = λ id. record { at = λ w p. (p, p) };
  saves = λ s c. record { at = λ w p. (tt, c) };
  embeds = λ texts. record { at = λ w p. (tt, p) };
  upserts = λ ts name dim. record { at = λ w p. (tt, p) };
  pages = tt;
}

length-embed_all : (ts : List String) → length (embed_all ts) ≡ length ts
length-embed_all [] = refl
length-embed_all (t ∷ ts) = ap suc (length-embed_all ts)

dims : (ts : List String) → All (λ (e : List ℕ). length e ≡ 2) (embed_all ts)
dims [] = tt
dims (t ∷ ts) = (refl, dims ts)

memory-Answers : Answers routine (λ w. w.stored)
unfolding pure modify
memory-Answers = record {
  positive = omega arith;
  saves = λ s w. record { value = tt; state = _; result = refl; holds = refl };
  embeds = λ texts w. record {
    value = embed_all texts;
    state = w;
    result = refl;
    holds = (length-embed_all texts, dims texts, refl);
  };
  upserts = λ ts name dim w. record { value = tt; state = _; result = refl; holds = refl };
}

Runs-backfill_sequence_example :
    Runs (backfill_sequence routine (1 ∷ 2 ∷ 3 ∷ []) started progress) blank (λ q u.
      (q.checkpoint ≡ 3)
      × (q.records_processed ≡ 0 + (3 - 1))
      × (u.world.stored ≡ [] ++ drop 1 (1 ∷ 2 ∷ 3 ∷ [])))
Runs-backfill_sequence_example =
    Complete.Runs-backfill_sequence routine memory-Answers (1 ∷ 2 ∷ 3 ∷ []) started progress blank
      ((_, refl), ((_, refl), ((_, refl), tt))) (omega arith) refl

Triple-flip_example : Triple (On IsSound) (flip routine) (IsIn MigrationPhase.flip)
Triple-flip_example = Kept.Triple-flip routine memory-StoresKeep

Triple-validate_example : Triple (On IsSound) (validate routine) (IsProven routine)
Triple-validate_example = Validate.Triple-validate routine memory-StoresKeep

Triple-contract_example :
    Triple (On IsSound) (contract routine (some "old")) (IsIn MigrationPhase.complete)
Triple-contract_example = Kept.Triple-contract routine memory-StoresKeep (some "old")

Triple-rollback_example : Triple (On IsSound) (rollback routine none) (λ t.
    IsConsistent t
    × ((t.phase ≡ MigrationPhase.rollback) ⊎ (effective_phase t ≡ MigrationPhase.init)))
Triple-rollback_example = Rollback.Triple-rollback routine memory-StoresKeep none

Triple-retry_example :
    Triple (On IsSound) (retry routine) (λ t. IsConsistent t × (resumable (some t.phase) ≡ true))
Triple-retry_example = Retry.Triple-retry routine memory-StoresKeep

Triple-run_example : Triple (On IsSound) (run routine 5 true) IsSaved
Triple-run_example = Run.Triple-run routine memory-StoresKeep 5 true

abbrev failed_at : MigrationPhase → MigrationState
failed_at phase = record started { phase = MigrationPhase.failed; resume_phase = some phase }

rollback_state-restoring_example :
    rollback_state
      (Resumed.restoring routine (λ b. raise (Error.other (Message.text "disk full"))))
      (failed_at MigrationPhase.rollback)
    ≡ rollback_state routine (failed_at MigrationPhase.rollback)
rollback_state-restoring_example =
    Resumed.rollback_state-restoring routine (failed_at MigrationPhase.rollback)
      (λ b. raise (Error.other (Message.text "disk full"))) refl

expand_state-retry_state_example :
    (retry_state
          (Resumed.ensuring routine (λ ns. raise (Error.other (Message.text "full"))))
          (failed_at MigrationPhase.expand)
        >>= expand_state
            (Resumed.ensuring routine (λ ns. raise (Error.other (Message.text "full")))))
      blank
    ≡ (retry_state routine (failed_at MigrationPhase.expand) >>= expand_state routine) blank
expand_state-retry_state_example =
    Resumed.expand_state-retry_state routine (failed_at MigrationPhase.expand) blank
      (λ ns. raise (Error.other (Message.text "full"))) refl refl

abbrev outcome : Result Error (Option MigrationState) × Session Memory → Option MigrationPhase
outcome (ok none, t) = none
outcome (ok (some s), t) = some s.phase
outcome (err e, t) = none

abbrev stored_by : Result Error (Option MigrationState) × Session Memory → List ℕ
stored_by (x, t) = t.world.stored

-- From nothing saved, a whole run completes, and each record is upserted once.
run_completes :
    (outcome (run routine 5 true blank) ≡ some MigrationPhase.complete)
    × (stored_by (run routine 5 true blank) ≡ 1 ∷ 2 ∷ 3 ∷ [])
unfolding program swap swap_if
run_completes = (refl, refl)
