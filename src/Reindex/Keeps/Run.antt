-- ===== src/Reindex/Keeps/Run.antt =====
-- What `run` keeps, and what it returns.
use andnp_searchkernel.Prelude.{ℕ, Bool, Option, none, some}
use andnp_searchkernel.Exec.Triple.{
  Triple, Triple-pure, Triple-raise, Triple-if, Triple-weaken, ◌⨾◌,
}
use andnp_searchkernel.Reindex.Domain.{MigrationState}
use andnp_searchkernel.Reindex.Ports.{Routine}
use andnp_searchkernel.Reindex.Backfill.{ReindexProgress}
use andnp_searchkernel.Reindex.Serving
use andnp_searchkernel.Reindex.Serving.{is_foreign, unfinished}
use andnp_searchkernel.Reindex.Consistent.{IsConsistent, StoresKeep, IsSaved}
use andnp_searchkernel.Reindex.Keeps.Rules.{On, Triple-call}
use andnp_searchkernel.Reindex.Keeps.Backfill.{Triple-expand}
use andnp_searchkernel.Reindex.Keeps.Source.{Triple-backfill}
use andnp_searchkernel.Reindex.Keeps.Validate.{Triple-validate}
use andnp_searchkernel.Reindex.Keeps.Serving.{Triple-flip, Triple-contract}

module _ {W R F : Type 0} (r : Routine W R F) {P : W → Type 0} (h : StoresKeep r P) where
  require_state :
      (o : Option MigrationState)
      → IsSaved o
      → Triple (On P) (Serving.require_state r o) IsConsistent
  unfolding Serving.require_state
  require_state none c = Triple-raise _
  require_state (some s) c = Triple-pure s c

  run_rest : (too : Bool) → Triple (On P) (Serving.run_rest r too) IsConsistent
  unfolding Serving.run_rest
  run_rest too = Triple-validate r h ⨾ λ _ _. Triple-flip r h ⨾ λ _ _.
      Triple-if too _ _ (λ _. Triple-weaken _ (Triple-contract r h none) (λ s q. q.0))
        (λ _. Triple-call _ (h.load r.migration_id) ⨾ λ o c. require_state o c)

  run_after :
      (too : Bool) (o : Option ReindexProgress) → Triple (On P) (Serving.run_after r too o) IsSaved
  unfolding Serving.run_after
  run_after too none = Triple-pure none tt
  run_after too (some p) = run_rest too ⨾ λ s c. Triple-pure (some s) c

  -- Over the same stores a whole run, `expand`, `backfill` over either kind of corpus, `validate`,
  -- `flip` and possibly `contract`, saves consistent states only, on every path and with any fuel. If
  -- it returns a state, that state is consistent.
  pub Triple-run : (fuel : ℕ) (too : Bool) → Triple (On P) (Serving.run r fuel too) IsSaved
  unfolding Serving.run
  Triple-run fuel too = Triple-expand r h ⨾ λ _ _. Triple-backfill r h fuel ⨾ λ o _. run_after too o
