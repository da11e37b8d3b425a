-- ===== src/Reindex/Keeps/Rules.antt =====
-- The rules for what the methods of the routine keep.
use andnp_searchkernel.Prelude.{◌≡◌, refl, some, arith, true}
use andnp_searchkernel.Exec.{Result, ok, err, Exec}
use andnp_searchkernel.Exec.Triple.{
  Triple, Any, Triple-pure, Triple-raise, Triple-reads, Triple-if, Triple-try, Triple-finally,
  Triple-any, Triple-modify, Triple-bind, Triple-weaken,
}
use andnp_searchkernel.Reindex.Domain.{Error, Message, MigrationPhase, MigrationState}
use andnp_searchkernel.Reindex.Ports.{Routine, Session}
use andnp_searchkernel.Reindex.State.{call, lift, save, set_stage, fail}
use andnp_searchkernel.Reindex.Consistent.{IsConsistent, StoresKeep, resumable, resumes_serving}
use andnp_searchkernel.Reindex.Transitions.{is_validated}

-- A condition on the world, as one on the session.
abbrev pub On : {W : Type 0} → (W → Type 0) → Session W → Type 0
On P s = P s.world

pub Triple-call :
    {W A : Type 0} {P : W → Type 0} {Q : A → Type 0} (m : Exec Error W A)
    → Triple P m Q
    → Triple (On P) (call m) Q
unfolding call
Triple-call m h = record { at = λ s p. h.at s.world p }

pub Triple-lift :
    {S A : Type 0} {P : S → Type 0} (r : Result Error A) → Triple P (lift r) (λ a. r ≡ ok a)
unfolding lift
Triple-lift (ok a) = record { at = λ s p. (refl, p) }
Triple-lift (err e) = record { at = λ s p. (tt, p) }

pub ruleset rules =
    (Triple-pure, Triple-raise, Triple-if, Triple-reads, Triple-modify, Triple-bind, Triple-call)

module _ {W R F : Type 0} (r : Routine W R F) {P : W → Type 0} (h : StoresKeep r P) where
  pub Triple-set_stage : (phase : MigrationPhase) → Triple (On P) (set_stage r phase) Any
  unfolding set_stage
  Triple-set_stage phase = Triple-modify _ (λ s p. p)

  pub Triple-save : (s : MigrationState) → IsConsistent s → Triple (On P) (save r s) Any
  unfolding save
  Triple-save s c =
      Triple-bind _ _ (Triple-call _ (h.saves s c)) (λ _ _. Triple-modify _ (λ s p. p))

  fail-IsConsistent :
      (s : MigrationState) (phase : MigrationPhase) (m : Message)
      → IsConsistent s
      → resumable (some phase) ≡ true
      → (resumes_serving (some phase) ≡ true → is_validated s.validation ≡ true)
      → IsConsistent
          (record s { phase = MigrationPhase.failed; error = some m; resume_phase = some phase })
  fail-IsConsistent s phase m c ok_phase served = record {
    distinct = c.distinct;
    fits = c.fits;
    evidenced = λ e. ground arith;
    resumed = served;
    stage = ok_phase;
    backed_up = λ e. ground arith;
    failed_only = λ e. refl;
    resumes = λ e. refl;
  }

  pub Triple-fail :
      (s : MigrationState) (phase : MigrationPhase) (m : Message)
      → IsConsistent s
      → resumable (some phase) ≡ true
      → (resumes_serving (some phase) ≡ true → is_validated s.validation ≡ true)
      → Triple (On P) (fail r s phase m) Any
  unfolding fail
  Triple-fail s phase m c stage served = Triple-save _ (fail-IsConsistent s phase m c stage served)
