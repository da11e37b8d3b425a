-- ===== src/Reindex/Switched.antt =====
-- `flip` of runtime/reindex.py with stores that answer.
use andnp_searchkernel.Prelude.{
  ℕ, ◌+◌, ◌≡◌, refl, sym, ap, ◌∙◌, ◌||◌, Bool, true, false, Bool-cases, inl, inr, Option, none,
  some, if◌then◌else◌, arith,
}
use andnp_searchkernel.Exec.{Exec, reads}
use andnp_searchkernel.Exec.Runs.{
  Runs, Runs-pure, Runs-try, Runs-if_true, Runs-modify, Runs-bind, Runs-weaken,
}
use andnp_searchkernel.Reindex.Domain.{
  Message, Error, ModelNamespace, ns_eq, ns_eq_iff, MigrationPhase, phase_eq, ActiveModelMetadata,
  active_eq, active_eq_self, MigrationState,
}
use andnp_searchkernel.Reindex.Ports.{Routine, Session}
use andnp_searchkernel.Reindex.State.{save, set_stage}
use andnp_searchkernel.Reindex.Backfill.{at_phase}
use andnp_searchkernel.Reindex.Transitions.{
  is_validated, next_generation, require_owner, compare_and_set_with, activate, save_stage,
}
use andnp_searchkernel.Reindex.Serving.{is_foreign, flip_to, flip_active, flip_state}
use andnp_searchkernel.Reindex.Complete.{Runs-call}

-- A compare-and-set that is there swaps where the expected metadata is the active one.
abbrev pub Swaps :
    {W : Type 0}
    → (W → Option ActiveModelMetadata)
    → Option (Option ActiveModelMetadata → ActiveModelMetadata → Exec Error W Bool)
    → Type 0
Swaps active none = Unit
Swaps {W} active (some swap) =
    (expected : Option ActiveModelMetadata) (m : ActiveModelMetadata) (w : W)
    → active w ≡ expected
    → Runs (swap expected m) w (λ b w'. (b ≡ true) × (active w' ≡ some m))

-- Stores that answer: `active` is the model that serves, and `saved` the migration that was saved.
pub record Answering {W R F : Type 0} (r : Routine W R F) (active : W → Option ActiveModelMetadata)
    (saved : W → Option MigrationState) : Type 0 where
  pub saves :
      (s : MigrationState) (w : W)
      → Runs (r.store.save_migration s) w (λ _ w'. (saved w' ≡ some s) × (active w' ≡ active w))
  pub answers :
      (w : W) → Runs r.store.get_active_model w (λ a w'. (a ≡ active w) × (active w' ≡ active w))
  pub sets :
      (m : ActiveModelMetadata) (w : W)
      → Runs (r.store.set_active_model m) w (λ _ w'. active w' ≡ some m)
  pub swaps : Swaps active r.store.compare_and_set_active_model

module _ {W R F : Type 0} (r : Routine W R F) {active : W → Option ActiveModelMetadata}
    {saved : W → Option MigrationState} (h : Answering r active saved) where
  Runs-save :
      (s : MigrationState) (t : Session W)
      → Runs (save r s) t (λ _ u. (saved u.world ≡ some s) × (active u.world ≡ active t.world))
  unfolding save
  Runs-save s t = Runs-bind (Runs-call _ t (h.saves s t.world)) λ _ u e. Runs-modify _ u e

  Runs-save_stage :
      (s : MigrationState) (t : Session W)
      → Runs
          (save_stage r s)
          t
          (λ v u. (v ≡ s) × (saved u.world ≡ some s) × (active u.world ≡ active t.world))
  unfolding save_stage set_stage
  Runs-save_stage s t = Runs-bind (Runs-save s t) λ _ u e.
      Runs-bind {Q = λ _ x. (saved x.world ≡ some s) × (active x.world ≡ active t.world)}
        (Runs-modify _ u e) λ _ x e'. Runs-pure s x (refl, e'.0, e'.1)

  Runs-require_owner :
      (expected : Option ActiveModelMetadata) (m : Message) (t : Session W)
      → active t.world ≡ expected
      → Runs (require_owner r expected m) t (λ _ u. active u.world ≡ expected)
  unfolding require_owner
  Runs-require_owner expected m t o = Runs-bind (Runs-call _ t (h.answers t.world)) λ a u e.
      Runs-if_true (active_eq a expected) _ _ u (rw (e.0, o) (active_eq_self expected))
        (Runs-pure tt u (e.1 ∙ o))

  Runs-compare_and_set :
      (swap : Option (Option ActiveModelMetadata → ActiveModelMetadata → Exec Error W Bool))
      (expected : Option ActiveModelMetadata) (model : ActiveModelMetadata) (m : Message)
      (t : Session W)
      → Swaps active swap
      → active t.world ≡ expected
      → Runs (compare_and_set_with r swap expected model m) t (λ _ u. active u.world ≡ some model)
  unfolding compare_and_set_with
  Runs-compare_and_set (some swap) expected model m t s o =
      Runs-bind (Runs-call _ t (s expected model t.world o))
        λ b u e. Runs-if_true b _ _ u e.0 (Runs-pure tt u e.1)
  Runs-compare_and_set none expected model m t s o =
      Runs-bind (Runs-require_owner expected m t o) λ _ u e. Runs-call _ u (h.sets model u.world)

  Runs-activate :
      (ns : ModelNamespace) (expected : Option ActiveModelMetadata) (m : Message) (t : Session W)
      → active t.world ≡ expected
      → Runs (activate r ns expected m) t (λ a u.
        (active u.world ≡ some a) × (a.model ≡ ns) × (a.generation ≡ next_generation expected))
  unfolding activate reads
  Runs-activate ns expected m t o =
      Runs-bind {Q = λ _ u. active u.world ≡ expected}
        (record { value = r.now t.world; state = t; result = refl; holds = o })
        λ at u e.
          Runs-bind
            (Runs-compare_and_set r.store.compare_and_set_active_model expected _ m u h.swaps e)
            λ _ x e'. Runs-pure _ x (e', refl, refl)

  -- What a flip of the state leaves behind.
  abbrev pub Switched : MigrationState → ℕ → MigrationState → Session W → Type 0
  Switched state generation v u =
      (v ≡ at_phase MigrationPhase.flip state)
      × (saved u.world ≡ some v)
      × ((a : ActiveModelMetadata) × (active u.world ≡ some a)
          × (a.model ≡ state.target)
          × (a.generation ≡ generation))

  Runs-flip_to :
      (state : MigrationState) (expected : Option ActiveModelMetadata) (t : Session W)
      → active t.world ≡ expected
      → Runs (flip_to r state expected) t (Switched state (next_generation expected))
  unfolding flip_to
  Runs-flip_to state expected t o =
      Runs-bind (Runs-save (at_phase MigrationPhase.flip state) t) λ _ u e.
        Runs-bind (Runs-try _ _ u (Runs-activate state.target expected _ u (e.1 ∙ o))) λ a x e'.
          Runs-weaken _ x (Runs-save_stage (at_phase MigrationPhase.flip state) x)
            λ v y q. (q.0, q.1 ∙ ap some (sym q.0), (a, q.2 ∙ e'.0, e'.1, e'.2))

  -- The generation behind a flip: a model that serves already keeps its own.
  abbrev pub flipped_generation : Option ActiveModelMetadata → ModelNamespace → ℕ
  flipped_generation none target = 1
  flipped_generation (some a) target =
      if ns_eq a.model target then a.generation else a.generation + 1

  Runs-flip_active :
      (state : MigrationState) (o : Option ActiveModelMetadata) (t : Session W)
      → active t.world ≡ o
      → is_foreign o state ≡ false
      → Runs (flip_active r state o) t (Switched state (flipped_generation o state.target))
  unfolding flip_active
  Runs-flip_active state none t e f = Runs-flip_to state none t e
  Runs-flip_active state (some a) t e f = elim (Bool-cases (ns_eq a.model state.target)) [
    | inl same ↦ rw same (
        Runs-weaken _ t (Runs-save_stage (at_phase MigrationPhase.flip state) t) λ v u q. (
          q.0,
          q.1 ∙ ap some (sym q.0),
          (a, q.2 ∙ e, (ns_eq_iff a.model state.target).0 same, refl),
        ))
    | inr new ↦ rw new (
        Runs-if_true (ns_eq a.model state.source) _ _ t (ground arith)
          (Runs-flip_to state (some a) t e))
  ]

  -- With stores that answer: if the state is validated, in VALIDATE or in FLIP, and no model but the
  -- migration's source or target is active, its flip returns. The state is then saved in FLIP, and the
  -- target is active, in the next generation, or in the one it has if it was active before.
  pub Runs-flip_state :
      (state : MigrationState) (t : Session W)
      → is_validated state.validation ≡ true
      → (phase_eq state.phase MigrationPhase.validate || phase_eq state.phase MigrationPhase.flip)
        ≡ true
      → is_foreign (active t.world) state ≡ false
      → Runs
          (flip_state r state)
          t
          (Switched state (flipped_generation (active t.world) state.target))
  unfolding flip_state
  Runs-flip_state state t v p f = Runs-if_true (is_validated state.validation) _ _ t v (
      Runs-if_true
        (phase_eq state.phase MigrationPhase.validate || phase_eq state.phase MigrationPhase.flip) _
        _ t p
        (Runs-bind (Runs-call _ t (h.answers t.world))
          λ a u q. rw (← q.0) (Runs-flip_active state a u (q.1 ∙ sym q.0) (rw q.0 f))))
