-- ===== src/Tests/Switched.antt =====
-- A flip over the in-memory store.
use andnp_searchkernel.Prelude.{◌≡◌, refl, true, Option, none, some, []}
use andnp_searchkernel.Exec.{pure, reads, modify}
use andnp_searchkernel.Exec.Runs.{Runs}
use andnp_searchkernel.Reindex.Domain.{
  passed, ns_eq, active_eq_self, MigrationPhase, ActiveModelMetadata, MigrationState,
}
use andnp_searchkernel.Reindex.Ports.{Session}
use andnp_searchkernel.Reindex.Serving.{flip_state}
use andnp_searchkernel.Reindex.Switched.{Answering, Switched, Runs-flip_state}
use andnp_searchkernel.Tests.Routine.{
  Memory, swap, swap_if, routine, old_model, new_model, evidence, started,
}

swap-Swaps :
    (expected : Option ActiveModelMetadata) (m : ActiveModelMetadata) (w : Memory)
    → w.active ≡ expected
    → Runs (swap expected m) w (λ b w'. (b ≡ true) × (w'.active ≡ some m))
unfolding swap swap_if
swap-Swaps expected m w e = record {
  value = true;
  state = record w { active = some m };
  result = rw (e, active_eq_self expected);
  holds = (refl, refl);
}

memory-Answering : Answering routine (λ w. w.active) (λ w. w.saved)
unfolding pure modify reads
memory-Answering = record {
  saves = λ s w. record { value = tt; state = _; result = refl; holds = (refl, refl) };
  answers = λ w. record { value = w.active; state = w; result = refl; holds = (refl, refl) };
  sets = λ m w. record { value = tt; state = _; result = refl; holds = refl };
  swaps = swap-Swaps;
}

abbrev old_serves : Session Memory
old_serves = record {
  world = record {
    saved = none;
    active = some record { model = old_model; generation = 4; activated_at = none };
    stored = [];
  };
  current_stage = MigrationPhase.validate;
}

abbrev proven : MigrationState
proven = record started {
  phase = MigrationPhase.validate;
  validation = some (evidence new_model 3);
}

Runs-flip_state_example :
    Runs (flip_state routine proven) old_serves (Switched routine memory-Answering proven 5)
unfolding passed ns_eq
Runs-flip_state_example = Runs-flip_state routine memory-Answering proven old_serves refl refl refl
