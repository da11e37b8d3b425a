-- ===== src/Indexing/Covered.antt =====
-- `run_batches` of indexing/coordinator.py, and the cursor that it leaves in the checkpoint store.
use andnp_searchkernel.Prelude.{
  ℕ, ◌+◌, ◌≡◌, refl, ◌∙◌, String, str_eq, Option, List, [], ◌∷◌, ◌⊎◌, inl, inr,
}
use andnp_searchkernel.Exec.{pure, raise, reads, ◌>>◌}
use andnp_searchkernel.Exec.Grows.{Grows, Anything, Grows-into, Grows-then}
use andnp_searchkernel.Indexing.Receipts.{Cursor}
use andnp_searchkernel.Indexing.Placement.{Grows-call}
use andnp_searchkernel.Indexing.Parts.{
  PreparedIndexBatch, CheckpointStore, Coordinator, Options, Run,
}
use andnp_searchkernel.Indexing.Sources.{Yield, yielded, alien, broken}
use andnp_searchkernel.Indexing.Coordinator.{within, receipt, first_of, begun}
use andnp_searchkernel.Indexing.Prepared.{CheckpointForBatch, process_batches, run_batches}
use andnp_searchkernel.Indexing.Moves.{Ends, Ends-here, Ends-after, Ends-joined}
use andnp_searchkernel.Indexing.Saves.{Stores, Grows-load, either_way}
use andnp_searchkernel.Indexing.Calm.{Collaborates}
use andnp_searchkernel.Indexing.Reached.{
  Proposes, Proposed, AllInputs, AllInputs-Lasting, Reached, Grows-process_batch,
}

module _ {W F : Type 0} (Good : String → List F → W → Type 0) (stored : W → Cursor) {D : Type 0}
    (parts : Coordinator W F D) (o : Option (CheckpointForBatch W D)) where
  module _ (options : Options W) (store : Option (CheckpointStore W))
      (h : Collaborates Good stored parts options) (hs : Stores Good stored store)
      (hf : Proposes Good stored parts o) where
    abbrev ReachedAt : List (Yield (PreparedIndexBatch D)) → W → Type 0
    ReachedAt batches w = Reached Good stored parts o batches (stored w) w

    Grows-process_batches :
        (max_records max_chunks : Option ℕ) (batch_index : ℕ)
        (batches : List (Yield (PreparedIndexBatch D))) (s : Run W)
        → Grows
            (Ends Good stored (ReachedAt batches))
            (process_batches parts options store o max_records max_chunks batch_index batches)
            s
            Anything
    unfolding process_batches pure raise
    Grows-process_batches max_records max_chunks batch_index [] s = record {
      before = Ends-here Good stored (ReachedAt []) s;
      returned = tt;
    }
    Grows-process_batches max_records max_chunks batch_index (alien ∷ batches) s = record {
      before = Ends-here Good stored (ReachedAt (alien ∷ batches)) s;
      returned = tt;
    }
    Grows-process_batches max_records max_chunks batch_index (broken e ∷ batches) s = record {
      before = Ends-here Good stored (ReachedAt (broken e ∷ batches)) s;
      returned = tt;
    }
    Grows-process_batches max_records max_chunks batch_index (yielded batch ∷ batches) s =
        let P = AllInputs Good stored parts batch in
        let C = Proposed Good stored parts o batch in
        Grows-then
          (Grows-process_batch Good stored parts options store h hs o hf batch_index batch
            max_records max_chunks s)
          (λ t b. Ends-after Good stored P C (ReachedAt batches) s t b)
          λ _ t b q.
            Grows-into (Grows-process_batches max_records max_chunks (batch_index + 1) batches t)
              λ u e.
                Ends-joined Good stored P C (ReachedAt batches)
                  (AllInputs-Lasting Good stored parts batch) s t u b q e

module _ {W F : Type 0} (Good : String → List F → W → Type 0) (stored : W → Cursor) {D : Type 0}
    (parts : Coordinator W F D) (o : Option (CheckpointForBatch W D))
    (batches : List (Yield (PreparedIndexBatch D))) where
  -- The cursor that is stored in the end: the one of before, or the one that the caller's function gave for
  -- a batch, with the semantic inputs of the batches up to it in place.
  abbrev pub IsCovered : W → W → Type 0
  IsCovered w w' = (stored w' ≡ stored w) ⊎ Reached Good stored parts o batches (stored w') w'

  IsCovered-later : (w t u : W) → stored t ≡ stored w → IsCovered t u → IsCovered w u
  IsCovered-later w t u q (inl e) = inl (e ∙ q)
  IsCovered-later w t u q (inr r) = inr r

  module _ (options : Options W) (store : Option (CheckpointStore W))
      (h : Collaborates Good stored parts options) (hs : Stores Good stored store)
      (hf : Proposes Good stored parts o) where
    Grows-the_batches :
        (max_records max_chunks : Option ℕ) (s : Run W)
        → Grows
            (λ s t. IsCovered s.world t.world)
            (do
              process_batches parts options store o max_records max_chunks 0 batches
              reads (receipt options store))
            s
            Anything
    unfolding reads
    Grows-the_batches max_records max_chunks s =
        Grows-then
          (Grows-process_batches Good stored parts o options store h hs hf max_records max_chunks 0
            batches s)
          (λ t e. e.cursor) λ _ t e _. record { before = e.cursor; returned = tt }

  -- Whatever stores, ingestor, stages, planner and callbacks do, so long as they touch neither the stored
  -- cursor nor the vectors in place: after `run_batches`, whether it returned or raised, in both failure
  -- modes and at any limits, the store has the cursor of before, or the one that the caller's function
  -- gives for one of the batches, and every semantic input of the batches up to that one has a sound
  -- vector in place.
  pub run_batches-IsCovered :
      (options : Options W) (since : Cursor) (checkpoint_store : Option (CheckpointStore W))
      (max_records max_chunks : Option ℕ) (w : W)
      → Collaborates Good stored parts options
      → Stores Good stored (first_of checkpoint_store parts.checkpoint_store)
      → Proposes Good stored parts o
      → IsCovered w
          (run_batches parts options batches since o checkpoint_store max_records max_chunks w).1
  unfolding run_batches within raise
  run_batches-IsCovered options since checkpoint_store max_records max_chunks w h hs hf =
      let store = first_of checkpoint_store parts.checkpoint_store in
      either_way (IsCovered w) (str_eq options.source_kind "") _ _ w (inl refl)
        (Grows-then {B = IsCovered} (Grows-load Good stored options store since w hs)
          (λ t b. inl b.1)
          λ checkpoint t b _. Grows-call _ t (
            IsCovered-later w t _ b.1
              (Grows-the_batches options store h hs hf max_records max_chunks
                (begun checkpoint t)).before)).before
