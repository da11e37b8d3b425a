-- ===== src/Indexing/Resumable.antt =====
-- The loop of `run_source` of indexing/coordinator.py, and the cursor that it leaves behind.
use andnp_searchkernel.Prelude.{
  ℕ, ◌+◌, ◌≡◌, refl, ◌∙◌, false, not, ◌&&◌, ltb, Option, none, some, is_some, List, [], ◌∷◌, ◌⊎◌,
  inl, inr, String,
}
use andnp_searchkernel.Exec.{Result, ok, err, Exec, pure, raise, reads, ◌>>=◌, ◌>>◌}
use andnp_searchkernel.Exec.Grows.{
  Grows, ReturnedAt, Anything, Grows-pure, Grows-raise, Grows-bind, Grows-into, Grows-then,
}
use andnp_searchkernel.Indexing.Receipts.{Cursor, Record, Error}
use andnp_searchkernel.Indexing.Placement.{Grows-call}
use andnp_searchkernel.Indexing.Parts.{
  CheckpointStore, Coordinator, Options, Run, CoordinatorReceipt, call,
}
use andnp_searchkernel.Indexing.Sources.{
  Source, SourceBatch, Yield, Pull, pulled, failing, iter_source_batches, batches_opened,
  records_opened, open_with,
}
use andnp_searchkernel.Indexing.Coordinator.{
  process_pulls, load_checkpoint, within, receipt, run_source, of_source, begun, first_of,
}
use andnp_searchkernel.Indexing.Moves.{Ends, Ends-here, Ends-after, Ends-joined}
use andnp_searchkernel.Indexing.Started.{Resumes, load_checkpoint-Resumes}
use andnp_searchkernel.Indexing.Saves.{Stores, Grows-load, either_way}
use andnp_searchkernel.Indexing.Behind.{Behind}
use andnp_searchkernel.Indexing.Safe.{AllPlaced, AllPlaced-Lasting, Is, Grows-process_pull}
use andnp_searchkernel.Indexing.Calm.{Steady, Steady-IsGrowth, Grows-world, Collaborates}

module _ {W F : Type 0} (Good : String → List F → W → Type 0) (stored : W → Cursor) where
  abbrev pub OpensBatches :
      Option (Cursor → Exec Error W (Option (List (Yield SourceBatch)))) → Type 0
  OpensBatches none = Unit
  OpensBatches (some iter_batches) =
      (c : Cursor) (w : W) → Steady Good stored w (iter_batches c w).1

  -- What opening a source's stream keeps.
  abbrev pub Opens : Source W → Type 0
  Opens source =
      OpensBatches source.iter_batches
      × ((c : Cursor) (w : W) → Steady Good stored w (source.iter_records c w).1)

  module _ {D : Type 0} (parts : Coordinator W F D) (options : Options W)
      (store : Option (CheckpointStore W)) (h : Collaborates Good stored parts options)
      (hs : Stores Good stored store) where
    abbrev BehindAt : List Pull → W → Type 0
    BehindAt pulls w = Behind parts Good stored pulls (stored w) w

    Grows-process_pulls :
        (batch_index : ℕ) (pulls : List Pull) (s : Run W)
        → Grows
            (Ends Good stored (BehindAt pulls))
            (process_pulls parts options store none batch_index pulls)
            s
            Anything
    unfolding process_pulls pure raise
    Grows-process_pulls batch_index [] s = record {
      before = Ends-here Good stored (BehindAt []) s;
      returned = tt;
    }
    Grows-process_pulls batch_index (failing e ∷ pulls) s = record {
      before = Ends-here Good stored (BehindAt (failing e ∷ pulls)) s;
      returned = tt;
    }
    Grows-process_pulls batch_index (pulled rs c ∷ pulls) s =
        let P = AllPlaced Good stored parts options store h hs rs in
        let C = Is Good stored parts options store h hs c in
        let lasting = AllPlaced-Lasting Good stored parts options store h hs rs in
        Grows-then (Grows-process_pull Good stored parts options store h hs batch_index rs c s)
          (λ t b. Ends-after Good stored P C (BehindAt pulls) s t b)
          λ _ t b q.
            Grows-into (Grows-process_pulls (batch_index + 1) pulls t)
              λ u e. Ends-joined Good stored P C (BehindAt pulls) lasting s t u b q e

  module _ {D : Type 0} (parts : Coordinator W F D) (options : Options W) (source : Source W)
      (batch_size : ℕ) where
    -- The stored cursor is the one of before, or it is the terminal cursor of what the source is cut into
    -- from this cursor and this world on, with the records up to it placed.
    abbrev Beyond : Cursor → W → W → W → Type 0
    Beyond checkpoint start w w' =
        (stored w' ≡ stored w)
        ⊎ ((pulls : List Pull) × ((iter_source_batches source batch_size checkpoint start).0
              ≡ ok pulls)
            × Behind parts Good stored pulls (stored w') w')

    -- The cursor that is stored in the end, against the one that was stored before: it is that one, or it
    -- is the terminal cursor of what the source is cut into from where this very run resumes on, with the
    -- records up to it placed.
    abbrev pub IsResumable : Cursor → Option (CheckpointStore W) → W → W → Type 0
    IsResumable since store w w' =
        (stored w' ≡ stored w)
        ⊎ ((checkpoint : Cursor) × (start : W) × Resumes source.source_kind options.workspace_id
              since store w checkpoint start
            × ((pulls : List Pull) × ((iter_source_batches source batch_size checkpoint start).0
                  ≡ ok pulls)
                × Behind parts Good stored pulls (stored w') w'))

    returned_by :
        {A : Type 0} (m : Exec Error W A) (start t : W) (r : Result Error A)
        → (m start).0 ≡ r
        → ReturnedAt (λ a _. (m start).0 ≡ ok a) r t
    returned_by m start t (ok a) e = e
    returned_by m start t (err x) e = tt

    Grows-batches_opened :
        (o : Option (List (Yield SourceBatch))) (w : W)
        → Grows (Steady Good stored) (batches_opened source batch_size o) w Anything
    Grows-batches_opened none w = Grows-raise (Steady-IsGrowth Good stored) _ w
    Grows-batches_opened (some stream) w = Grows-pure (Steady-IsGrowth Good stored) _ w tt

    Grows-records_opened :
        (o : Option (List (Yield Record))) (w : W)
        → Grows (Steady Good stored) (records_opened source batch_size o) w Anything
    Grows-records_opened none w = Grows-raise (Steady-IsGrowth Good stored) _ w
    Grows-records_opened (some stream) w = Grows-pure (Steady-IsGrowth Good stored) _ w tt

    Grows-open_with :
        (o : Option (Cursor → Exec Error W (Option (List (Yield SourceBatch))))) (since : Cursor)
        (w : W)
        → OpensBatches o
        → Opens source
        → Grows (Steady Good stored) (open_with source batch_size o since) w Anything
    Grows-open_with none since w k ho =
        Grows-bind (Steady-IsGrowth Good stored) (Grows-call _ w (ho.1 since w))
          λ stream t _ _. Grows-records_opened stream t
    Grows-open_with (some iter_batches) since w k ho =
        Grows-bind (Steady-IsGrowth Good stored) (Grows-call _ w (k since w))
          λ stream t _ _. Grows-batches_opened stream t

    Grows-open :
        (since : Cursor) (w : W)
        → Opens source
        → Grows
            (Steady Good stored)
            (iter_source_batches source batch_size since)
            w
            (λ pulls _. (iter_source_batches source batch_size since w).0 ≡ ok pulls)
    unfolding iter_source_batches
    Grows-open since w ho = record {
      before = (Grows-open_with source.iter_batches since w ho.0 ho).before;
      returned = returned_by (iter_source_batches source batch_size since) w _ _ refl;
    }

    module _ (store : Option (CheckpointStore W)) (h : Collaborates Good stored parts options)
        (hs : Stores Good stored store) (ho : Opens source) where
      abbrev the_run : Cursor → Exec Error (Run W) CoordinatorReceipt
      the_run checkpoint = do
        pulls ← call (iter_source_batches source batch_size checkpoint)
        process_pulls parts (of_source source options) store none 0 pulls
        reads (receipt (of_source source options) store)

      ended :
          (w t u : W) (pulls : List Pull) (checkpoint : Cursor)
          → stored t ≡ stored w
          → (iter_source_batches source batch_size checkpoint w).0 ≡ ok pulls
          → (stored u ≡ stored t) ⊎ Behind parts Good stored pulls (stored u) u
          → Beyond checkpoint w w u
      ended w t u pulls checkpoint q e (inl q') = inl (q' ∙ q)
      ended w t u pulls checkpoint q e (inr b) = inr (pulls, e, b)

      Grows-the_run :
          (checkpoint : Cursor) (s : Run W)
          → Grows (λ s t. Beyond checkpoint s.world s.world t.world) (the_run checkpoint) s Anything
      unfolding reads
      Grows-the_run checkpoint s =
          Grows-then (Grows-world Good stored (Grows-open checkpoint s.world ho))
            (λ t b. inl b.steady.1)
            λ pulls t b e.
              Grows-then
                (Grows-process_pulls parts (of_source source options) store
                  record {
                    embeds = h.embeds;
                    ingests = h.ingests;
                    staging = h.staging;
                    reports = h.reports;
                  }
                  hs 0 pulls t)
                (λ u q. ended s.world t.world u.world pulls checkpoint b.steady.1 e q.cursor)
                λ _ u q _. record {
                  before = ended s.world t.world u.world pulls checkpoint b.steady.1 e q.cursor;
                  returned = tt;
                }

    from_later :
        (since : Cursor) (store : Option (CheckpointStore W)) (w t u : W) (checkpoint : Cursor)
        → stored t ≡ stored w
        → Resumes source.source_kind options.workspace_id since store w checkpoint t
        → Beyond checkpoint t t u
        → IsResumable since store w u
    from_later since store w t u checkpoint e p (inl q) = inl (q ∙ e)
    from_later since store w t u checkpoint e p (inr b) = inr (checkpoint, t, p, b)

    Grows-resume :
        (store : Option (CheckpointStore W)) (since : Cursor) (w : W)
        → Stores Good stored store
        → Grows
            (Steady Good stored)
            (load_checkpoint store (of_source source options) since)
            w
            (Resumes source.source_kind options.workspace_id since store w)
    Grows-resume store since w hs = record {
      before = (Grows-load Good stored (of_source source options) store since w hs).before;
      returned = load_checkpoint-Resumes (of_source source options) store since w;
    }

    -- Without a preparer, and whatever source, ingestor, stages, planner and callbacks do, so long as they
    -- touch neither the stored cursor nor the vectors in place, and with a checkpoint store that moves the
    -- cursor only when it is given one to save, to that one: after `run_source`, whether it returned or
    -- raised, in both failure modes, the store has the cursor of before, or the terminal cursor
    -- of one of the batches that the source is cut into from the cursor at which this run resumes, and
    -- every record up to the end of that batch has a sound vector in place under its storage key. The run
    -- resumes at the cursor that is given, at what the store's load answers if none is given, and at none
    -- without a store.
    pub run_source-IsResumable :
        (since : Cursor) (checkpoint_store : Option (CheckpointStore W)) (w : W)
        → Collaborates Good stored parts options
        → Stores Good stored (first_of checkpoint_store parts.checkpoint_store)
        → Opens source
        → IsResumable since
            (first_of checkpoint_store parts.checkpoint_store)
            w
            (run_source parts options source none since batch_size checkpoint_store w).1
    unfolding run_source within pure raise
    run_source-IsResumable since checkpoint_store w h hs ho =
        let store = first_of checkpoint_store parts.checkpoint_store in
        either_way (IsResumable since store w) (ltb batch_size 1) _ _ w (inl refl) (
          either_way (IsResumable since store w) (not (is_some parts.record_ingestor) && not false)
            _ _ w (inl refl)
            (Grows-then {B = IsResumable since store} (Grows-resume store since w hs)
              (λ t b. inl b.1)
              λ checkpoint t b p. Grows-call _ t (
                from_later since store w t _ checkpoint b.1 p
                  (Grows-the_run store h hs ho checkpoint (begun checkpoint t)).before)).before)
