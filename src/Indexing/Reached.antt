-- ===== src/Indexing/Reached.antt =====
-- One batch of `run_batches` of indexing/coordinator.py, and the cursor that it leaves behind.
use andnp_searchkernel.Prelude.{
  ℕ, ◌≡◌, refl, sym, ◌∙◌, Bool, true, false, String, Option, none, some, List, [], ◌∷◌, map, length,
  ◌⊎◌, All,
}
use mathlib.Core.Bool.{true≢false}
use andnp_searchkernel.Exec.{Result, ok, err, Exec, reads, carry_on, ◌>>=◌}
use andnp_searchkernel.Exec.Grows.{
  Grows, IsGrowth, ReturnedAt, Anything, Grows-pure, Grows-raise, Grows-if, Grows-reads,
  Grows-weaken, Grows-try, Grows-bind,
}
use andnp_searchkernel.Indexing.Receipts.{Cursor, Record, Exception, exception, ingestion, Error}
use andnp_searchkernel.Indexing.Placement.{Placed, All-map}
use andnp_searchkernel.Indexing.Parts.{
  PreparedIndexBatch, CheckpointStore, Coordinator, BatchOutcome, Options, Run, cursor_eq, call,
  unfinished,
}
use andnp_searchkernel.Indexing.Sources.{Yield, yielded, alien, broken}
use andnp_searchkernel.Indexing.Coordinator.{with_outcome, batch_failed}
use andnp_searchkernel.Indexing.Prepared.{
  CheckpointForBatch, awaited, exceeds, check_bounds, batch_refused, run_prepared, save_if_new,
  propose, settle_prepared, process_batch,
}
use andnp_searchkernel.Indexing.Moves.{Lasting, Moves}
use andnp_searchkernel.Indexing.Saves.{
  Stores, moving, Calm-modify, Unblocked, Grows-block, Grows-calm, Grows-save_and_report,
}
use andnp_searchkernel.Indexing.Calm.{
  Steady, Calm, Calm-IsGrowth, Grows-modify, Grows-reject, Grows-on_exception, Collaborates,
}
use andnp_searchkernel.Indexing.Succeeded.{Grows-run}

module _ {W F : Type 0} (Good : String → List F → W → Type 0) (stored : W → Cursor) {D : Type 0}
    (parts : Coordinator W F D) where
  -- Calling the caller's function keeps the stored cursor and the vectors.
  abbrev pub Proposes : Option (CheckpointForBatch W D) → Type 0
  Proposes none = Unit
  Proposes (some checkpoint_for_batch) =
      (batch : PreparedIndexBatch D) (w : W)
      → Steady Good stored w ((checkpoint_for_batch batch >>= awaited) w).1

  -- The caller's function gives the cursor for the batch, in some world.
  abbrev pub Proposed : Option (CheckpointForBatch W D) → PreparedIndexBatch D → Cursor → Type 0
  Proposed none batch c = ⊥
  Proposed (some checkpoint_for_batch) batch c =
      (w : W) × (((checkpoint_for_batch batch >>= awaited) w).0 ≡ ok c)

  -- A sound vector is in place under the id of each semantic input of the batch.
  abbrev pub AllInputs : PreparedIndexBatch D → W → Type 0
  AllInputs batch w = All (Placed parts.embedding parts.planner Good w) batch.semantic_inputs

  -- The cursor is the one of a batch, and the batches up to it are in place.
  abbrev pub Reached :
      Option (CheckpointForBatch W D) → List (Yield (PreparedIndexBatch D)) → Cursor → W → Type 0
  Reached o [] c w = ⊥
  Reached o (alien ∷ batches) c w = ⊥
  Reached o (broken e ∷ batches) c w = ⊥
  Reached o (yielded batch ∷ batches) c w =
      AllInputs batch w × (Proposed o batch c ⊎ Reached o batches c w)

  pub AllInputs-Lasting : (batch : PreparedIndexBatch D) → Lasting Good stored (AllInputs batch)
  AllInputs-Lasting batch w w' l =
      All-map _ _ (λ item p. (p.0, p.1, l item.source_id p.0 p.2)) batch.semantic_inputs

  Grows-reads_then :
      {S A B : Type 0} {Before : S → S → Type 0} {Q : B → S → Type 0} (g : S → A)
      (f : A → Exec Error S B) (s : S)
      → Grows Before (f (g s)) s Q
      → Grows Before (reads g >>= f) s Q
  unfolding reads ◌>>=◌ carry_on
  Grows-reads_then g f s r = record { before = r.before; returned = r.returned }

  answered :
      (m : Exec Error W Cursor) (start : W) (b : Bool) (t : Run W) (r : Result Error Cursor)
      → (m start).0 ≡ r
      → t.checkpoint_blocked ≡ b
      → ReturnedAt (λ c u. ((w : W) × ((m w).0 ≡ ok c)) × (u.checkpoint_blocked ≡ b)) r t
  answered m start b t (ok c) e k = ((start, e), k)
  answered m start b t (err x) e k = tt

  Grows-candidate :
      (f : CheckpointForBatch W D) (batch : PreparedIndexBatch D) (s : Run W)
      → Proposes (some f)
      → Grows
          (Calm Good stored)
          (call (f batch >>= awaited))
          s
          (λ c t. Proposed (some f) batch c × (t.checkpoint_blocked ≡ s.checkpoint_blocked))
  unfolding call
  Grows-candidate f batch s hf = record {
    before = record { steady = hf batch s.world; blocked = λ e. e };
    returned = answered (f batch >>= awaited) s.world s.checkpoint_blocked _ _ refl refl;
  }

  module _ (options : Options W) (store : Option (CheckpointStore W))
      (h : Collaborates Good stored parts options) (hs : Stores Good stored store)
      (o : Option (CheckpointForBatch W D)) (hf : Proposes o) where
    module _ (batch_index : ℕ) (batch : PreparedIndexBatch D) where
      abbrev Stepped : Run W → Run W → Type 0
      Stepped = Moves Good stored (AllInputs batch) (Proposed o batch)

      abbrev growing : IsGrowth Stepped
      growing =
          moving Good stored parts options store h hs (AllInputs batch) (Proposed o batch)
            (AllInputs-Lasting batch)

      from_calm :
          {A : Type 0} {Q : A → Run W → Type 0} {m : Exec Error (Run W) A} {s : Run W}
          → Grows (Calm Good stored) m s Q
          → Grows Stepped m s Q
      from_calm r =
          Grows-calm Good stored parts options store h hs (AllInputs batch) (Proposed o batch)
            (AllInputs-Lasting batch) r

      Grows-save_if_new :
          (c : Cursor) (s : Run W)
          → s.checkpoint_blocked ≡ false
          → Proposed o batch c
          → AllInputs batch s.world
          → Grows Stepped (save_if_new parts options store batch_index c) s Anything
      unfolding save_if_new
      Grows-save_if_new c s b d p =
          Grows-reads_then (λ t. t.current_checkpoint) _ s
            (Grows-if growing (cursor_eq c s.current_checkpoint) _ _ s
              (λ _. Grows-pure growing tt s tt)
              λ _.
                Grows-save_and_report Good stored parts options store h hs (AllInputs batch)
                  (Proposed o batch) (AllInputs-Lasting batch) batch_index c s b d p)

      Grows-propose :
          (q : Option (CheckpointForBatch W D)) (s : Run W)
          → Proposes q
          → ((c : Cursor) → Proposed q batch c → Proposed o batch c)
          → AllInputs batch s.world
          → Grows Stepped (propose parts options store q batch_index batch) s Anything
      unfolding propose
      Grows-propose none s hq k p = Grows-pure growing tt s tt
      Grows-propose (some f) s hq k p =
          Grows-reads_then (λ t. t.checkpoint_blocked) _ s
            (Grows-if growing s.checkpoint_blocked _ _ s (λ _. Grows-pure growing tt s tt)
              λ n. Grows-bind growing (from_calm (Grows-candidate f batch s hq)) λ c t b (d, e).
                Grows-save_if_new c t (e ∙ n) (k c d)
                  (AllInputs-Lasting batch s.world t.world b.later p))

      -- One batch, and what a success leaves.
      abbrev Works : BatchOutcome → Run W → Type 0
      Works outcome t = outcome.successful ≡ true → AllInputs batch t.world

      Grows-batch_refused :
          (records : List Record) (c : Cursor) (e : Exception) (s : Run W)
          → Grows (Calm Good stored) (batch_refused parts options store records c e) s Works
      unfolding batch_refused batch_failed unfinished
      Grows-batch_refused records c (ingestion r) s =
          Grows-reject Good stored options.failure_mode r _ s (λ t. absurd (true≢false (sym t)))
      Grows-batch_refused records c (exception name m) s =
          Grows-reject Good stored options.failure_mode _ _ s (λ t. absurd (true≢false (sym t)))

      Grows-run_prepared :
          (c : Cursor) (s : Run W)
          → Grows (Calm Good stored) (run_prepared parts options store batch batch_index c) s Works
      unfolding run_prepared
      Grows-run_prepared c s =
          let records = map (λ p. p.indexed) batch.records in
          Grows-try (Calm-IsGrowth Good stored)
            (Grows-run Good stored parts options h batch records batch_index c s)
            (λ e t _. Grows-on_exception Good stored _ (Grows-batch_refused records c) e t)

      Grows-settle_prepared :
          (outcome : BatchOutcome) (s : Run W)
          → Works outcome s
          → Grows Stepped
              (settle_prepared parts options store o batch_index batch outcome)
              s
              (λ _ t. Unblocked Good stored (AllInputs batch) t)
      unfolding settle_prepared
      Grows-settle_prepared outcome s p =
          Grows-bind growing
            (from_calm (
              Grows-modify Good stored (with_outcome outcome) s
                (Calm-modify Good stored (with_outcome outcome) s refl (λ b. b))))
            λ _ t b _.
              let later = AllInputs-Lasting batch s.world t.world b.later in
              Grows-if growing outcome.successful _ _ t
                (λ y.
                  Grows-weaken growing (Grows-propose o t hf (λ c d. d) (later (p y)))
                    λ _ u b' _ _. AllInputs-Lasting batch t.world u.world b'.later (later (p y)))
                (λ n. from_calm (Grows-block Good stored (AllInputs batch) t))

      Grows-check_bounds :
          (max_records max_chunks : Option ℕ) (s : Run W)
          → Grows Stepped (check_bounds max_records max_chunks batch) s Anything
      unfolding check_bounds
      Grows-check_bounds max_records max_chunks s =
          Grows-if growing (exceeds max_records (length batch.records)) _ _ s
            (λ _. Grows-raise growing _ s)
            λ _.
              Grows-if growing (exceeds max_chunks (length batch.chunks)) _ _ s
                (λ _. Grows-raise growing _ s) (λ _. Grows-pure growing tt s tt)

      pub Grows-process_batch :
          (max_records max_chunks : Option ℕ) (s : Run W)
          → Grows Stepped
              (process_batch parts options store o max_records max_chunks batch_index batch)
              s
              (λ _ t. Unblocked Good stored (AllInputs batch) t)
      unfolding process_batch
      Grows-process_batch max_records max_chunks s =
          Grows-bind growing (Grows-check_bounds max_records max_chunks s) λ _ t _ _.
            Grows-bind growing (Grows-reads growing _ t) λ c u _ _.
              Grows-bind growing (from_calm (Grows-run_prepared c u))
                λ outcome v _ p. Grows-settle_prepared outcome v p
