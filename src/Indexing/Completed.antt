-- ===== src/Indexing/Completed.antt =====
-- `run_source` of indexing/coordinator.py over a source of records, with parts that answer.
use andnp_searchkernel.Prelude.{
  ℕ, ◌<◌, ◌≡◌, refl, sym, ap, ◌∙◌, subst, false, not, ◌&&◌, ltb, Option, none, some, is_some,
  String, List, [], ◌∷◌, ◌++◌, map, All, arith,
}
use mathlib.Core.Option.{some-injective}
use andnp_searchkernel.Exec.{Exec, reads}
use andnp_searchkernel.Exec.Runs.{
  Runs, Returns, Runs-if_false, Runs-weaken, Runs-bind, Returns-pure, Returns-bind,
}
use andnp_searchkernel.Indexing.Receipts.{Cursor, Record, Error}
use andnp_searchkernel.Indexing.Parts.{CheckpointStore, RecordIngestor, Coordinator, Options, Run}
use andnp_searchkernel.Indexing.Sources.{
  Yield, yielded, Source, pulls_of_records, iter_source_batches, open_with, records_opened,
}
use andnp_searchkernel.Indexing.Coordinator.{
  process_pulls, load_checkpoint, within, receipt, run_source, of_source, begun,
}
use andnp_searchkernel.Indexing.LastCursor.{
  NoneFails-pulls_of_records, last_cursor-pulls_of_records,
}
use andnp_searchkernel.Indexing.Cut.{pulls_of_records-IsFinished}
use andnp_searchkernel.Indexing.Answering.{Same, Serves, Returns-call}
use andnp_searchkernel.Indexing.Answered.{HasKey, At, At-SameRun, Runs-process_pulls}

-- A source of records only, whose stream for this cursor gives these, while the cursor is the stored one.
pub record Streams {W : Type 0} (stored : W → Cursor) (source : Source W) (since : Cursor)
    (records : List Record) : Type 0 where
  pub by_records : source.iter_batches ≡ none
  pub streams :
      (w : W)
      → stored w ≡ since
      → Returns (Same stored) (source.iter_records since) w (λ s. s ≡ some (map yielded records))

Runs-within :
    {W A : Type 0} {Q : A → W → Type 0} (stored : W → Cursor) (m : Exec Error (Run W) A)
    (c : Cursor) (w : W)
    → Runs m (begun c w) (λ a t. Q a t.world)
    → Runs (within m c) w Q
unfolding within
Runs-within stored m c w r = record {
  value = r.value;
  state = r.state.world;
  result = rw r.result refl;
  holds = r.holds;
}

module _ {W F D : Type 0} (stored : W → Cursor) (parts : Coordinator W F D) (options : Options W)
    (ingestor : RecordIngestor W) (store : CheckpointStore W) (source : Source W)
    (batch_size : ℕ) where
  Returns-opened :
      (records : List Record) (o : Option (List (Yield Record))) (w : W)
      → Serves stored parts options ingestor store
      → o ≡ some (map yielded records)
      → Returns
          (Same stored)
          (records_opened source batch_size o)
          w
          (λ p. p ≡ pulls_of_records source.cursor_for batch_size (map yielded records) [])
  Returns-opened records none w h q = absurd (ground arith)
  Returns-opened records (some stream) w h q =
      Returns-pure h.embeds.growth _ w
        (ap (λ s. pulls_of_records source.cursor_for batch_size s []) (some-injective _ _ q))

  Returns-open :
      (records : List Record) (c : Cursor) (w : W)
      → Serves stored parts options ingestor store
      → Streams stored source c records
      → stored w ≡ c
      → Returns
          (Same stored)
          (iter_source_batches source batch_size c)
          w
          (λ p. p ≡ pulls_of_records source.cursor_for batch_size (map yielded records) [])
  unfolding iter_source_batches
  Returns-open records c w h s at =
      subst
        (λ o.
          Returns (Same stored) (open_with source batch_size o c) w
            (λ p. p ≡ pulls_of_records source.cursor_for batch_size (map yielded records) []))
        (sym s.by_records)
        (Returns-bind h.embeds.growth (s.streams w at) λ o t q. Returns-opened records o t h q)

  Serves-of_source :
      Serves stored parts options ingestor store
      → Serves stored parts (of_source source options) ingestor store
  Serves-of_source h = record {
    embeds = h.embeds;
    ingests = h.ingests;
    reports = h.reports;
    loads = h.loads;
    saves = h.saves;
  }

  Runs-receipt :
      (c : Cursor) (s : Run W)
      → At stored c s
      → Runs {E = Error}
          (reads (receipt (of_source source options) (some store)))
          s
          (λ r t. (stored t.world ≡ c) × (r.ingestion.checkpoint ≡ c))
  unfolding reads receipt
  Runs-receipt c s a = record { value = _; state = s; result = refl; holds = (a.0, a.1) }

  -- Over a source of records, without a given cursor and without a preparer, with an ingestor that commits
  -- the records, a planner, an encoder, a callback and stores that answer, and a positive batch size: if what the
  -- source streams for the stored cursor are records whose identity is valid, at least one, and the last
  -- has a cursor, then `run_source` returns, and that cursor is stored and is the receipt's checkpoint.
  pub Runs-run_source :
      (before : List Record) (last : Record) (cursor : String) (w : W)
      → Serves stored parts options ingestor store
      → parts.record_ingestor ≡ some ingestor
      → Streams stored source (stored w) (before ++ last ∷ [])
      → All (HasKey parts) (before ++ last ∷ [])
      → source.cursor_for last ≡ some cursor
      → 0 < batch_size
      → Runs
          (run_source parts options source none none batch_size (some store))
          w
          (λ r w'. (stored w' ≡ some cursor) × (r.ingestion.checkpoint ≡ some cursor))
  unfolding run_source load_checkpoint
  Runs-run_source before last cursor w h e s k x pos =
      Runs-if_false (ltb batch_size 1) _ _ w (ground arith) (
        Runs-if_false (not (is_some parts.record_ingestor) && not false) _ _ w (rw e refl) (
          Runs-bind (h.loads source.source_kind options.workspace_id w) λ c t q.
            let pulls =
              pulls_of_records source.cursor_for batch_size (map yielded (before ++ last ∷ []))
                [] in
            let h' = Serves-of_source h in
            let s' = subst (λ d. Streams stored source d (before ++ last ∷ [])) (sym q.1) s in
            Runs-within stored _ c t (
              Runs-bind
                (Returns-call stored (begun c t)
                  (Returns-open (before ++ last ∷ []) c t h s' (q.0 ∙ sym q.1)))
                λ p u b.
                  Runs-bind
                    (subst
                      (λ p'.
                        Runs (process_pulls parts (of_source source options) (some store) none 0 p')
                          u (λ _ x. At stored (some cursor) x))
                      (sym b.1)
                      (Runs-weaken _ u
                        (Runs-process_pulls stored parts (of_source source options) h' e 0 pulls c u
                          (At-SameRun stored c (begun c t) u b.0 (q.0 ∙ sym q.1, refl, refl))
                          (NoneFails-pulls_of_records source.cursor_for batch_size
                            (before ++ last ∷ []) [])
                          (subst (All (HasKey parts))
                            (sym
                              (pulls_of_records-IsFinished source.cursor_for batch_size
                                (before ++ last ∷ []) [] pos).0)
                            k))
                        λ _ v a.
                          subst (λ d. At stored d v)
                            (last_cursor-pulls_of_records source.cursor_for batch_size before []
                              last c (some cursor) refl x)
                            a))
                    λ _ v a. Runs-receipt (some cursor) v a)))
