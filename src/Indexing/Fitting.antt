-- ===== src/Indexing/Fitting.antt =====
-- The batches of `run_prepared_records`, and the checks of their size in `run_batches`.
use mathlib.Core.List.{flatten}
use andnp_searchkernel.Prelude.{
  ℕ, ◌≤◌, ◌<◌, ◌≡◌, refl, ◌∙◌, subst, ltb, Bool-cases, String, Option, some, List, [], ◌∷◌, ◌++◌,
  map, length, length-append, ◌⊎◌, inl, inr, All, arith,
}
use andnp_searchkernel.Exec.{Result, ok, err, pure, raise}
use andnp_searchkernel.Batching.Records.{
  BoundsError, IsBounded, total_chunks, iter_prepared_index_batches,
  iter_prepared_index_batches-IsBounded,
}
use andnp_searchkernel.Indexing.Receipts.{Error, value_error}
use andnp_searchkernel.Indexing.Semantic.{Embedding}
use andnp_searchkernel.Indexing.Parts.{PreparedIndexRecord, PreparedIndexBatch, Run}
use andnp_searchkernel.Indexing.Sources.{Yield, yielded}
use andnp_searchkernel.Indexing.Prepared.{check_bounds}
use andnp_searchkernel.Indexing.Payload.{
  record_chunks, batch_of, from_records, ◌>>=◌, then_batches, batches_of, bounded, prepared_batches,
}

-- The records of what is yielded, where nothing else is.
abbrev pub records_of :
    {D : Type 0} → List (Yield (PreparedIndexBatch D)) → List (PreparedIndexRecord D)
records_of [] = []
records_of (yielded batch ∷ rest) = batch.records ++ records_of rest
records_of (_ ∷ rest) = records_of rest

abbrev pub IsYielded : {A : Type 0} → Yield A → Type 0
IsYielded (yielded a) = Unit
IsYielded _ = ⊥

flatten_chunks_lem :
    {D : Type 0} (records : List (PreparedIndexRecord D))
    → length (flatten (map (λ p. p.chunks) records)) ≡ total_chunks record_chunks records
unfolding flatten
flatten_chunks_lem [] = refl
flatten_chunks_lem (p ∷ records) =
    let l = length-append p.chunks (flatten (map (λ q. q.chunks) records)) in
    omega (arith, l, flatten_chunks_lem records)

module _ (W : Type 0) {D : Type 0} (max_records max_chunks : ℕ) where
  -- The batch passes the checks, or it is a single record with too many chunks, and they refuse it.
  abbrev pub FitsOr : PreparedIndexBatch D → Type 0
  FitsOr batch =
      ((s : Run W) → check_bounds (some max_records) (some max_chunks) batch s ≡ (ok tt, s))
      ⊎ ((length batch.records ≡ 1)
          × (max_chunks < length batch.chunks)
          × ((s : Run W)
              → check_bounds (some max_records) (some max_chunks) batch s
                ≡ (err (value_error "prepared batch exceeds max_chunks"), s)))

  abbrev pub Fits : Yield (PreparedIndexBatch D) → Type 0
  Fits (yielded batch) = FitsOr batch
  Fits _ = Unit

  check_bounds-FitsOr :
      (batch : PreparedIndexBatch D)
      → length batch.records ≤ max_records
      → (length batch.chunks ≤ max_chunks) ⊎ (length batch.records ≡ 1)
      → FitsOr batch
  unfolding check_bounds pure raise
  check_bounds-FitsOr batch few (inl small) = inl (λ s. ground arith)
  check_bounds-FitsOr batch few (inr one) =
      elim (Bool-cases (ltb max_chunks (length batch.chunks))) [
        | inl more ↦ inr (one, ground arith, λ s. ground arith)
        | inr small ↦ inl (λ s. ground arith)
      ]

  abbrev Whole : List (Yield (PreparedIndexBatch D)) → List (PreparedIndexRecord D) → Type 0
  Whole yields records = All Fits yields × (All IsYielded yields → records_of yields ≡ records)

  batch_of-FitsOr :
      {V F : Type 0} (parts : Embedding V F) (records : List (PreparedIndexRecord D))
      (r : Result Error (List (String × D) × List (String × String × String × String)))
      (batch : PreparedIndexBatch D)
      → IsBounded record_chunks max_records max_chunks records
      → (r >>= λ payload. ok (batch_of parts records payload)) ≡ ok batch
      → FitsOr batch × (batch.records ≡ records)
  batch_of-FitsOr parts records (err x) batch b e = absurd (ground arith)
  batch_of-FitsOr parts records (ok (nodes, edges)) batch b e =
      let made : batch_of parts records (nodes, edges) ≡ batch = ground arith in
      let chunks = flatten_chunks_lem records in
      subst (λ c. FitsOr c × (c.records ≡ records)) made
        (
          check_bounds-FitsOr (batch_of parts records (nodes, edges)) b.1
              (elim b.2 [ inl small ↦ inl (omega arith) | inr one ↦ inr one ]),
          refl,
        )

  then_batches-Whole :
      (r : Result Error (PreparedIndexBatch D)) (rest : List (Yield (PreparedIndexBatch D)))
      (records others : List (PreparedIndexRecord D))
      → ((batch : PreparedIndexBatch D) → r ≡ ok batch → FitsOr batch × (batch.records ≡ records))
      → Whole rest others
      → Whole (then_batches r rest) (records ++ others)
  then_batches-Whole (err x) rest records others h w = ((tt, tt), λ y. absurd y.0)
  then_batches-Whole (ok batch) rest records others h w =
      let (f, e) = h batch refl in ((f, w.0), λ y. rw (e, w.1 y.1) refl)

  module _ {V F : Type 0} (parts : Embedding V F)
      (loads : String → Option (Option String × String × String)) (lower : String → String) where
    batches_of-Whole :
        (batches : List (List (PreparedIndexRecord D)))
        → All (IsBounded record_chunks max_records max_chunks) batches
        → Whole (batches_of parts loads lower batches) (flatten batches)
    unfolding batches_of from_records flatten
    batches_of-Whole [] b = (tt, λ y. refl)
    batches_of-Whole (batch ∷ batches) b =
        then_batches-Whole (from_records parts loads lower batch) _ batch (flatten batches)
          (λ c e. batch_of-FitsOr parts batch _ c b.0 e) (batches_of-Whole batches b.1)

    bounded-Whole :
        (records : List (PreparedIndexRecord D))
        (r : Result BoundsError (List (List (PreparedIndexRecord D))))
        → iter_prepared_index_batches record_chunks records max_records max_chunks ≡ r
        → Whole (bounded parts loads lower r) records
    bounded-Whole records (err x) e = ((tt, tt), λ y. absurd y.0)
    bounded-Whole records (ok batches) e =
        let b =
          iter_prepared_index_batches-IsBounded record_chunks records max_records max_chunks batches
            e in
        let w = batches_of-Whole batches b.1 in (w.0, λ y. w.1 y ∙ b.0)

    -- Every batch that `run_prepared_records` passes to `run_batches` passes the checks of its size there,
    -- or it is a single record with more than `max_chunks` chunks, and then they refuse it. Unless some
    -- payload or bound raises, the batches are all the records, in order.
    pub prepared_batches-Fits :
        (records : List (PreparedIndexRecord D))
        → All Fits (prepared_batches parts loads lower records max_records max_chunks)
          × (All IsYielded (prepared_batches parts loads lower records max_records max_chunks)
              → records_of (prepared_batches parts loads lower records max_records max_chunks)
                ≡ records)
    unfolding prepared_batches
    prepared_batches-Fits records = bounded-Whole records _ refl
