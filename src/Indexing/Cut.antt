-- ===== src/Indexing/Cut.antt =====
-- What `_iter_source_batches` of indexing/coordinator.py makes of a source's batches and records.
use andnp_searchkernel.Prelude.{
  ℕ, zero, suc, ◌+◌, ◌-◌, ◌≤◌, ◌<◌, min, ◌≡◌, refl, ap, ◌∙◌, Bool-cases, inl, inr, none, List, [],
  ◌∷◌, ◌++◌, map, length, length-append, length-take, length-drop, drop, ltb, All, arith,
}
use mathlib.Core.List.{flatten, append_assoc}
use andnp_searchkernel.Indexing.Receipts.{Cursor, Record}
use andnp_searchkernel.Indexing.Slices.{
  range_from, range, slice, slices, IsSlice, flatten-slices, slices-IsSlice,
}
use andnp_searchkernel.Indexing.Sources.{
  yielded, Pull, pulled, failing, or_zero, pull_at, batch_pulls, last_of, pulls_of_records,
}

abbrev pub records_of : Pull → List Record
records_of (pulled rs c) = rs
records_of (failing e) = []

abbrev pub all_records : List Pull → List Record
all_records [] = []
all_records (p ∷ pulls) = records_of p ++ all_records pulls

-- Records, and no more than the size.
abbrev pub IsPull : ℕ → Pull → Type 0
IsPull size (pulled rs c) = length rs ≤ size
IsPull size (failing e) = ⊥

-- The last pull is under the cursor, and the ones before it are under none.
abbrev pub Closes : Cursor → List Pull → Type 0
Closes c [] = ⊥
Closes c (failing e ∷ pulls) = ⊥
Closes c (pulled rs d ∷ []) = d ≡ c
Closes c (pulled rs d ∷ p ∷ pulls) = (d ≡ none) × Closes c (p ∷ pulls)

Closes-cons :
    (c : Cursor) (rs : List Record) (d : Cursor) (pulls : List Pull)
    → d ≡ none
    → Closes c pulls
    → Closes c (pulled rs d ∷ pulls)
Closes-cons c rs d [] e h = absurd h
Closes-cons c rs d (p ∷ pulls) e h = (e, h)

range_from-more :
    (fuel start stop size : ℕ)
    → start < stop
    → range_from (suc fuel) start stop size ≡ start ∷ range_from fuel (start + size) stop size
unfolding range_from
range_from-more fuel start stop size lt = ground arith

range_from-done : (fuel start stop size : ℕ) → stop ≤ start → range_from fuel start stop size ≡ []
unfolding range_from
range_from-done zero start stop size le = refl
range_from-done (suc fuel) start stop size le = ground arith

module _ (batch_size : ℕ) (records : List Record) (terminal : Cursor) where
  abbrev pulls_at : List ℕ → List Pull
  pulls_at starts = map (pull_at batch_size records terminal) starts

  length-slice_at :
      (start : ℕ)
      → length (slice records batch_size start) ≡ min batch_size (length records - start)
  unfolding slice
  length-slice_at start =
      length-take batch_size (drop start records)
      ∙ ap (λ k. min batch_size k) (length-drop start records)

  pulls-Closes :
      (fuel start : ℕ)
      → 0 < batch_size
      → start < length records
      → length records ≤ start + fuel
      → Closes terminal (pulls_at (range_from fuel start (length records) batch_size))
  unfolding pull_at
  pulls-Closes zero start h lt e = absurd (omega arith)
  pulls-Closes (suc fuel) start h lt e =
      let len = length-slice_at start in
      rw (range_from-more fuel start (length records) batch_size lt)
        (elim (Bool-cases (ltb (start + batch_size) (length records))) [
          | inl more ↦
              Closes-cons terminal (slice records batch_size start) _ _ (ground arith)
                (pulls-Closes fuel (start + batch_size) h (ground arith) (omega arith))
          | inr last ↦
              rw
                (range_from-done fuel (start + batch_size) (length records) batch_size
                  (ground arith))
                (ground arith)
        ])

  records-pulls :
      (starts : List ℕ)
      → all_records (pulls_at starts) ≡ flatten (map (slice records batch_size) starts)
  unfolding pull_at flatten
  records-pulls [] = refl
  records-pulls (start ∷ starts) =
      ap (λ l. slice records batch_size start ++ l) (records-pulls starts)

  pulls-IsPull :
      (starts : List ℕ)
      → All (IsSlice batch_size) (map (slice records batch_size) starts)
      → All (IsPull batch_size) (pulls_at starts)
  unfolding pull_at
  pulls-IsPull [] a = tt
  pulls-IsPull (start ∷ starts) a = (a.0.1, pulls-IsPull starts a.1)

or_zero-range : (stop size : ℕ) → 0 < stop → or_zero (range stop size) ≡ range stop size
unfolding range
or_zero-range zero size h = absurd (omega arith)
or_zero-range (suc n) size h = rw (range_from-more n 0 (suc n) size h) refl

-- With a positive batch size, a batch of a source is cut into its records in their order, at most
-- `batch_size` in each part, and only the last part has the batch's terminal cursor. A batch with no
-- record gives one empty part with the cursor.
pub batch_pulls-Closes :
    (batch_size : ℕ) (records : List Record) (terminal : Cursor)
    → 0 < batch_size
    → (all_records (batch_pulls batch_size records terminal) ≡ records)
      × All (IsPull batch_size) (batch_pulls batch_size records terminal)
      × Closes terminal (batch_pulls batch_size records terminal)
unfolding batch_pulls slices range slice pull_at range_from
batch_pulls-Closes zero records terminal h = absurd (omega arith)
batch_pulls-Closes (suc k) [] terminal h = (refl, (omega arith, tt), refl)
batch_pulls-Closes (suc k) (r ∷ records) terminal h =
    let n = length (r ∷ records) in
    let pos : 0 < n = omega arith in
    rw (or_zero-range n (suc k) pos) (
      records-pulls (suc k) (r ∷ records) terminal (range n (suc k))
          ∙ flatten-slices (r ∷ records) (suc k) h,
      pulls-IsPull (suc k) (r ∷ records) terminal (range n (suc k))
          (slices-IsSlice (r ∷ records) (suc k) h),
      pulls-Closes (suc k) (r ∷ records) terminal n 0 h pos (omega arith),
    )

module _ (cursor_for : Record → Cursor) where
  -- Some records, no more than the size, under the cursor of the last of them.
  abbrev pub IsFinished : ℕ → Pull → Type 0
  IsFinished size (failing e) = ⊥
  IsFinished size (pulled rs c) =
      (length rs ≤ size)
      × ((before : List Record) × (last : Record) × (rs ≡ before ++ last ∷ [])
          × (c ≡ cursor_for last))

  last_of-append :
      (r : Record) (batch : List Record)
      → (before : List Record) × (r ∷ batch ≡ before ++ last_of r batch ∷ [])
  last_of-append r [] = ([], refl)
  last_of-append r (q ∷ batch) =
      let rest = last_of-append q batch in (r ∷ rest.0, ap (◌∷◌ r) rest.1)

  -- With a positive batch size, the records of a source that yields records are cut in their order, joined they
  -- are the records, and each part has one to `batch_size` of them and the cursor of its last one.
  pub pulls_of_records-IsFinished :
      (batch_size : ℕ) (records batch : List Record)
      → length batch < batch_size
      → (all_records (pulls_of_records cursor_for batch_size (map yielded records) batch)
          ≡ batch ++ records)
        × All
            (IsFinished batch_size)
            (pulls_of_records cursor_for batch_size (map yielded records) batch)
  unfolding pulls_of_records
  pulls_of_records-IsFinished size [] [] h = (refl, tt)
  pulls_of_records-IsFinished size [] (r ∷ batch) h =
      let l = last_of-append r batch in
      (refl, ((omega arith, (l.0, last_of r batch, l.1, refl)), tt))
  pulls_of_records-IsFinished size (r ∷ records) batch h =
      let n = length-append batch (r ∷ []) in
      elim (Bool-cases (ltb (length (batch ++ r ∷ [])) size)) [
        | inl more ↦ rw more (
            let rest = pulls_of_records-IsFinished size records (batch ++ r ∷ []) (ground arith) in
            (rest.0 ∙ append_assoc batch (r ∷ []) records, rest.1))
        | inr full ↦ rw full (
            let rest = pulls_of_records-IsFinished size records [] (omega arith) in
            (
              ap (λ l. (batch ++ r ∷ []) ++ l) rest.0 ∙ append_assoc batch (r ∷ []) records,
              ((omega arith, (batch, r, refl, refl)), rest.1),
            ))
      ]
