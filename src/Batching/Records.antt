-- ===== src/Batching/Records.antt =====
-- `iter_prepared_index_batches` of indexing/batches.py: the batches that the generator yields. A
-- record is any `A`, of which the function reads the number of its chunks.
use andnp_searchkernel.Prelude.{
  ℕ, ◌+◌, ◌≤◌, ◌<◌, ◌≡◌, refl, ap, ◌∙◌, Bool, true, false, ◌&&◌, ◌||◌, Bool-cases, inl, inr, ◌⊎◌,
  List, [], ◌∷◌, ◌++◌, length, length-append, ltb, leb, ◌==◌, All, if◌then◌else◌, arith,
}
use mathlib.Core.List.{append_assoc, flatten}
use andnp_searchkernel.Exec.{Result, ok, err}

pub data BoundsError : Type 0 where
  bounds_not_positive : BoundsError

module _ {A : Type 0} (record_chunks : A → ℕ) where
  abbrev pub last_batch : List A → List (List A)
  last_batch [] = []
  last_batch (a ∷ batch) = (a ∷ batch) ∷ []

  abbrev pub is_open : List A → Bool
  is_open [] = false
  is_open (a ∷ batch) = true

  -- The loop over the records, with the open batch and its chunk count.
  unfoldable pub batches_from : ℕ → ℕ → List A → List A → ℕ → List (List A)
  batches_from max_records max_chunks [] current chunk_count = last_batch current
  batches_from max_records max_chunks (a ∷ records) current chunk_count =
      let fresh =
        current ∷ batches_from max_records max_chunks records (a ∷ []) (0 + record_chunks a) in
      let more =
        batches_from max_records max_chunks records (current ++ a ∷ [])
          (chunk_count + record_chunks a) in
      if is_open current
        && (leb max_records (length current) || ltb max_chunks (chunk_count + record_chunks a))
      then fresh
      else more

  unfoldable pub iter_prepared_index_batches : List A → ℕ → ℕ → Result BoundsError (List (List A))
  iter_prepared_index_batches records max_records max_chunks =
      if max_records == 0 || max_chunks == 0
      then err bounds_not_positive
      else ok (batches_from max_records max_chunks records [] 0)

  abbrev pub total_chunks : List A → ℕ
  total_chunks [] = 0
  total_chunks (a ∷ batch) = record_chunks a + total_chunks batch

  total_chunks-append :
      (xs ys : List A) → total_chunks (xs ++ ys) ≡ total_chunks xs + total_chunks ys
  total_chunks-append [] ys = omega arith
  total_chunks-append (x ∷ xs) ys = omega (arith, total_chunks-append xs ys)

  -- Not empty, within the bound on records, and within the bound on chunks unless it is one record.
  abbrev pub IsBounded : ℕ → ℕ → List A → Type 0
  IsBounded max_records max_chunks batch =
      (0 < length batch)
      × (length batch ≤ max_records)
      × ((total_chunks batch ≤ max_chunks) ⊎ (length batch ≡ 1))

  -- What the loop keeps of its open batch.
  abbrev IsOpen : ℕ → ℕ → List A → Type 0
  IsOpen max_records max_chunks current =
      (length current ≤ max_records) × ((total_chunks current ≤ max_chunks) ⊎ (length current ≡ 1))

  flatten-batches_from :
      (m c : ℕ) (records current : List A) (n : ℕ)
      → flatten (batches_from m c records current n) ≡ current ++ records
  unfolding batches_from flatten
  flatten-batches_from m c [] [] n = refl
  flatten-batches_from m c [] (a ∷ current) n = refl
  flatten-batches_from m c (a ∷ records) current n =
      elim (Bool-cases
        (is_open current && (leb m (length current) || ltb c (n + record_chunks a)))) [
          | inl cut ↦ rw cut (ap (λ l. current ++ l) (flatten-batches_from m c records (a ∷ []) _))
          | inr more ↦ rw more (
              flatten-batches_from m c records (current ++ a ∷ []) _
              ∙ append_assoc current (a ∷ []) records)
        ]

  batches_from-IsBounded :
      (m c : ℕ) (records current : List A) (n : ℕ)
      → 0 < m
      → n ≡ total_chunks current
      → IsOpen m c current
      → All (IsBounded m c) (batches_from m c records current n)
  unfolding batches_from
  batches_from-IsBounded m c [] [] n h e o = tt
  batches_from-IsBounded m c [] (a ∷ current) n h e o = ((omega arith, o.0, o.1), tt)
  batches_from-IsBounded m c (a ∷ records) [] n h e o =
      batches_from-IsBounded m c records (a ∷ []) _ h (omega arith) (omega arith, inr refl)
  batches_from-IsBounded m c (a ∷ records) (b ∷ current) n h e o =
      elim (Bool-cases (leb m (length (b ∷ current)) || ltb c (n + record_chunks a))) [
        | inl cut ↦ rw cut (
          (omega arith, o.0, o.1),
          batches_from-IsBounded m c records (a ∷ []) _ h (omega arith) (omega arith, inr refl),
        )
        | inr more ↦ rw more (
            let len = length-append (b ∷ current) (a ∷ []) in
            let sum = total_chunks-append (b ∷ current) (a ∷ []) in
            let few : length (b ∷ current) < m = ground arith in
            let small : n + record_chunks a ≤ c = ground arith in
            batches_from-IsBounded m c records (b ∷ (current ++ a ∷ [])) _ h (omega arith)
              (omega arith, inl (omega arith)))
      ]

  -- With positive bounds the batches are the records in their order, joined; none is empty, none has
  -- more than `max_records` records, and none has more than `max_chunks` chunks unless it is a
  -- single record.
  pub iter_prepared_index_batches-IsBounded :
      (records : List A) (max_records max_chunks : ℕ) (batches : List (List A))
      → iter_prepared_index_batches records max_records max_chunks ≡ ok batches
      → (flatten batches ≡ records) × All (IsBounded max_records max_chunks) batches
  unfolding iter_prepared_index_batches
  iter_prepared_index_batches-IsBounded records m c batches e =
      let p : batches_from m c records [] 0 ≡ batches = ground arith in
      rw (← p) (
        flatten-batches_from m c records [] 0,
        batches_from-IsBounded m c records [] 0 (ground arith) refl
            (omega arith, inl (omega arith)),
      )
