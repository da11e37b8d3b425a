-- ===== src/Indexing/Slices.antt =====
-- Python's `range(0, len(items), size)` with the slices `items[start : start + size]` at its starts, as
-- indexing/semantic.py and indexing/coordinator.py cut their batches.
use andnp_searchkernel.Prelude.{
  ℕ, zero, suc, ◌+◌, ◌-◌, ◌≤◌, ◌<◌, ◌≡◌, sym, ap, ◌∙◌, List, [], ◌∷◌, ◌++◌, map, length, take, drop,
  ltb, if◌then◌else◌, All, length-take, length-drop, take-append-drop, drop-add, drop_of_length-le,
  min, Bool-cases, inl, inr, arith,
}
use mathlib.Core.List.{flatten}

-- The starts from `start`, `size` apart and below `stop`.
unfoldable pub range_from : ℕ → ℕ → ℕ → ℕ → List ℕ
range_from zero start stop size = []
range_from (suc fuel) start stop size =
    let rest = range_from fuel (start + size) stop size in
    if ltb start stop then start ∷ rest else []

-- A positive `size` is given, so that `stop` rounds are enough.
unfoldable pub range : ℕ → ℕ → List ℕ
range stop size = range_from stop 0 stop size

module _ {A : Type 0} where
  unfoldable pub slice : List A → ℕ → ℕ → List A
  slice items size start = take size (drop start items)

  unfoldable pub slices : List A → ℕ → List (List A)
  slices items size = map (slice items size) (range (length items) size)

  -- Not empty, and no longer than the size.
  abbrev pub IsSlice : ℕ → List A → Type 0
  IsSlice size xs = (0 < length xs) × (length xs ≤ size)

  flatten-range_from :
      (fuel start size : ℕ) (items : List A)
      → 0 < size
      → length items ≤ start + fuel
      → flatten (map (slice items size) (range_from fuel start (length items) size))
        ≡ drop start items
  unfolding range_from slice flatten
  flatten-range_from zero start size items h e = sym (drop_of_length-le start items (omega arith))
  flatten-range_from (suc fuel) start size items h e =
      elim (Bool-cases (ltb start (length items))) [
        | inl y ↦ rw y (
            ap (λ l. take size (drop start items) ++ l)
              (flatten-range_from fuel (start + size) size items h (omega arith)
                ∙ drop-add start size items)
            ∙ take-append-drop size (drop start items))
        | inr n ↦ rw n (sym (drop_of_length-le start items (ground arith)))
      ]

  range_from-IsSlice :
      (fuel start size : ℕ) (items : List A)
      → 0 < size
      → All (IsSlice size) (map (slice items size) (range_from fuel start (length items) size))
  unfolding range_from slice
  range_from-IsSlice zero start size items h = tt
  range_from-IsSlice (suc fuel) start size items h = elim (Bool-cases (ltb start (length items))) [
    | inl y ↦
        let n : length (take size (drop start items)) ≡ min size (length items - start) =
          length-take size (drop start items) ∙ ap (λ k. min size k) (length-drop start items) in
        let lt : start < length items = ground arith in
        rw y ((omega arith, omega arith), range_from-IsSlice fuel (start + size) size items h)
    | inr n ↦ rw n tt
  ]

  pub flatten-slices : (items : List A) (size : ℕ) → 0 < size → flatten (slices items size) ≡ items
  unfolding slices range
  flatten-slices items size h = flatten-range_from (length items) 0 size items h (omega arith)

  pub slices-IsSlice :
      (items : List A) (size : ℕ) → 0 < size → All (IsSlice size) (slices items size)
  unfolding slices range
  slices-IsSlice items size h = range_from-IsSlice (length items) 0 size items h
