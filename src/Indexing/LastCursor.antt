-- ===== src/Indexing/LastCursor.antt =====
-- The cursor that `run_source` of indexing/coordinator.py ends with, over a source of records.
use andnp_searchkernel.Prelude.{
  ℕ, ◌≡◌, refl, ap, ◌∙◌, true, Bool-cases, inl, inr, ltb, none, some, is_some, List, [], ◌∷◌, ◌++◌,
  map, length, arith,
}
use andnp_searchkernel.Indexing.Receipts.{Cursor, Record}
use andnp_searchkernel.Indexing.Sources.{yielded, Pull, pulled, failing, last_of, pulls_of_records}

-- The cursor after a batch with this terminal cursor.
abbrev pub after : Cursor → Cursor → Cursor
after current none = current
after current (some c) = some c

-- The cursor after the pulls.
abbrev pub last_cursor : List Pull → Cursor → Cursor
last_cursor [] c = c
last_cursor (failing x ∷ pulls) c = c
last_cursor (pulled records d ∷ pulls) c = last_cursor pulls (after c d)

abbrev pub NoneFails : List Pull → Type 0
NoneFails [] = Unit
NoneFails (failing x ∷ pulls) = ⊥
NoneFails (pulled records d ∷ pulls) = NoneFails pulls

module _ (cursor_for : Record → Cursor) where
  pub NoneFails-pulls_of_records :
      (size : ℕ) (records batch : List Record)
      → NoneFails (pulls_of_records cursor_for size (map yielded records) batch)
  unfolding pulls_of_records
  NoneFails-pulls_of_records size [] [] = tt
  NoneFails-pulls_of_records size [] (r ∷ batch) = tt
  NoneFails-pulls_of_records size (r ∷ records) batch =
      elim (Bool-cases (ltb (length (batch ++ r ∷ [])) size)) [
        | inl more ↦ rw more (NoneFails-pulls_of_records size records (batch ++ r ∷ []))
        | inr full ↦ rw full (NoneFails-pulls_of_records size records [])
      ]

  last_of-snoc :
      (r : Record) (batch : List Record) (last : Record) → last_of r (batch ++ last ∷ []) ≡ last
  last_of-snoc r [] last = refl
  last_of-snoc r (q ∷ batch) last = last_of-snoc q batch last

  last_cursor-last :
      (size : ℕ) (batch : List Record) (last : Record) (c : Cursor)
      → last_cursor (pulls_of_records cursor_for size [] (batch ++ last ∷ [])) c
        ≡ after c (cursor_for last)
  unfolding pulls_of_records
  last_cursor-last size [] last c = refl
  last_cursor-last size (q ∷ batch) last c =
      ap (λ r. after c (cursor_for r)) (last_of-snoc q batch last)

  -- The last record's cursor comes last.
  pub last_cursor-pulls_of_records :
      (size : ℕ) (before batch : List Record) (last : Record) (c d : Cursor)
      → is_some d ≡ true
      → cursor_for last ≡ d
      → last_cursor (pulls_of_records cursor_for size (map yielded (before ++ last ∷ [])) batch) c
        ≡ d
  unfolding pulls_of_records
  last_cursor-pulls_of_records size before batch last c none y x = absurd (ground arith)
  last_cursor-pulls_of_records size [] batch last c (some d) y x =
      let ends : after c (cursor_for last) ≡ some d = rw x refl in
      elim (Bool-cases (ltb (length (batch ++ last ∷ [])) size)) [
        | inl more ↦ rw more (last_cursor-last size batch last c ∙ ends)
        | inr full ↦ rw full ends
      ]
  last_cursor-pulls_of_records size (r ∷ before) batch last c (some d) y x =
      elim (Bool-cases (ltb (length (batch ++ r ∷ [])) size)) [
        | inl more ↦
            rw more (last_cursor-pulls_of_records size before (batch ++ r ∷ []) last c (some d) y x)
        | inr full ↦
            rw full (
              last_cursor-pulls_of_records size before [] last (after c (cursor_for r)) (some d) y
                x)
      ]
