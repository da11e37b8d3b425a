-- ===== src/Indexing/Behind.antt =====
-- The cursor in the checkpoint store, and the records of indexing/coordinator.py that are behind it.
use andnp_searchkernel.Prelude.{◌≡◌, List, [], ◌∷◌, ◌⊎◌, All, String}
use andnp_searchkernel.Indexing.Receipts.{Cursor, Record}
use andnp_searchkernel.Indexing.Placement.{IsSound, All-map}
use andnp_searchkernel.Indexing.Parts.{Coordinator}
use andnp_searchkernel.Indexing.Sources.{Pull, pulled, failing}
use andnp_searchkernel.Indexing.Inputs.{storage_key}
use andnp_searchkernel.Exec.{ok}
use andnp_searchkernel.Indexing.Calm.{Later}

module _ {W F D : Type 0} (parts : Coordinator W F D) (Good : String → List F → W → Type 0)
    (stored : W → Cursor) where
  -- A sound vector is in place under the record's storage key.
  abbrev pub IsPlaced : W → Record → Type 0
  IsPlaced w r =
      (key : String) × (vector : List F) × (storage_key parts.embedding r ≡ ok key)
      × IsSound parts.embedding parts.planner vector
      × Good key vector w

  pub All-IsPlaced-Later :
      (rs : List Record) (w w' : W)
      → Later Good stored w w'
      → All (IsPlaced w) rs
      → All (IsPlaced w') rs
  All-IsPlaced-Later rs w w' l = All-map _ _ (λ r p. (p.0, p.1, p.2, p.3, l p.0 p.1 p.4)) rs

  -- The cursor is the terminal one of a pull, and the records up to it are placed.
  abbrev pub Behind : List Pull → Cursor → W → Type 0
  Behind [] c w = ⊥
  Behind (failing e ∷ pulls) c w = ⊥
  Behind (pulled rs terminal ∷ pulls) c w =
      All (IsPlaced w) rs × ((c ≡ terminal) ⊎ Behind pulls c w)
