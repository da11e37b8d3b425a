-- ===== src/Indexing/Sources.antt =====
-- `_iter_source_batches` of indexing/coordinator.py: what a source's stream is cut into. A stream is the
-- finite list of what it yields, which the call that opens it fixes; an exception of the stream ends it.
use andnp_searchkernel.Prelude.{
  ℕ, ◌+◌, Option, none, some, String, List, [], ◌∷◌, ◌++◌, map, length, ltb, ◌==◌, if◌then◌else◌,
}
use andnp_searchkernel.Exec.{Exec, pure, raise, ◌>>=◌}
use andnp_searchkernel.Indexing.Receipts.{Cursor, Record, Error, type_error}
use andnp_searchkernel.Indexing.Slices.{range, slice}

-- What a stream yields: an item, a value of another type, or an exception.
pub data Yield (A : Type 0) : Type 0 where
  yielded : A → Yield A
  alien : Yield A
  broken : Error → Yield A

-- `SourceBatch`; `none` is a value that is no record.
pub record SourceBatch : Type 0 where
  pub records : List (Option Record)
  pub terminal_cursor : Cursor

-- `iter_batches` where the source has it, `iter_records`, and `cursor_for`; `none` is no async iterator.
pub record Source (W : Type 0) : Type 0 where
  pub source_kind : String
  pub iter_batches : Option (Cursor → Exec Error W (Option (List (Yield SourceBatch))))
  pub iter_records : Cursor → Exec Error W (Option (List (Yield Record)))
  pub cursor_for : Record → Cursor

-- What `_iter_source_batches` gives: records with their terminal cursor, or an exception.
pub data Pull : Type 0 where
  pulled : List Record → Cursor → Pull
  failing : Error → Pull

-- `_validate_records`.
unfoldable pub validate_records : List (Option Record) → Option (List Record)
validate_records [] = some []
validate_records (none ∷ values) = none
validate_records (some r ∷ values) = elim (validate_records values) [
  | none ↦ none
  | some records ↦ some (r ∷ records)
]

-- `range(0, len(records), batch_size) or (0,)`.
abbrev pub or_zero : List ℕ → List ℕ
or_zero [] = 0 ∷ []
or_zero (start ∷ starts) = start ∷ starts

-- The body of the loop over the offsets.
unfoldable pub pull_at : ℕ → List Record → Cursor → ℕ → Pull
pull_at batch_size records terminal_cursor offset =
    let bounded = slice records batch_size offset in
    pulled bounded (if offset + length bounded == length records then terminal_cursor else none)

unfoldable pub batch_pulls : ℕ → List Record → Cursor → List Pull
batch_pulls batch_size records terminal_cursor =
    map (pull_at batch_size records terminal_cursor) (or_zero (range (length records) batch_size))

abbrev pub checked_pulls : ℕ → Option (List Record) → Cursor → List Pull → List Pull
checked_pulls batch_size none terminal_cursor rest =
    failing (type_error "source yielded a non-Record value") ∷ []
checked_pulls batch_size (some records) terminal_cursor rest =
    batch_pulls batch_size records terminal_cursor ++ rest

-- The loop over the batches of a `BatchContentSource`.
unfoldable pub pulls_of_batches : ℕ → List (Yield SourceBatch) → List Pull
pulls_of_batches batch_size [] = []
pulls_of_batches batch_size (alien ∷ stream) =
    failing (type_error "source yielded an invalid SourceBatch") ∷ []
pulls_of_batches batch_size (broken e ∷ stream) = failing e ∷ []
pulls_of_batches batch_size (yielded b ∷ stream) =
    checked_pulls batch_size (validate_records b.records) b.terminal_cursor
      (pulls_of_batches batch_size stream)

abbrev pub last_of : Record → List Record → Record
last_of r [] = r
last_of r (q ∷ batch) = last_of q batch

-- The loop over the records of a `ContentSource`, with the open batch; a full batch is under the cursor of
-- its last record.
unfoldable pub pulls_of_records :
    (Record → Cursor) → ℕ → List (Yield Record) → List Record → List Pull
pulls_of_records cursor_for batch_size [] [] = []
pulls_of_records cursor_for batch_size [] (r ∷ batch) =
    pulled (r ∷ batch) (cursor_for (last_of r batch)) ∷ []
pulls_of_records cursor_for batch_size (alien ∷ stream) batch =
    failing (type_error "ContentSource yielded a non-Record value") ∷ []
pulls_of_records cursor_for batch_size (broken e ∷ stream) batch = failing e ∷ []
pulls_of_records cursor_for batch_size (yielded r ∷ stream) batch =
    let more = pulls_of_records cursor_for batch_size stream (batch ++ r ∷ []) in
    let full =
      pulled (batch ++ r ∷ []) (cursor_for r) ∷ pulls_of_records cursor_for batch_size stream [] in
    if ltb (length (batch ++ r ∷ [])) batch_size then more else full

module _ {W : Type 0} (source : Source W) (batch_size : ℕ) where
  abbrev pub batches_opened : Option (List (Yield SourceBatch)) → Exec Error W (List Pull)
  batches_opened none =
      raise (type_error "BatchContentSource.iter_batches must return an async iterator")
  batches_opened (some stream) = pure (pulls_of_batches batch_size stream)

  abbrev pub records_opened : Option (List (Yield Record)) → Exec Error W (List Pull)
  records_opened none =
      raise (type_error "ContentSource.iter_records must return an async iterator")
  records_opened (some stream) = pure (pulls_of_records source.cursor_for batch_size stream [])

  abbrev pub open_with :
      Option (Cursor → Exec Error W (Option (List (Yield SourceBatch))))
      → Cursor
      → Exec Error W (List Pull)
  open_with (some iter_batches) since = iter_batches since >>= batches_opened
  open_with none since = source.iter_records since >>= records_opened

  -- `_iter_source_batches`.
  unfoldable pub iter_source_batches : Cursor → Exec Error W (List Pull)
  iter_source_batches since = open_with source.iter_batches since
