-- ===== src/Indexing/Receipts.antt =====
-- The receipts and errors of ports/content_source.py, and the part of domain/models.py's `Record` that
-- the indexing reads. The text of an error is kept as the parts that it is put together from.
use andnp_searchkernel.Prelude.{
  ℕ, ◌+◌, Option, none, some, String, str_eq, Bool, true, false, List, [], ◌∷◌, map, if◌then◌else◌,
  ◌&&◌,
}
use andnp_searchkernel.Exec.{Exec, raise}

abbrev pub Cursor : Type 0
Cursor = Option String

pub record Record : Type 0 where
  pub source_kind : String
  pub source_id : String
  pub title : String
  pub body : String
  pub indexed_text : Option String
  pub workspace_id : Option String

pub data IngestionFailureMode : Type 0 where
  strict lenient : IngestionFailureMode

pub data RecordIngestionStatus : Type 0 where
  committed skipped failed cancelled : RecordIngestionStatus

-- A text, the text of an `IngestionError`, and `f"{type(error).__name__}: {error}"`.
pub data Text : Type 0 where
  text : String → Text
  ingest_failed : ℕ → String → Text
  named : String → Text → Text

pub record RecordIngestionResult : Type 0 where
  pub source_kind : String
  pub source_id : String
  pub workspace_id : Option String
  pub status : RecordIngestionStatus
  pub cursor : Cursor
  pub error : Option Text

pub record IngestionReceipt : Type 0 where
  pub source_kind : String
  pub workspace_id : Option String
  pub checkpoint : Cursor
  pub records : List RecordIngestionResult
  pub cancelled : Bool

abbrev pub is_failed : RecordIngestionStatus → Bool
is_failed RecordIngestionStatus.failed = true
is_failed _ = false

-- `IngestionReceipt.failed`, over its records.
unfoldable pub count_failed : List RecordIngestionResult → ℕ
count_failed [] = 0
count_failed (r ∷ rs) = (if is_failed r.status then 1 else 0) + count_failed rs

-- An `Exception`: an `IngestionError`, or another with the name of its type and its text.
pub data Exception : Type 0 where
  exception : String → Text → Exception
  ingestion : IngestionReceipt → Exception

-- What is raised: an `Exception`, or a cancellation, which no handler of the coordinator takes.
pub data Error : Type 0 where
  raised : Exception → Error
  interrupt : Error

abbrev pub value_error : String → Error
value_error message = raised (exception "ValueError" (text message))

abbrev pub type_error : String → Error
type_error message = raised (exception "TypeError" (text message))

abbrev pub type_name : Exception → String
type_name (exception name message) = name
type_name (ingestion receipt) = "IngestionError"

-- `str(error)`.
abbrev pub message_of : Exception → Text
message_of (exception name message) = message
message_of (ingestion receipt) = ingest_failed (count_failed receipt.records) receipt.source_kind

-- A handler `except Exception as error`.
unfoldable pub on_exception : {S A : Type 0} → (Exception → Exec Error S A) → Error → Exec Error S A
on_exception handler (raised e) = handler e
on_exception handler interrupt = raise interrupt

abbrev workspace_eq : Option String → Option String → Bool
workspace_eq none none = true
workspace_eq (some a) (some b) = str_eq a b
workspace_eq _ _ = false

abbrev all_in : Option String → List (Option String) → Bool
all_in w [] = true
all_in w (v ∷ vs) = workspace_eq w v && all_in w vs

-- `_single_workspace`, over the workspaces of the records.
unfoldable pub single_workspace : List (Option String) → Option String
single_workspace [] = none
single_workspace (w ∷ ws) = if all_in w ws then w else none

-- `workspace_id or …`, where an empty text counts as none.
abbrev pub workspace_or : Option String → Option String → Option String
workspace_or none other = other
workspace_or (some w) other = if str_eq w "" then other else some w

-- `_failed_result`.
unfoldable pub failed_result : Text → Record → RecordIngestionResult
failed_result error r = record {
  source_kind = r.source_kind;
  source_id = r.source_id;
  workspace_id = r.workspace_id;
  status = RecordIngestionStatus.failed;
  cursor = none;
  error = some error;
}

-- `_failed_receipt`.
unfoldable pub failed_receipt :
    String → Option String → Cursor → List Record → Exception → IngestionReceipt
failed_receipt source_kind workspace_id checkpoint records error = record {
  source_kind = source_kind;
  workspace_id = workspace_or workspace_id (single_workspace (map (λ r. r.workspace_id) records));
  checkpoint = checkpoint;
  records = map (failed_result (named (type_name error) (message_of error))) records;
  cancelled = false;
}

-- The receipt that the stages' and the planner's handlers raise with, over results of their own.
abbrev pub receipt_of :
    String → Option String → Cursor → List RecordIngestionResult → IngestionReceipt
receipt_of source_kind workspace_id checkpoint records = record {
  source_kind = source_kind;
  workspace_id = workspace_id;
  checkpoint = checkpoint;
  records = records;
  cancelled = false;
}
