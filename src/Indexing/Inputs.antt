-- ===== src/Indexing/Inputs.antt =====
-- The inputs for records and chunks, of indexing/semantic.py, and the storage key of a record,
-- domain/models.py. A record whose identity is not valid has no key.
use Prim.Native.String.{◌++◌ as append}
use andnp_searchkernel.Prelude.{
  Option, none, some, Bool, false, String, str_eq, List, [], ◌∷◌, if◌then◌else◌,
}
use andnp_searchkernel.Exec.{Result, ok, err}
use andnp_searchkernel.Indexing.Receipts.{Record, Error, value_error}
use andnp_searchkernel.Indexing.Parts.{Chunk}
use andnp_searchkernel.Indexing.Semantic.{
  SemanticTier, SemanticInput, Embedding, SemanticWorkPlanner,
}

abbrev is_blank : Option String → Bool
is_blank none = false
is_blank (some w) = str_eq w ""

abbrev indexed_content : Record → String
indexed_content r = elim r.indexed_text [
  | none ↦ r.body
  | some t ↦ if str_eq t "" then r.body else t
]

unfoldable pub build_embedding_text : String → String → String
build_embedding_text header_path content =
    if str_eq header_path "" then content else append header_path (append "\n\n" content)

abbrev pub cons_ok :
    Result Error SemanticInput
    → Result Error (List SemanticInput)
    → Result Error (List SemanticInput)
cons_ok (ok input) (ok inputs) = ok (input ∷ inputs)
cons_ok (ok input) (err e) = err e
cons_ok (err e) inputs = err e

module _ {W F : Type 0} (parts : Embedding W F) where
  -- `canonical_storage_key`.
  abbrev pub canonical_storage_key : Option String → String → String → Result Error String
  canonical_storage_key workspace_id source_kind source_id =
      if is_blank workspace_id
      then err (value_error "workspace_id must not be empty")
      else if str_eq source_kind ""
      then err (value_error "source_kind must not be empty")
      else if str_eq source_id ""
      then err (value_error "source_id must not be empty")
      else ok
          (append "record:" (parts.dumps (workspace_id ∷ some source_kind ∷ some source_id ∷ [])))

  -- `Record.storage_key`, with the checks of `RecordIdentity`, which are the same.
  unfoldable pub storage_key : Record → Result Error String
  storage_key r = canonical_storage_key r.workspace_id r.source_kind r.source_id

  module _ (planner : SemanticWorkPlanner) where
    -- The input under a key, with the default tier and priority.
    unfoldable pub input_with : Record → String → SemanticInput
    input_with r key =
        let content = indexed_content r in
        let text =
          if str_eq r.title ""
          then content
          else append "Title: " (append r.title (append "\n\n" content)) in
        record {
          source_id = key;
          text = text;
          content_hash = parts.embedding_identity text planner.encoder_namespace;
          tier = SemanticTier.fine;
          priority = 0;
        }

    abbrev pub keyed_input : Record → Result Error String → Result Error SemanticInput
    keyed_input r (ok key) = ok (input_with r key)
    keyed_input r (err e) = err e

    -- `semantic_input_for_record`.
    unfoldable pub semantic_input_for_record : Record → Result Error SemanticInput
    semantic_input_for_record r = keyed_input r (storage_key r)

    -- The inputs of the records, or the error of the first that has none.
    unfoldable pub inputs_for : List Record → Result Error (List SemanticInput)
    inputs_for [] = ok []
    inputs_for (r ∷ records) = cons_ok (semantic_input_for_record r) (inputs_for records)

  -- `semantic_input_for_chunk`, with the default tier and priority.
  unfoldable pub semantic_input_for_chunk : {D : Type 0} → String → Chunk D → SemanticInput
  semantic_input_for_chunk encoder_namespace c =
      let text = build_embedding_text c.header_path c.content in
      record {
        source_id = c.chunk_id;
        text = text;
        content_hash = parts.embedding_identity text encoder_namespace;
        tier = SemanticTier.fine;
        priority = 0;
      }
