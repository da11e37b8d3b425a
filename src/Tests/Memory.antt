-- ===== src/Tests/Memory.antt =====
-- A store and an index in memory, and a source of three records, for the tests of the indexing.
use andnp_searchkernel.Prelude.{
  ℕ, ◌≡◌, refl, Option, ◌⊎◌, inl, inr, true, false, none, some, String, List, [], ◌∷◌, map, str_eq,
  if◌then◌else◌,
}
use andnp_searchkernel.Exec.{pure, modify, reads}
use andnp_searchkernel.Indexing.Receipts.{Cursor, Record, IngestionFailureMode}
use andnp_searchkernel.Indexing.Semantic.{
  SemanticInput, SemanticTier, Embedding, SemanticWorkPlanner,
}
use andnp_searchkernel.Indexing.Placement.{Effects}
use Prim.Native.String.{◌++◌ as append}
use andnp_searchkernel.Indexing.Parts.{CheckpointStore, RecordIngestor, Coordinator, Options}
use andnp_searchkernel.Indexing.Runner.{committed_result}
use andnp_searchkernel.Indexing.Sources.{Source, yielded}
use andnp_searchkernel.Indexing.Calm.{Steady, Steady-IsGrowth, Collaborates}

pub record Memory : Type 0 where
  pub vectors : List (String × List ℕ)
  pub cursor : Cursor

abbrev pub empty : Memory
empty = record { vectors = []; cursor = none }

-- An earlier run has left the cursor of the first note.
abbrev pub resumed : Memory
resumed = record empty { cursor = some "a" }

abbrev pub Listed : String → List ℕ → List (String × List ℕ) → Type 0
Listed id vector [] = ⊥
Listed id vector ((j, v) ∷ d) = ((j ≡ id) × (v ≡ vector)) ⊎ Listed id vector d

abbrev pub Good : String → List ℕ → Memory → Type 0
Good id vector w = Listed id vector w.vectors

abbrev pub stored : Memory → Cursor
stored w = w.cursor

abbrev pub joined : List (Option String) → String
joined [] = ""
joined (none ∷ parts) = append "," (joined parts)
joined (some part ∷ parts) = append part (append "," (joined parts))

abbrev pub embedding : Embedding Memory ℕ
embedding = record {
  embedding_identity = λ text namespace. text;
  is_finite = λ c. true;
  dumps = joined;
  get_many = λ hashes. pure [];
  put_many = λ vectors. pure tt;
  encode = λ texts. pure (map (λ t. 1 ∷ []) texts);
  materialize = λ id vector item. modify (λ w. record w { vectors = (id, vector) ∷ w.vectors });
  report = none;
}

pub embedding-Effects : Effects embedding (Steady Good stored) Good
unfolding pure modify
embedding-Effects = record {
  growth = Steady-IsGrowth Good stored;
  lasts = λ id vector w w' b g. b.0 id vector g;
  gets = λ hashes w. (λ id v g. g, refl);
  puts = λ vectors w. (λ id v g. g, refl);
  encodes = λ texts w. (λ id v g. g, refl);
  materializes =
      λ id vector item w. record { before = (λ j v g. inr g, refl); returned = inl (refl, refl) };
  reports = tt;
}

abbrev pub planner : SemanticWorkPlanner
planner = record { encoder_namespace = "m"; dimension = 1 }

abbrev pub input_of : String → SemanticInput
input_of id = record {
  source_id = id;
  text = "t";
  content_hash = "";
  tier = SemanticTier.fine;
  priority = 0;
}

abbrev pub store : CheckpointStore Memory
store = record {
  load = λ kind workspace. reads (λ w. w.cursor);
  save = λ kind workspace c. modify (λ w. record w { cursor = c });
}

abbrev pub note : String → Record
note id = record {
  source_kind = "note";
  source_id = id;
  title = "";
  body = id;
  indexed_text = none;
  workspace_id = none;
}

abbrev pub committing : RecordIngestor Memory
committing records c mode = pure record {
  source_kind = "note";
  workspace_id = none;
  checkpoint = c;
  records = map committed_result records;
  cancelled = false;
}

abbrev pub coordinator : Coordinator Memory ℕ ℕ
coordinator = record {
  planner = planner;
  embedding = embedding;
  record_ingestor = some committing;
  stages = [];
  checkpoint_store = some store;
}

abbrev pub options : Options Memory
options = record {
  source_kind = "note";
  workspace_id = none;
  failure_mode = IngestionFailureMode.lenient;
  progress = none;
  availability = none;
}

-- The records behind the one of this name.
abbrev behind : String → List Record → List Record
behind id [] = []
behind id (r ∷ records) = if str_eq r.source_id id then records else behind id records

abbrev after : Cursor → List Record → List Record
after none records = records
after (some id) records = behind id records

-- A source that yields the records after the supplied cursor.
abbrev pub notes : Source Memory
notes = record {
  source_kind = "note";
  iter_batches = none;
  iter_records =
      λ since. pure (some (map yielded (after since (note "a" ∷ note "b" ∷ note "c" ∷ []))));
  cursor_for = λ r. some r.source_id;
}

pub coordinator-Collaborates : Collaborates Good stored coordinator options
unfolding pure
coordinator-Collaborates = record {
  embeds = embedding-Effects;
  ingests = λ records c mode w. (λ id v g. g, refl);
  staging = tt;
  reports = tt;
}
