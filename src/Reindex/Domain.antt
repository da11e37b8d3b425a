-- ===== src/Reindex/Domain.antt =====
-- domain/reindex.py: the values of an embedding-model migration.
use Prim.Native.Char.{code}
use andnp_searchkernel.Prelude.{
  ℕ, ◌≡◌, refl, ◌↔◌, Bool, true, false, ◌&&◌, ◌||◌, Option, none, some, String, List, [], ◌∷◌,
  arith, leb, ltb, ◌==◌, str_eq, eq_iff, if◌then◌else◌,
}
use andnp_searchkernel.Exec.{Result, ok, err}

-- The formatted messages of the code, as the parts that they are formatted from.
pub data Message : Type 0 where
  text : String → Message
  about : String → Message → Message
  batch_failed : ℕ → Message → Message
  counts : String → ℕ → ℕ → Message
  joined : String → List String → Message

-- `ReindexError`, `ModelDimensionMismatchError`, and every other exception of Python or a store.
pub data Error : Type 0 where
  reindex : Message → Error
  dimension_mismatch : Message → Error
  other : Message → Error

pub message : Error → Message
message (reindex m) = m
message (dimension_mismatch m) = m
message (other m) = m

-- `str.isspace` of one code point.
unfoldable pub is_space : ℕ → Bool
is_space c =
    (leb 9 c && leb c 13)
    || (leb 28 c && leb c 32)
    || c == 133
    || c == 160
    || c == 5760
    || (leb 8192 c && leb c 8202)
    || c == 8232
    || c == 8233
    || c == 8239
    || c == 8287
    || c == 12288

-- `not s.strip()`.
unfoldable pub is_blank : String → Bool
unfolding is_space
is_blank String.[] = true
is_blank (String.◌∷◌ c s) = is_space (code c) && is_blank s

pub record ModelNamespace : Type 0 where
  pub model_name : String
  pub dim : ℕ

unfoldable pub make_namespace : String → ℕ → Result Error ModelNamespace
unfolding is_blank
make_namespace model_name dim =
    if is_blank model_name
    then err (other (text "model_name must not be empty"))
    else if ltb dim 1
    then err (other (text "dim must be a positive integer"))
    else ok (record { model_name = model_name; dim = dim })

unfoldable pub ns_eq : ModelNamespace → ModelNamespace → Bool
ns_eq a b = str_eq a.model_name b.model_name && a.dim == b.dim

pub ns_eq_iff : (a b : ModelNamespace) → (ns_eq a b ≡ true) ↔ (a ≡ b)
unfolding ns_eq
ns_eq_iff a b = ground (arith, eq_iff a.model_name b.model_name)

pub data MigrationPhase : Type 0 where
  init expand backfill validate flip contract rollback complete failed : MigrationPhase

abbrev pub phase_code : MigrationPhase → ℕ
phase_code init = 0
phase_code expand = 1
phase_code backfill = 2
phase_code validate = 3
phase_code flip = 4
phase_code contract = 5
phase_code rollback = 6
phase_code complete = 7
phase_code failed = 8

abbrev pub phase_eq : MigrationPhase → MigrationPhase → Bool
phase_eq a b = phase_code a == phase_code b

pub phase_eq→eq : (a b : MigrationPhase) → phase_eq a b ≡ true → a ≡ b
phase_eq→eq a b h = ground arith

pub record ActiveModelMetadata : Type 0 where
  pub model : ModelNamespace
  pub generation : ℕ
  pub activated_at : Option String

option_eq : {A : Type 0} → (A → A → Bool) → Option A → Option A → Bool
option_eq eq none none = true
option_eq eq none (some b) = false
option_eq eq (some a) none = false
option_eq eq (some a) (some b) = eq a b

-- `==` of two optional serving metadata, as the dataclass compares them.
unfoldable pub active_eq : Option ActiveModelMetadata → Option ActiveModelMetadata → Bool
unfolding option_eq ns_eq
active_eq = option_eq λ a b.
    ns_eq a.model b.model
    && a.generation == b.generation
    && option_eq str_eq a.activated_at b.activated_at

pub active_eq_self : (a : Option ActiveModelMetadata) → active_eq a a ≡ true
unfolding active_eq option_eq ns_eq
active_eq_self none = refl
active_eq_self (some a) =
    let name = (eq_iff a.model.model_name a.model.model_name).1 refl in
    rw (name, at_self a.activated_at) (ground arith)
  where
    at_self : (t : Option String) → option_eq str_eq t t ≡ true
    at_self none = refl
    at_self (some t) = (eq_iff t t).1 refl

pub record ValidationResult : Type 0 where
  pub evidence_for : ModelNamespace
  pub expected_records : ℕ
  pub indexed_records : ℕ
  pub errors : List String
  pub checked_at : Option String

-- `ValidationResult.passed`.
unfoldable pub passed : ValidationResult → Bool
passed v = is_empty v.errors && v.expected_records == v.indexed_records
  where
    is_empty : List String → Bool
    is_empty [] = true
    is_empty (e ∷ es) = false

pub record BackupMetadata : Type 0 where
  pub backup_id : String
  pub backup_of : ModelNamespace
  pub reference : String
  pub created_at : Option String

pub record RollbackMetadata : Type 0 where
  pub from_namespace : ModelNamespace
  pub to_namespace : ModelNamespace
  pub backup_id : String
  pub reason : String
  pub rolled_back_at : Option String

pub record MigrationState : Type 0 where
  pub migration_id : String
  pub source : ModelNamespace
  pub target : ModelNamespace
  pub phase : MigrationPhase
  pub validation : Option ValidationResult
  pub backup : Option BackupMetadata
  pub rollback_evidence : Option RollbackMetadata
  pub error : Option Message
  pub resume_phase : Option MigrationPhase
  pub checkpoint : ℕ
  pub attempts : ℕ
  pub total_records : Option ℕ
  pub corpus_fingerprint : Option String

blank_option : Option String → Bool
unfolding is_blank
blank_option none = false
blank_option (some s) = is_blank s

-- `MigrationState(…)` with the defaults of the fields that a new migration leaves out, and
-- `__post_init__`.
unfoldable pub make_state :
    String
    → ModelNamespace
    → ModelNamespace
    → Option ℕ
    → Option String
    → Result Error MigrationState
unfolding is_blank ns_eq blank_option
make_state migration_id source target total_records corpus_fingerprint =
    if is_blank migration_id
    then err (other (text "migration_id must not be empty"))
    else if ns_eq source target
    then err (other (text "source and target namespaces must differ"))
    else if blank_option corpus_fingerprint
    then err (other (text "corpus_fingerprint must be non-empty or None"))
    else ok (record {
      migration_id = migration_id;
      source = source;
      target = target;
      phase = init;
      validation = none;
      backup = none;
      rollback_evidence = none;
      error = none;
      resume_phase = none;
      checkpoint = 0;
      attempts = 0;
      total_records = total_records;
      corpus_fingerprint = corpus_fingerprint;
    })
