-- ===== src/Reindex/Keeps/State.antt =====
-- What loading, checking and creating the durable state keeps.
use andnp_searchkernel.Prelude.{
  List, [], ◌∷◌, ℕ, ◌≡◌, Option, none, some, String, arith, ap, sym, ◌∙◌,
}
use andnp_searchkernel.Exec.{ok}
use andnp_searchkernel.Exec.Triple.{
  Triple, Any, Triple-pure, Triple-raise, Triple-reads, Triple-if, Triple-weaken, ◌⨾◌,
}
use andnp_searchkernel.Reindex.Domain.{
  MigrationState, make_state, ModelNamespace, ActiveModelMetadata, ns_eq, ns_eq_iff,
}
use andnp_searchkernel.Reindex.Ports.{
  Cursor, Total, count, invalid, Corpus, sequence, source, Routine,
}
use andnp_searchkernel.Reindex.State
use andnp_searchkernel.Reindex.Consistent.{IsConsistent, IsSaved, StoresKeep}
use andnp_searchkernel.Reindex.Keeps.Rules.{On, Triple-call, Triple-lift, rules}

module _ {S : Type 0} {P : S → Type 0} where
  pub Triple-check_namespace_dimensions :
      (a b : ModelNamespace) → Triple P (State.check_namespace_dimensions a b) Any
  unfolding State.check_namespace_dimensions
  Triple-check_namespace_dimensions a b = search rules

  pub Triple-reject_failed : (s : MigrationState) → Triple P (State.reject_failed s) Any
  unfolding State.reject_failed
  Triple-reject_failed s = search rules

  pub Triple-check_old_model_name :
      (s : MigrationState) (old : Option String) → Triple P (State.check_old_model_name s old) Any
  unfolding State.check_old_model_name
  Triple-check_old_model_name s none = search rules
  Triple-check_old_model_name s (some old) = search rules

  pub Triple-checked_total : (t : Option Total) → Triple P (State.checked_total t) Any
  unfolding State.checked_total
  Triple-checked_total none = search rules
  Triple-checked_total (some (count n)) = search rules
  Triple-checked_total (some invalid) = search rules

  pub Triple-check_total : (a b : Option ℕ) → Triple P (State.check_total a b) Any
  unfolding State.check_total
  Triple-check_total none b = search rules
  Triple-check_total (some a) none = search rules
  Triple-check_total (some a) (some b) = search rules

  pub Triple-require_cursor : (c : Option Cursor) → Triple P (State.require_cursor c) Any
  unfolding State.require_cursor
  Triple-require_cursor none = search rules
  Triple-require_cursor (some c) = search rules

-- What a method starts from: a consistent state for the target of the routine.
abbrev pub IsLoaded : {W R F : Type 0} → Routine W R F → MigrationState → Type 0
IsLoaded r s = IsConsistent s × (State.target_namespace r ≡ ok s.target)

make_state-IsConsistent :
    (id : String) (from to : ModelNamespace) (total : Option ℕ) (fingerprint : Option String)
    (s : MigrationState)
    → make_state id from to total fingerprint ≡ ok s
    → IsConsistent s
unfolding make_state
make_state-IsConsistent id from to total fingerprint s e = ground arith

target-make_state :
    (id : String) (from to : ModelNamespace) (total : Option ℕ) (fingerprint : Option String)
    (s : MigrationState)
    → make_state id from to total fingerprint ≡ ok s
    → s.target ≡ to
unfolding make_state
target-make_state id from to total fingerprint s e = ground arith

module _ {W R F : Type 0} (r : Routine W R F) {P : W → Type 0} (h : StoresKeep r P) where
  pub Triple-source_total : (c : Corpus W R) → Triple (On P) (State.source_total r c) Any
  unfolding State.source_total
  Triple-source_total (sequence records) = search rules
  Triple-source_total (source total fetch) = Triple-reads _ ⨾ λ t _. Triple-checked_total t

  pub Triple-corpus_total : (c : Corpus W R) → Triple (On P) (State.corpus_total r c) Any
  unfolding State.corpus_total
  Triple-corpus_total (sequence records) = search rules
  Triple-corpus_total (source total fetch) = Triple-source_total (source total fetch)

  known_or : (o : Option ℕ) → Triple (On P) (State.known_or r o) Any
  unfolding State.known_or
  known_or none = Triple-corpus_total r.corpus
  known_or (some n) = Triple-pure (some n) tt

  pub Triple-total_records : (s : MigrationState) → Triple (On P) (State.total_records r s) Any
  unfolding State.total_records
  Triple-total_records s = known_or s.total_records

  identities : (records : List R) → Triple (On P) (State.identities r records) Any
  unfolding State.identities
  identities [] = Triple-pure [] tt
  identities (a ∷ records) = Triple-lift (r.storage_key a) ⨾ λ key _.
      Triple-lift (r.semantic_text a) ⨾ λ t _. identities records ⨾ λ rest _. Triple-pure _ tt

  corpus_fingerprint : (c : Corpus W R) → Triple (On P) (State.corpus_fingerprint r c) Any
  unfolding State.corpus_fingerprint State.sequence_fingerprint
  corpus_fingerprint (sequence records) = identities records ⨾ λ payload _. Triple-pure _ tt
  corpus_fingerprint (source total fetch) = Triple-pure _ tt

  check_corpus :
      (c : Corpus W R) (s : MigrationState) (f g : String)
      → Triple (On P) (State.check_corpus r c s f g) Any
  unfolding State.check_corpus
  check_corpus (sequence records) s f g = search (rules, Triple-check_total)
  check_corpus (source total fetch) s f g = Triple-require_cursor _ ⨾ λ _ _.
      Triple-source_total (source total fetch) ⨾ λ found _. Triple-check_total s.total_records found

  check_fingerprint :
      (s : MigrationState) (f : Option String) (g : String)
      → Triple (On P) (State.check_fingerprint r s f g) Any
  unfolding State.check_fingerprint
  check_fingerprint s none g = search rules
  check_fingerprint s (some f) g = check_corpus r.corpus s f g

  check_source :
      (given : Option ModelNamespace) (ns : ModelNamespace)
      → Triple (On P) (State.check_source r given ns) Any
  unfolding State.check_source
  check_source none ns = search rules
  check_source (some given) ns = search rules

  accept_saved :
      (s : MigrationState) (target : ModelNamespace) (g : String)
      → IsConsistent s
      → State.target_namespace r ≡ ok target
      → Triple (On P) (State.accept_saved r s target g) (IsLoaded r)
  unfolding State.accept_saved
  accept_saved s target g c e =
      Triple-if (ns_eq s.target target) _ _
        (λ same. Triple-check_namespace_dimensions s.source s.target ⨾ λ _ _.
          check_source r.source_namespace s.source ⨾ λ _ _.
          check_fingerprint s s.corpus_fingerprint g ⨾ λ _ _.
          Triple-pure s (c, e ∙ ap ok (sym ((ns_eq_iff s.target target).0 same))))
        (λ _. Triple-raise _)

  require_active : (a : Option ActiveModelMetadata) → Triple (On P) (State.require_active r a) Any
  unfolding State.require_active
  require_active none = search rules
  require_active (some a) = search rules

  source_for_new : (o : Option ModelNamespace) → Triple (On P) (State.source_for_new r o) Any
  unfolding State.source_for_new
  source_for_new none = Triple-call _ h.active ⨾ λ a _. require_active a
  source_for_new (some ns) = search rules

  create_state :
      (target : ModelNamespace) (g : String)
      → State.target_namespace r ≡ ok target
      → Triple (On P) (State.create_state r target g) (IsLoaded r)
  unfolding State.create_state
  create_state target g e = source_for_new r.source_namespace ⨾ λ from _.
      Triple-check_namespace_dimensions from target ⨾ λ _ _.
      Triple-corpus_total r.corpus ⨾ λ total _. Triple-weaken _ (Triple-lift _) λ s made. (
        make_state-IsConsistent r.migration_id from target total _ s made,
        e ∙ ap ok (sym (target-make_state r.migration_id from target total _ s made)),
      )

  resume_or_create :
      (saved : Option MigrationState) (target : ModelNamespace) (g : String)
      → IsSaved saved
      → State.target_namespace r ≡ ok target
      → Triple (On P) (State.resume_or_create r saved target g) (IsLoaded r)
  unfolding State.resume_or_create
  resume_or_create none target g c e = create_state target g e
  resume_or_create (some s) target g c e = accept_saved s target g c e

  -- Whatever a method starts from, saved or new, is consistent.
  pub Triple-load_or_create_state : Triple (On P) (State.load_or_create_state r) (IsLoaded r)
  unfolding State.load_or_create_state
  Triple-load_or_create_state = Triple-call _ (h.load r.migration_id) ⨾ λ saved c.
      Triple-lift _ ⨾ λ target e.
      corpus_fingerprint r.corpus ⨾ λ g _. resume_or_create saved target g c e
