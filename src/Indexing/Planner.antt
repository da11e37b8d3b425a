-- ===== src/Indexing/Planner.antt =====
-- `SemanticWorkPlanner` of indexing/semantic.py. The cache, the encoder, the materializer and the progress
-- callback act on a world `W` and may raise.
use andnp_searchkernel.Prelude.{
  ℕ, ◌+◌, Bool, true, false, not, ◌&&◌, ◌||◌, Option, none, some, is_some, String, List, [], ◌∷◌,
  ◌++◌, map, length, ltb, ◌==◌, if◌then◌else◌,
}
use andnp_searchkernel.Exec.{Exec, pure, raise, ◌>>=◌, ◌>>◌}
use andnp_searchkernel.Dict.{find, assign, string_discrete}
use andnp_searchkernel.Indexing.Receipts.{Error, value_error}
use andnp_searchkernel.Indexing.Slices.{slices}
use andnp_searchkernel.Indexing.Semantic.{
  SemanticInput, SemanticWorkUnit, SemanticProgress, SemanticPlan, Embedding, SemanticWorkPlanner,
  sorted, precedes, by_urgency, items_of, group, work_unit,
}

abbrev pub raise_some : {W : Type 0} → Option String → Exec Error W (Unit {0})
raise_some none = pure tt
raise_some (some message) = raise (value_error message)

-- A callback that may be missing.
abbrev pub call_back :
    {W P : Type 0} → Option (P → Exec Error W (Unit {0})) → P → Exec Error W (Unit {0})
call_back none p = pure tt
call_back (some callback) p = callback p

module _ {W F : Type 0} (parts : Embedding W F) (planner : SemanticWorkPlanner) where
  -- `prepare`, for one item.
  unfoldable pub prepare_item : SemanticInput → SemanticInput
  prepare_item item = record item {
    content_hash = parts.embedding_identity item.text planner.encoder_namespace;
  }

  abbrev pub all_finite : List F → Bool
  all_finite [] = true
  all_finite (v ∷ vs) = parts.is_finite v && all_finite vs

  abbrev pub is_empty : List F → Bool
  is_empty [] = true
  is_empty (v ∷ vs) = false

  -- `_validate_vector`.
  unfoldable pub validate_vector : List F → Option String
  validate_vector vector =
      if is_empty vector || not (all_finite vector)
      then some "embedding vector must contain finite values"
      else if not (planner.dimension == 0) && not (length vector == planner.dimension)
      then some "embedding vector has unexpected dimension"
      else none

  -- `_valid_vector`.
  unfoldable pub is_valid : List F → Bool
  is_valid vector = not (is_some (validate_vector vector))

  -- A hit: the cached vector, where there is one and it is valid.
  abbrev pub valid_hit : Option (List F) → Option (List F)
  valid_hit none = none
  valid_hit (some vector) = if is_valid vector then some vector else none

  -- The body of the loop over the hashes, with the hits and misses so far; `min` of an empty group
  -- raises.
  unfoldable pub classify :
      String
      → List SemanticInput
      → Option (List F)
      → List (String × List F) × List SemanticWorkUnit
      → Exec Error W (List (String × List F) × List SemanticWorkUnit)
  classify content_hash items (some vector) (hits, misses) =
      pure (assign string_discrete content_hash vector hits, misses)
  classify content_hash [] none found = raise (value_error "min() arg is an empty sequence")
  classify content_hash (item ∷ items) none (hits, misses) =
      pure (hits, misses ++ work_unit content_hash item items ∷ [])

  unfoldable pub classify_all :
      List (String × List SemanticInput)
      → List (String × List F)
      → List String
      → List (String × List F) × List SemanticWorkUnit
      → Exec Error W (List (String × List F) × List SemanticWorkUnit)
  classify_all groups cached [] found = pure found
  classify_all groups cached (content_hash ∷ hashes) found =
      classify content_hash (items_of content_hash groups)
        (valid_hit (find string_discrete content_hash cached)) found
      >>= classify_all groups cached hashes

  -- `plan`.
  unfoldable pub plan : List SemanticInput → Exec Error W (SemanticPlan F)
  plan inputs =
      let groups = group (map prepare_item inputs) in
      let hashes = sorted precedes (map (λ g. g.0) groups) in
      do
        cached ← parts.get_many hashes
        found ← classify_all groups cached hashes ([], [])
        pure record { hits = found.0; misses = sorted by_urgency found.1; groups = groups }

  -- `_report`, of a progress.
  unfoldable pub report : SemanticProgress → Exec Error W (Unit {0})
  report p = call_back parts.report p

  unfoldable pub materialize_all : List F → List SemanticInput → Exec Error W (Unit {0})
  materialize_all vector [] = pure tt
  materialize_all vector (item ∷ items) = do
    parts.materialize item.source_id vector item
    materialize_all vector items

  abbrev pub progress_at : SemanticPlan F → ℕ → SemanticProgress
  progress_at p completed = record {
    completed = completed;
    total = length p.groups;
    cache_hits = length p.hits;
    cache_misses = length p.misses;
  }

  -- The loop over the hits.
  unfoldable pub serve_hits : SemanticPlan F → List (String × List F) → ℕ → Exec Error W ℕ
  serve_hits p [] completed = pure completed
  serve_hits p ((content_hash, vector) ∷ hits) completed = do
    materialize_all vector (items_of content_hash p.groups)
    report (progress_at p (completed + 1))
    serve_hits p hits (completed + 1)

  -- `self._validate_vector(vector)`, which raises.
  unfoldable pub check_vector : List F → Exec Error W (Unit {0})
  check_vector vector = raise_some (validate_vector vector)

  -- The loop over a batch and its vectors, which returns what is to be cached.
  unfoldable pub serve_batch :
      SemanticPlan F
      → List SemanticWorkUnit
      → List (List F)
      → List (String × List F)
      → ℕ
      → Exec Error W (List (String × List F) × ℕ)
  serve_batch p [] [] to_cache completed = pure (to_cache, completed)
  serve_batch p (work ∷ batch) (vector ∷ vectors) to_cache completed = do
    check_vector vector
    materialize_all vector (items_of work.content_hash p.groups)
    report (progress_at p (completed + 1))
    serve_batch p batch vectors (assign string_discrete work.content_hash vector to_cache)
        (completed + 1)
  serve_batch p _ _ to_cache completed = raise (value_error "zip() arguments differ in length")

  -- The loop over the batches of misses.
  unfoldable pub serve_misses : SemanticPlan F → List (List SemanticWorkUnit) → ℕ → Exec Error W ℕ
  serve_misses p [] completed = pure completed
  serve_misses p (batch ∷ batches) completed = do
    vectors ← parts.encode (map (λ work. work.text) batch)
    served ←
        if length vectors == length batch
        then serve_batch p batch vectors [] completed
        else raise (value_error "encoder returned a different number of vectors than texts")
    parts.put_many served.0
    serve_misses p batches served.1

  -- `execute`.
  unfoldable pub execute : List SemanticInput → ℕ → Exec Error W SemanticProgress
  execute inputs batch_size =
      if ltb batch_size 1 then raise (value_error "batch_size must be >= 1") else do
        p ← plan inputs
        completed ← serve_hits p p.hits 0
        total ← serve_misses p (slices p.misses batch_size) completed
        pure (progress_at p total)
