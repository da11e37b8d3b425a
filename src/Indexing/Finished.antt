-- ===== src/Indexing/Finished.antt =====
-- `execute` of indexing/semantic.py with a cache, an encoder and a materializer that answer.
use andnp_searchkernel.Prelude.{
  ℕ, ◌+◌, ◌<◌, ◌≡◌, ◌≢◌, refl, sym, ap, ◌∙◌, true, Option, none, some, String, List, [], ◌∷◌, map,
  length, length-append, ltb, ◌==◌, ==_iff, All, arith,
}
use mathlib.Core.List.{flatten}
use andnp_searchkernel.Exec.{Exec}
use andnp_searchkernel.Exec.Triple.{Any}
use andnp_searchkernel.Exec.Grows.{IsGrowth}
use andnp_searchkernel.Exec.Runs.{
  Returns, Runs-if_true, Runs-if_false, Runs-weaken, Returns-pure, Returns-bind,
}
use andnp_searchkernel.Dict.{assign, string_discrete, Absent}
use andnp_searchkernel.Dict.Keys.{Absent-assign, length-assign_new}
use andnp_searchkernel.Indexing.Receipts.{Error}
use andnp_searchkernel.Indexing.Slices.{slices, flatten-slices}
use andnp_searchkernel.Indexing.Semantic.{
  SemanticInput, SemanticWorkUnit, SemanticProgress, SemanticPlan, Embedding, SemanticWorkPlanner,
  sorted, precedes, by_urgency, items_of, group, work_unit,
}
use andnp_searchkernel.Indexing.Planner.{
  prepare_item, all_finite, validate_vector, classify, classify_all, plan, call_back, raise_some,
  report, materialize_all, serve_hits, check_vector, serve_batch, serve_misses, execute,
}
use andnp_searchkernel.Indexing.Placement.{IsSound}
use andnp_searchkernel.Indexing.Groups.{
  length-sorted, sorted-All, HasItems, group-HasItems, Different, sorted-Different, group-Different,
}

abbrev pub CallsBack :
    {W P : Type 0} → (W → W → Type 0) → Option (P → Exec Error W (Unit {0})) → Type 0
CallsBack R none = Unit
CallsBack {W} {P} R (some callback) = (p : P) (w : W) → Returns R (callback p) w Any

-- The planner's calls answer, and the encoder gives a sound vector for every text.
pub record Answers {W F : Type 0} (parts : Embedding W F) (planner : SemanticWorkPlanner)
    (R : W → W → Type 0) : Type 0 where
  pub growth : IsGrowth R
  pub gets : (hashes : List String) (w : W) → Returns R (parts.get_many hashes) w Any
  pub puts : (vectors : List (String × List F)) (w : W) → Returns R (parts.put_many vectors) w Any
  pub encodes :
      (texts : List String) (w : W)
      → Returns R
          (parts.encode texts)
          w
          (λ vectors. (length vectors ≡ length texts) × All (IsSound parts planner) vectors)
  pub materializes :
      (id : String) (vector : List F) (item : SemanticInput) (w : W)
      → Returns R (parts.materialize id vector item) w Any
  pub reports : CallsBack R parts.report

pub Returns-call_back :
    {W P : Type 0} {R : W → W → Type 0} (g : IsGrowth R)
    (callback : Option (P → Exec Error W (Unit {0}))) (p : P) (w : W)
    → CallsBack R callback
    → Returns R (call_back callback p) w Any
Returns-call_back g none p w h = Returns-pure g tt w tt
Returns-call_back g (some callback) p w h = h p w

Returns-raise_some :
    {W : Type 0} {R : W → W → Type 0} (g : IsGrowth R) (o : Option String) (w : W)
    → o ≡ none
    → Returns R (raise_some o) w Any
Returns-raise_some g none w e = Returns-pure g tt w tt
Returns-raise_some g (some m) w e = absurd (ground arith)

length-map : {A B : Type 0} (f : A → B) (xs : List A) → length (map f xs) ≡ length xs
length-map f [] = refl
length-map f (x ∷ xs) = omega (arith, length-map f xs)

module _ {W F : Type 0} (parts : Embedding W F) (planner : SemanticWorkPlanner) where
  All-all_finite :
      (vector : List F)
      → All (λ c. parts.is_finite c ≡ true) vector
      → all_finite parts planner vector ≡ true
  All-all_finite [] h = refl
  All-all_finite (c ∷ vector) h = let rest = All-all_finite vector h.1 in rw (h.0, rest) refl

  IsSound-validate_vector :
      (vector : List F) → IsSound parts planner vector → validate_vector parts planner vector ≡ none
  unfolding validate_vector
  IsSound-validate_vector [] s = absurd (omega arith)
  IsSound-validate_vector (c ∷ vector) s =
      let f = All-all_finite (c ∷ vector) s.1 in let d = s.2 in rw f (ground arith)

  module _ {R : W → W → Type 0} (h : Answers parts planner R) where
    Returns-report : (p : SemanticProgress) (w : W) → Returns R (report parts planner p) w Any
    unfolding report
    Returns-report p w = Returns-call_back h.growth parts.report p w h.reports

    Returns-materialize_all :
        (vector : List F) (items : List SemanticInput) (w : W)
        → Returns R (materialize_all parts planner vector items) w Any
    unfolding materialize_all
    Returns-materialize_all vector [] w = Returns-pure h.growth tt w tt
    Returns-materialize_all vector (item ∷ items) w =
        Returns-bind h.growth (h.materializes item.source_id vector item w)
          λ _ t _. Returns-materialize_all vector items t

    Returns-serve_hits :
        (p : SemanticPlan F) (hits : List (String × List F)) (n : ℕ) (w : W)
        → Returns R (serve_hits parts planner p hits n) w (λ k. k ≡ n + length hits)
    unfolding serve_hits
    Returns-serve_hits p [] n w = Returns-pure h.growth n w (omega arith)
    Returns-serve_hits p ((key, vector) ∷ hits) n w =
        Returns-bind h.growth (Returns-materialize_all vector (items_of key p.groups) w) λ _ t _.
          Returns-bind h.growth (Returns-report _ t) λ _ u _.
            Runs-weaken _ u (Returns-serve_hits p hits (n + 1) u) λ k x q. (q.0, omega (arith, q.1))

    Returns-serve_batch :
        (p : SemanticPlan F) (batch : List SemanticWorkUnit) (vectors : List (List F))
        (to_cache : List (String × List F)) (n : ℕ) (w : W)
        → length vectors ≡ length batch
        → All (IsSound parts planner) vectors
        → Returns R
            (serve_batch parts planner p batch vectors to_cache n)
            w
            (λ r. r.1 ≡ n + length batch)
    unfolding serve_batch check_vector
    Returns-serve_batch p [] [] to_cache n w e s = Returns-pure h.growth _ w (omega arith)
    Returns-serve_batch p [] (v ∷ vectors) to_cache n w e s = absurd (omega arith)
    Returns-serve_batch p (work ∷ batch) [] to_cache n w e s = absurd (omega arith)
    Returns-serve_batch p (work ∷ batch) (vector ∷ vectors) to_cache n w e s =
        Returns-bind h.growth (Returns-raise_some h.growth _ w (IsSound-validate_vector vector s.0))
          λ _ x _.
            Returns-bind h.growth
              (Returns-materialize_all vector (items_of work.content_hash p.groups) x)
              λ _ t _. Returns-bind h.growth (Returns-report _ t) λ _ u _.
                Runs-weaken _ u (Returns-serve_batch p batch vectors _ (n + 1) u (omega arith) s.1)
                  λ k y q. (q.0, omega (arith, q.1))

    Returns-serve_misses :
        (p : SemanticPlan F) (batches : List (List SemanticWorkUnit)) (n : ℕ) (w : W)
        → Returns R
            (serve_misses parts planner p batches n)
            w
            (λ k. k ≡ n + length (flatten batches))
    unfolding serve_misses flatten
    Returns-serve_misses p [] n w = Returns-pure h.growth n w (omega arith)
    Returns-serve_misses p (batch ∷ batches) n w =
        Returns-bind h.growth (h.encodes _ w) λ vectors s v.
          let same = v.0 ∙ length-map (λ work. work.text) batch in
          Returns-bind h.growth
            (Runs-if_true (length vectors == length batch) _ _ s
              ((==_iff (length vectors) (length batch)).1 same)
              (Returns-serve_batch p batch vectors [] n s same v.1))
            λ served t q. Returns-bind h.growth (h.puts served.0 t) λ _ u _.
              Runs-weaken _ u (Returns-serve_misses p batches served.1 u) λ k x q'.
                let len = length-append batch (flatten batches) in
                (q'.0, omega (arith, q, q'.1, len))

    -- How many hits and misses there are, and that the hashes to come are not among the hits.
    abbrev tally : List (String × List F) × List SemanticWorkUnit → ℕ
    tally (hits, misses) = length hits + length misses

    abbrev NotAmong : List String → List (String × List F) → Type 0
    NotAmong hashes hits = All (λ key. Absent string_discrete key hits) hashes

    NotAmong-assign :
        (key : String) (vector : List F) (hashes : List String) (hits : List (String × List F))
        → All (λ j. j ≢ key) hashes
        → NotAmong hashes hits
        → NotAmong hashes (assign string_discrete key vector hits)
    NotAmong-assign key vector [] hits a n = tt
    NotAmong-assign key vector (j ∷ hashes) hits a n = (
      Absent-assign string_discrete j key vector hits n.0 (λ q. a.0 (sym q)),
      NotAmong-assign key vector hashes hits a.1 n.1,
    )

    Returns-classify :
        (key : String) (hashes : List String) (items : List SemanticInput) (found : Option (List F))
        (old : List (String × List F) × List SemanticWorkUnit) (w : W)
        → HasItems items
        → All (λ j. j ≢ key) hashes
        → NotAmong (key ∷ hashes) old.0
        → Returns R
            (classify parts planner key items found old)
            w
            (λ new. (tally new ≡ tally old + 1) × NotAmong hashes new.0)
    unfolding classify
    Returns-classify key hashes items (some vector) (hits, misses) w i a n =
        let len = length-assign_new string_discrete key vector hits n.0 in
        Returns-pure h.growth _ w (omega arith, NotAmong-assign key vector hashes hits a n.1)
    Returns-classify key hashes [] none old w i a n = absurd (omega arith)
    Returns-classify key hashes (item ∷ items) none (hits, misses) w i a n =
        let len = length-append misses (work_unit key item items ∷ []) in
        Returns-pure h.growth _ w (omega arith, n.1)

    none_among : (hashes : List String) → NotAmong hashes []
    none_among [] = tt
    none_among (key ∷ hashes) = (tt, none_among hashes)

    Returns-classify_all :
        (groups : List (String × List SemanticInput)) (cached : List (String × List F))
        (hashes : List String) (old : List (String × List F) × List SemanticWorkUnit) (w : W)
        → All (λ key. HasItems (items_of key groups)) hashes
        → Different hashes
        → NotAmong hashes old.0
        → Returns R
            (classify_all parts planner groups cached hashes old)
            w
            (λ new. tally new ≡ tally old + length hashes)
    unfolding classify_all
    Returns-classify_all groups cached [] old w i d n = Returns-pure h.growth old w (omega arith)
    Returns-classify_all groups cached (key ∷ hashes) old w i d n =
        Returns-bind h.growth (Returns-classify key hashes (items_of key groups) _ old w i.0 d.0 n)
          λ mid t q.
            Runs-weaken _ t (Returns-classify_all groups cached hashes mid t i.1 d.1 q.1)
              λ new u q'. (q'.0, omega (arith, q.0, q'.1))

    Returns-plan :
        (inputs : List SemanticInput) (w : W)
        → Returns R
            (plan parts planner inputs)
            w
            (λ p. length p.hits + length p.misses ≡ length p.groups)
    unfolding plan
    Returns-plan inputs w =
        let groups = group (map (prepare_item parts planner) inputs) in
        let keys = map (λ g. g.0) groups in
        let count : length (sorted precedes keys) ≡ length groups =
          length-sorted precedes keys ∙ length-map (λ g. g.0) groups in
        Returns-bind h.growth (h.gets (sorted precedes keys) w) λ cached t _.
          Returns-bind h.growth
            (Returns-classify_all groups cached (sorted precedes keys) ([], []) t
              (sorted-All precedes _ keys
                (group-HasItems (map (prepare_item parts planner) inputs)))
              (sorted-Different precedes keys
                (group-Different (map (prepare_item parts planner) inputs)))
              (none_among (sorted precedes keys)))
            λ found u q.
              let len = length-sorted by_urgency found.1 in
              Returns-pure h.growth _ u (omega (arith, q, len, count))

    -- With a cache, an encoder and a materializer that answer, an encoder that gives a sound vector for
    -- every text, and a positive batch size, `execute` returns, all work is completed, and the hits and the
    -- misses make up the total.
    pub Returns-execute :
        (inputs : List SemanticInput) (batch_size : ℕ) (w : W)
        → 0 < batch_size
        → Returns R
            (execute parts planner inputs batch_size)
            w
            (λ p. (p.completed ≡ p.total) × (p.cache_hits + p.cache_misses ≡ p.total))
    unfolding execute
    Returns-execute inputs batch_size w pos =
        Runs-if_false (ltb batch_size 1) _ _ w (ground arith) (
          Returns-bind h.growth (Returns-plan inputs w) λ p s e.
            Returns-bind h.growth (Returns-serve_hits p p.hits 0 s) λ n t q.
              Returns-bind h.growth (Returns-serve_misses p (slices p.misses batch_size) n t)
                λ k u q'.
                  let len = ap length (flatten-slices p.misses batch_size pos) in
                  Returns-pure h.growth _ u (omega (arith, e, q, q', len), e))
