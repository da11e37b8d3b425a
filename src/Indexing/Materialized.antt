-- ===== src/Indexing/Materialized.antt =====
-- What `execute` of indexing/semantic.py has done when it returns.
use andnp_searchkernel.Prelude.{
  ℕ, ◌+◌, ◌≡◌, refl, subst, Option, none, some, String, List, [], ◌∷◌, map, length, ltb, ◌==◌, All,
  arith,
}
use andnp_searchkernel.Exec.{raise}
use andnp_searchkernel.Exec.Grows.{
  Grows, Anything, Grows-pure, Grows-raise, Grows-if, Grows-weaken, Grows-bind,
}
use andnp_searchkernel.Dict.{find, string_discrete}
use andnp_searchkernel.Indexing.Receipts.{value_error}
use andnp_searchkernel.Indexing.Slices.{slices, flatten-slices}
use andnp_searchkernel.Indexing.Semantic.{
  SemanticInput, SemanticWorkUnit, SemanticProgress, SemanticPlan, Embedding, SemanticWorkPlanner,
  sorted, precedes, by_urgency, items_of, group, work_unit,
}
use andnp_searchkernel.Indexing.Planner.{
  prepare_item, validate_vector, classify, classify_all, plan, report, materialize_all, serve_hits,
  check_vector, serve_batch, serve_misses, execute,
}
use andnp_searchkernel.Indexing.Grouped.{All-sorted, All-append_left, All-group}
use andnp_searchkernel.Indexing.Placement.{
  Effects, Grows-call, Grows-call_back, Grows-raise_some, assign-keys, assign-values, All-flatten,
  All-map, IsSound, validate_vector-IsSound, valid_hit-IsSound, Placed,
}

module _ {W F : Type 0} (parts : Embedding W F) (planner : SemanticWorkPlanner) where
  module _ {Before : W → W → Type 0} {Good : String → List F → W → Type 0}
      (h : Effects parts Before Good) where
    abbrev GroupPlaced : List (String × List SemanticInput) → W → String → Type 0
    GroupPlaced groups w key = All (Placed parts planner Good w) (items_of key groups)

    pub Placed-lasts :
        (w w' : W)
        → Before w w'
        → (item : SemanticInput) → Placed parts planner Good w item
        → Placed parts planner Good w' item
    Placed-lasts w w' b item q = (q.0, q.1, h.lasts item.source_id q.0 w w' b q.2)

    GroupPlaced-lasts :
        (groups : List (String × List SemanticInput)) (w w' : W)
        → Before w w'
        → (key : String) → GroupPlaced groups w key
        → GroupPlaced groups w' key
    GroupPlaced-lasts groups w w' b key = All-map _ _ (Placed-lasts w w' b) (items_of key groups)

    Grows-materialize_all :
        (vector : List F) (items : List SemanticInput) (w : W)
        → IsSound parts planner vector
        → Grows Before
            (materialize_all parts planner vector items)
            w
            (λ _ w'. All (Placed parts planner Good w') items)
    unfolding materialize_all
    Grows-materialize_all vector [] w v = Grows-pure h.growth tt w tt
    Grows-materialize_all vector (item ∷ items) w v =
        Grows-bind h.growth (h.materializes item.source_id vector item w) λ _ t b q.
          Grows-weaken h.growth (Grows-materialize_all vector items t v)
            λ _ u b' q'. ((vector, v, h.lasts item.source_id vector t u b' q), q')

    Grows-report : (p : SemanticProgress) (w : W) → Grows Before (report parts planner p) w Anything
    unfolding report
    Grows-report p w = Grows-call_back h.growth parts.report p w h.reports

    Grows-serve_hits :
        (p : SemanticPlan F) (hits : List (String × List F)) (n : ℕ) (w : W)
        → All (λ hit. IsSound parts planner hit.1) hits
        → Grows Before
            (serve_hits parts planner p hits n)
            w
            (λ _ w'. All (λ hit. GroupPlaced p.groups w' hit.0) hits)
    unfolding serve_hits
    Grows-serve_hits p [] n w v = Grows-pure h.growth n w tt
    Grows-serve_hits p ((key, vector) ∷ hits) n w v =
        Grows-bind h.growth (Grows-materialize_all vector (items_of key p.groups) w v.0) λ _ t b q.
          Grows-bind h.growth (Grows-report _ t) λ _ u b' _.
            Grows-weaken h.growth (Grows-serve_hits p hits (n + 1) u v.1)
              λ _ x b'' q'. (GroupPlaced-lasts p.groups t x (h.growth.joins t u x b' b'') key q, q')

    Grows-check_vector :
        (vector : List F) (w : W)
        → Grows Before (check_vector parts planner vector) w (λ _ w'. IsSound parts planner vector)
    unfolding check_vector
    Grows-check_vector vector w =
        Grows-weaken h.growth (Grows-raise_some h.growth (validate_vector parts planner vector) w)
          λ _ _ _ e. validate_vector-IsSound parts planner vector e

    abbrev BatchPlaced : SemanticPlan F → W → List SemanticWorkUnit → Type 0
    BatchPlaced p w = All (λ work. GroupPlaced p.groups w work.content_hash)

    Grows-serve_batch :
        (p : SemanticPlan F) (batch : List SemanticWorkUnit) (vectors : List (List F))
        (to_cache : List (String × List F)) (n : ℕ) (w : W)
        → Grows Before
            (serve_batch parts planner p batch vectors to_cache n)
            w
            (λ _ w'. BatchPlaced p w' batch)
    unfolding serve_batch
    Grows-serve_batch p [] [] to_cache n w = Grows-pure h.growth _ w tt
    Grows-serve_batch p [] (v ∷ vectors) to_cache n w = Grows-raise h.growth _ w
    Grows-serve_batch p (work ∷ batch) [] to_cache n w = Grows-raise h.growth _ w
    Grows-serve_batch p (work ∷ batch) (vector ∷ vectors) to_cache n w =
        Grows-bind h.growth (Grows-check_vector vector w) λ _ s _ v.
          Grows-bind h.growth
            (Grows-materialize_all vector (items_of work.content_hash p.groups) s v)
            λ _ t _ q. Grows-bind h.growth (Grows-report _ t) λ _ u b _.
              Grows-weaken h.growth (Grows-serve_batch p batch vectors _ (n + 1) u) λ _ x b' q'.
                (GroupPlaced-lasts p.groups t x (h.growth.joins t u x b b') work.content_hash q, q')

    Grows-serve_misses :
        (p : SemanticPlan F) (batches : List (List SemanticWorkUnit)) (n : ℕ) (w : W)
        → Grows Before
            (serve_misses parts planner p batches n)
            w
            (λ _ w'. All (BatchPlaced p w') batches)
    unfolding serve_misses
    Grows-serve_misses p [] n w = Grows-pure h.growth n w tt
    Grows-serve_misses p (batch ∷ batches) n w =
        Grows-bind h.growth (Grows-call (parts.encode _) w (h.encodes _ w)) λ vectors s _ _.
          Grows-bind h.growth
            (Grows-if h.growth (length vectors == length batch)
              (serve_batch parts planner p batch vectors [] n)
              (raise (value_error "encoder returned a different number of vectors than texts")) s
              (λ _. Grows-serve_batch p batch vectors [] n s) (λ _. Grows-raise h.growth _ s))
            λ served t _ q.
              Grows-bind h.growth (Grows-call (parts.put_many served.0) t (h.puts served.0 t))
                λ _ u b _.
                  Grows-weaken h.growth (Grows-serve_misses p batches served.1 u) λ _ x b' q'. (
                    All-map _ _
                        (λ work.
                          GroupPlaced-lasts p.groups t x (h.growth.joins t u x b b')
                            work.content_hash)
                        batch q,
                    q',
                  )

    -- What is said at the keys of the hits and at the hashes of the misses.
    abbrev Held :
        (W → String → Type 0) → W → List (String × List F) × List SemanticWorkUnit → Type 0
    Held Q w (hits, misses) =
        All (λ hit. Q w hit.0) hits × All (λ work. Q w work.content_hash) misses

    -- The hits are sound, and what is said of the hits and the misses is said of the hashes and of what
    -- was found before.
    abbrev Classified :
        (W → String → Type 0)
        → List String
        → List (String × List F) × List SemanticWorkUnit
        → List (String × List F) × List SemanticWorkUnit
        → Type 0
    Classified Q hashes old new =
        All (λ hit. IsSound parts planner hit.1) new.0
        × ((w : W) → Held Q w new → All (Q w) hashes × Held Q w old)

    Grows-classify :
        (Q : W → String → Type 0) (key : String) (items : List SemanticInput)
        (found : Option (List F)) (old : List (String × List F) × List SemanticWorkUnit) (w : W)
        → ((vector : List F) → found ≡ some vector → IsSound parts planner vector)
        → All (λ hit. IsSound parts planner hit.1) old.0
        → Grows Before
            (classify parts planner key items found old)
            w
            (λ new _. Classified Q (key ∷ []) old new)
    unfolding classify work_unit
    Grows-classify Q key items (some vector) (hits, misses) w s v = Grows-pure h.growth _ w (
      assign-values _ key vector hits (s vector refl) v,
      λ t q. let r = assign-keys (Q t) key vector hits q.0 in ((r.0, tt), (r.1, q.1)),
    )
    Grows-classify Q key [] none old w s v = Grows-raise h.growth _ w
    Grows-classify Q key (item ∷ items) none (hits, misses) w s v = Grows-pure h.growth _ w (
      v,
      λ t q.
          let r =
            All-append_left (λ work. Q t work.content_hash) misses (work_unit key item items ∷ [])
              q.1 in
          ((r.1.0, tt), (q.0, r.0)),
    )

    Grows-classify_all :
        (Q : W → String → Type 0) (groups : List (String × List SemanticInput))
        (cached : List (String × List F)) (hashes : List String)
        (old : List (String × List F) × List SemanticWorkUnit) (w : W)
        → All (λ hit. IsSound parts planner hit.1) old.0
        → Grows Before
            (classify_all parts planner groups cached hashes old)
            w
            (λ new _. Classified Q hashes old new)
    unfolding classify_all
    Grows-classify_all Q groups cached [] old w v = Grows-pure h.growth old w (v, λ t q. (tt, q))
    Grows-classify_all Q groups cached (key ∷ hashes) old w v =
        Grows-bind h.growth
          (Grows-classify Q key (items_of key groups) _ old w
            (valid_hit-IsSound parts planner (find string_discrete key cached)) v)
          λ mid t _ c.
            Grows-weaken h.growth (Grows-classify_all Q groups cached hashes mid t c.0)
              λ new u _ d. (d.0, λ x q. let e = d.1 x q in let f = c.1 x e.1 in ((f.0.0, e.0), f.1))

    -- A plan whose hits and misses, once placed, have all the inputs placed.
    abbrev Plans : List SemanticInput → SemanticPlan F → Type 0
    Plans inputs p =
        All (λ hit. IsSound parts planner hit.1) p.hits
        × ((w : W)
            → Held (GroupPlaced p.groups) w (p.hits, p.misses)
            → All (Placed parts planner Good w) inputs)

    prepared-Placed :
        (w : W) (inputs : List SemanticInput)
        → All (Placed parts planner Good w) (map (prepare_item parts planner) inputs)
        → All (Placed parts planner Good w) inputs
    unfolding prepare_item
    prepared-Placed w [] a = tt
    prepared-Placed w (item ∷ inputs) a = (a.0, prepared-Placed w inputs a.1)

    Grows-plan :
        (inputs : List SemanticInput) (w : W)
        → Grows Before (plan parts planner inputs) w (λ p _. Plans inputs p)
    unfolding plan
    Grows-plan inputs w =
        let prepared = map (prepare_item parts planner) inputs in
        let groups = group prepared in
        let hashes = sorted precedes (map (λ g. g.0) groups) in
        Grows-bind h.growth (Grows-call (parts.get_many hashes) w (h.gets hashes w)) λ cached t _ _.
          Grows-bind h.growth
            (Grows-classify_all (GroupPlaced groups) groups cached hashes ([], []) t tt)
            λ found u _ c. Grows-pure h.growth _ u (
              c.0,
              λ x q. prepared-Placed x inputs (
                  All-group (Placed parts planner Good x) prepared (
                    All-sorted precedes (GroupPlaced groups x) (map (λ g. g.0) groups)
                      (c.1 x (q.0, All-sorted by_urgency _ found.1 q.1)).0)),
            )

    -- Whatever cache, encoder, materializer and callback do: if `execute` returns, a vector is in place under
    -- the source id of every input, not empty, of finite components, and of the planner's dimension where
    -- it has one.
    pub Grows-execute :
        (inputs : List SemanticInput) (batch_size : ℕ) (w : W)
        → Grows Before
            (execute parts planner inputs batch_size)
            w
            (λ _ w'. All (Placed parts planner Good w') inputs)
    unfolding execute
    Grows-execute inputs batch_size w =
        Grows-if h.growth (ltb batch_size 1) _ _ w (λ _. Grows-raise h.growth _ w)
          λ positive. Grows-bind h.growth (Grows-plan inputs w) λ p s _ pl.
            Grows-bind h.growth (Grows-serve_hits p p.hits 0 s pl.0) λ n t _ q.
              Grows-bind h.growth (Grows-serve_misses p (slices p.misses batch_size) n t)
                λ k u b q'.
                  let flat = All-flatten _ (slices p.misses batch_size) q' in
                  let hits = All-map _ _ (λ hit. GroupPlaced-lasts p.groups t u b hit.0) p.hits q in
                  Grows-pure h.growth _ u (
                    pl.1 u (
                      hits,
                      subst (All (λ work. GroupPlaced p.groups u work.content_hash))
                          (flatten-slices p.misses batch_size (ground arith)) flat,
                    ))
