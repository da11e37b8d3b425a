-- ===== src/Indexing/Placement.antt =====
-- What the calls of the planner of indexing/semantic.py leave behind, and the vectors that are sound.
use andnp_searchkernel.Prelude.{
  ℕ_discrete, ◌<◌, ◌≡◌, ◌⊎◌, refl, sym, ap, ◌∙◌, subst, true, not, Bool-cases, inl, inr, is_some,
  Option, none, some, Option-cases, String, List, [], ◌∷◌, length, All, All-append, arith,
}
use mathlib.Core.List.{flatten}
use mathlib.Core.Bool.{true≢false}
use mathlib.Core.Logic.{if_pos, if_neg}
use andnp_searchkernel.Exec.{Result, ok, err, Exec}
use andnp_searchkernel.Exec.Grows.{Grows, ReturnedAt, IsGrowth, Anything, Grows-pure, Grows-raise}
use andnp_searchkernel.Dict.{assign, string_discrete}
use andnp_searchkernel.Indexing.Receipts.{Error}
use andnp_searchkernel.Indexing.Semantic.{SemanticInput, Embedding, SemanticWorkPlanner}
use andnp_searchkernel.Indexing.Planner.{
  validate_vector, is_valid, valid_hit, all_finite, call_back, raise_some,
}

-- What a call leaves behind, and nothing of what it returns.
abbrev pub Reports :
    {W P : Type 0} → (W → W → Type 0) → Option (P → Exec Error W (Unit {0})) → Type 0
Reports Before none = Unit
Reports {W} {P} Before (some callback) = (p : P) (w : W) → Before w (callback p w).1

-- The calls of the planner: `Good id vector` says that the vector is in place under the id. It is so when
-- `materialize` returns, and no call takes it back.
pub record Effects {W F : Type 0} (parts : Embedding W F) (Before : W → W → Type 0)
    (Good : String → List F → W → Type 0) : Type 0 where
  pub growth : IsGrowth Before
  pub lasts :
      (id : String) (vector : List F) (w w' : W)
      → Before w w'
      → Good id vector w
      → Good id vector w'
  pub gets : (hashes : List String) (w : W) → Before w (parts.get_many hashes w).1
  pub puts : (vectors : List (String × List F)) (w : W) → Before w (parts.put_many vectors w).1
  pub encodes : (texts : List String) (w : W) → Before w (parts.encode texts w).1
  pub materializes :
      (id : String) (vector : List F) (item : SemanticInput) (w : W)
      → Grows Before (parts.materialize id vector item) w (λ _ w'. Good id vector w')
  pub reports : Reports Before parts.report

ends_anyhow : {E W A : Type 0} (r : Result E A) (w : W) → ReturnedAt Anything r w
ends_anyhow (ok a) w = tt
ends_anyhow (err e) w = tt

-- A call of which only the growth is known.
pub Grows-call :
    {E W A : Type 0} {Before : W → W → Type 0} (m : Exec E W A) (w : W)
    → Before w (m w).1
    → Grows Before m w Anything
Grows-call m w b = record { before = b; returned = ends_anyhow (m w).0 (m w).1 }

pub Grows-call_back :
    {W P : Type 0} {Before : W → W → Type 0} (g : IsGrowth Before)
    (callback : Option (P → Exec Error W (Unit {0}))) (p : P) (w : W)
    → Reports Before callback
    → Grows Before (call_back callback p) w Anything
Grows-call_back g none p w h = Grows-pure g tt w tt
Grows-call_back g (some callback) p w h = Grows-call (callback p) w (h p w)

pub Grows-raise_some :
    {W : Type 0} {Before : W → W → Type 0} (g : IsGrowth Before) (o : Option String) (w : W)
    → Grows Before (raise_some o) w (λ _ _. o ≡ none)
Grows-raise_some g none w = Grows-pure g tt w refl
Grows-raise_some g (some m) w = Grows-raise g _ w

pub assign-keys :
    {V : Type 0} (Q : String → Type 0) (k : String) (v : V) (d : List (String × V))
    → All (λ h. Q h.0) (assign string_discrete k v d)
    → Q k × All (λ h. Q h.0) d
unfolding assign
assign-keys Q k v [] a = a
assign-keys Q k v ((j, w) ∷ d) a = elim (string_discrete j k) [
  | yes p ↦
      let a' = subst (All (λ h. Q h.0)) (if_pos (string_discrete j k) p _ _) a in
      (a'.0, (subst Q (sym p) a'.0, a'.1))
  | no p ↦
      let a' = subst (All (λ h. Q h.0)) (if_neg (string_discrete j k) p _ _) a in
      let rest = assign-keys Q k v d a'.1 in (rest.0, (a'.0, rest.1))
]

pub assign-values :
    {V : Type 0} (Q : V → Type 0) (k : String) (v : V) (d : List (String × V))
    → Q v
    → All (λ h. Q h.1) d
    → All (λ h. Q h.1) (assign string_discrete k v d)
unfolding assign
assign-values Q k v [] q a = (q, tt)
assign-values Q k v ((j, w) ∷ d) q a = elim (string_discrete j k) [
  | yes p ↦ subst (All (λ h. Q h.1)) (sym (if_pos (string_discrete j k) p _ _)) (q, a.1)
  | no p ↦
      subst (All (λ h. Q h.1)) (sym (if_neg (string_discrete j k) p _ _))
        (a.0, assign-values Q k v d q a.1)
]

pub All-flatten :
    {A : Type 0} (P : A → Type 0) (xss : List (List A)) → All (All P) xss → All P (flatten xss)
unfolding flatten
All-flatten P [] h = tt
All-flatten P (xs ∷ xss) h = All-append P xs (flatten xss) h.0 (All-flatten P xss h.1)

pub All-map :
    {A : Type 0} (P Q : A → Type 0) → ((a : A) → P a → Q a) → (xs : List A) → All P xs → All Q xs
All-map P Q f [] h = tt
All-map P Q f (x ∷ xs) h = (f x h.0, All-map P Q f xs h.1)

module _ {W F : Type 0} (parts : Embedding W F) (planner : SemanticWorkPlanner) where
  -- Not empty, of finite components, and of the planner's dimension where it has one.
  abbrev pub IsSound : List F → Type 0
  IsSound vector =
      (0 < length vector)
      × All (λ c. parts.is_finite c ≡ true) vector
      × ((planner.dimension ≡ 0) ⊎ (length vector ≡ planner.dimension))

  all_finite-All :
      (vector : List F)
      → all_finite parts planner vector ≡ true
      → All (λ c. parts.is_finite c ≡ true) vector
  all_finite-All [] e = tt
  all_finite-All (c ∷ vector) e = (ground arith, all_finite-All vector (ground arith))

  pub validate_vector-IsSound :
      (vector : List F) → validate_vector parts planner vector ≡ none → IsSound vector
  unfolding validate_vector
  validate_vector-IsSound [] e = absurd (ground arith)
  validate_vector-IsSound (c ∷ vector) e = (
    omega arith,
    all_finite-All (c ∷ vector) (ground arith),
    elim (ℕ_discrete planner.dimension 0) [ yes p ↦ inl p | no p ↦ inr (ground arith) ],
  )

  is_valid-IsSound : (vector : List F) → is_valid parts planner vector ≡ true → IsSound vector
  unfolding is_valid
  is_valid-IsSound vector e =
      validate_vector-IsSound vector (elim (Option-cases (validate_vector parts planner vector)) [
        | inl n ↦ n
        | inr m ↦ absurd (true≢false (sym e ∙ ap (λ o. not (is_some o)) m.1))
      ])

  pub valid_hit-IsSound :
      (found : Option (List F)) (vector : List F)
      → valid_hit parts planner found ≡ some vector
      → IsSound vector
  valid_hit-IsSound none vector e = absurd (ground arith)
  valid_hit-IsSound (some v) vector e = elim (Bool-cases (is_valid parts planner v)) [
    | inl y ↦ subst IsSound (ground arith) (is_valid-IsSound v y)
    | inr n ↦ absurd (ground arith)
  ]

  -- A sound vector is in place for the input.
  abbrev pub Placed : (String → List F → W → Type 0) → W → SemanticInput → Type 0
  Placed Good w item = (vector : List F) × IsSound vector × Good item.source_id vector w
