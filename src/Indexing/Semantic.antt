-- ===== src/Indexing/Semantic.antt =====
-- The data of indexing/semantic.py, and how `SemanticWorkPlanner` groups and sorts it. A vector is a list
-- of components `F`. The digest of a text in a namespace is a parameter; priorities are taken to be no
-- negative numbers.
use andnp_searchkernel.Prelude.{
  ℕ, Bool, true, false, not, ◌&&◌, ◌||◌, Option, none, some, String, List, [], ◌∷◌, ◌++◌, map, ltb,
  ◌==◌, if◌then◌else◌,
}
use Prim.Native.Nat.{Ordering}
use Prim.Native.String.{compare}
use andnp_searchkernel.Exec.{Exec}
use andnp_searchkernel.Dict.{find, assign, string_discrete}
use andnp_searchkernel.Indexing.Receipts.{Error}

pub data SemanticTier : Type 0 where
  coarse fine : SemanticTier

pub record SemanticInput : Type 0 where
  pub source_id : String
  pub text : String
  pub content_hash : String
  pub tier : SemanticTier
  pub priority : ℕ

pub record SemanticWorkUnit : Type 0 where
  pub content_hash : String
  pub text : String
  pub source_ids : List String
  pub tier : SemanticTier
  pub priority : ℕ

pub record SemanticProgress : Type 0 where
  pub completed : ℕ
  pub total : ℕ
  pub cache_hits : ℕ
  pub cache_misses : ℕ

pub record SemanticPlan (F : Type 0) : Type 0 where
  pub hits : List (String × List F)
  pub misses : List SemanticWorkUnit
  pub groups : List (String × List SemanticInput)

-- What the planner is given: the digest of `embedding_identity`, `math.isfinite`, `json.dumps` of a list,
-- and the cache, the encoder, the materializer and the callback of a call.
pub record Embedding (W F : Type 0) : Type 0 where
  pub embedding_identity : String → String → String
  pub is_finite : F → Bool
  pub dumps : List (Option String) → String
  pub get_many : List String → Exec Error W (List (String × List F))
  pub put_many : List (String × List F) → Exec Error W (Unit {0})
  pub encode : List String → Exec Error W (List (List F))
  pub materialize : String → List F → SemanticInput → Exec Error W (Unit {0})
  pub report : Option (SemanticProgress → Exec Error W (Unit {0}))

pub record SemanticWorkPlanner : Type 0 where
  pub encoder_namespace : String
  pub dimension : ℕ

module _ {A : Type 0} (before : A → A → Bool) where
  -- Python's sort keeps the order of equals: a new first item passes those that come before it.
  unfoldable pub insert_sorted : A → List A → List A
  insert_sorted x [] = x ∷ []
  insert_sorted x (y ∷ ys) = if before y x then y ∷ insert_sorted x ys else x ∷ y ∷ ys

  unfoldable pub sorted : List A → List A
  sorted [] = []
  sorted (x ∷ xs) = insert_sorted x (sorted xs)

  -- `min`: the first of the least.
  abbrev pub least : A → List A → A
  least x [] = x
  least x (y ∷ ys) = least (if before y x then y else x) ys

abbrev pub precedes : String → String → Bool
precedes a b = elim (compare a b) [ Ordering.lt ↦ true | _ ↦ false ]

abbrev pub is_coarse : SemanticTier → Bool
is_coarse SemanticTier.coarse = true
is_coarse SemanticTier.fine = false

abbrev pub by_source_id : SemanticInput → SemanticInput → Bool
by_source_id a b = precedes a.source_id b.source_id

-- `(item.priority, item.source_id)`.
abbrev pub by_priority : SemanticInput → SemanticInput → Bool
by_priority a b = ltb a.priority b.priority || (a.priority == b.priority && by_source_id a b)

-- `(tier != "coarse", tier)`.
abbrev tier_before : SemanticTier → SemanticTier → Bool
tier_before a b = is_coarse a && not (is_coarse b)

-- `(work.priority, work.tier != "coarse", work.content_hash)`.
abbrev pub by_urgency : SemanticWorkUnit → SemanticWorkUnit → Bool
by_urgency a b =
    ltb a.priority b.priority
    || (a.priority == b.priority
        && (tier_before a.tier b.tier
            || (not (tier_before b.tier a.tier) && precedes a.content_hash b.content_hash)))

abbrev pub or_empty : {A : Type 0} → Option (List A) → List A
or_empty none = []
or_empty (some items) = items

-- A group with no item: `[]` for a key that is not there.
abbrev pub items_of : String → List (String × List SemanticInput) → List SemanticInput
items_of key groups = or_empty (find string_discrete key groups)

-- `grouped.setdefault(item.content_hash, []).append(item)`.
unfoldable pub add_item :
    SemanticInput → List (String × List SemanticInput) → List (String × List SemanticInput)
add_item item grouped =
    assign string_discrete item.content_hash (items_of item.content_hash grouped ++ item ∷ [])
      grouped

unfoldable pub group_from :
    List SemanticInput → List (String × List SemanticInput) → List (String × List SemanticInput)
group_from [] grouped = grouped
group_from (item ∷ inputs) grouped = group_from inputs (add_item item grouped)

abbrev pub sort_groups : List (String × List SemanticInput) → List (String × List SemanticInput)
sort_groups [] = []
sort_groups ((key, items) ∷ groups) = (key, sorted by_source_id items) ∷ sort_groups groups

-- `group`.
unfoldable pub group : List SemanticInput → List (String × List SemanticInput)
group inputs = sort_groups (group_from inputs [])

unfoldable pub work_unit : String → SemanticInput → List SemanticInput → SemanticWorkUnit
work_unit content_hash item items = record {
  content_hash = content_hash;
  text = (least by_priority item items).text;
  source_ids = sorted precedes (item.source_id ∷ map (λ i. i.source_id) items);
  tier = least tier_before item.tier (map (λ i. i.tier) items);
  priority = least ltb item.priority (map (λ i. i.priority) items);
}
