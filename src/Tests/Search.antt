-- ===== src/Tests/Search.antt =====
-- Limits of searches at small inputs.
use andnp_searchkernel.Prelude.{
  ℕ, ◌-◌, ◌*◌, ◌/◌, ◌≡◌, ◌⊎◌, refl, max, min, true, false, not, ◌||◌, none, some, List, [], ◌∷◌,
  length, take, leb, ltb, ℕ_discrete,
}
use andnp_searchkernel.Dict.{find, assign}
use andnp_searchkernel.Search.Groups.{
  limited_from, limit_per_group, of_group, of_group-limit_per_group,
}
use andnp_searchkernel.Batching.Keys.{contains}
use andnp_searchkernel.Reindex.Domain.{is_space}
use andnp_searchkernel.Search.Projects.{
  before_last, document_of, strip, normalize_project_filter, matches_project_filter,
}
use andnp_searchkernel.Search.Adaptive.{
  Floats, Limits, validate_configuration, grow, floor_of, Grown, resolve_adaptive_result_limit,
  resolve_adaptive_result_limit-Grown,
}

-- Results that are their group and their rank.
abbrev results : List (ℕ × ℕ)
results = (1, 1) ∷ (2, 2) ∷ (1, 3) ∷ (1, 4) ∷ (2, 5) ∷ []

limit_per_group-results :
    limit_per_group ℕ_discrete (λ r. r.0) results 2 ≡ (1, 1) ∷ (2, 2) ∷ (1, 3) ∷ (2, 5) ∷ []
unfolding limit_per_group limited_from find assign ℕ_discrete
limit_per_group-results = refl

of_group-limit_per_group_example :
    of_group ℕ_discrete (λ r. r.0) 1 (limit_per_group ℕ_discrete (λ r. r.0) results 2)
    ≡ take 2 (of_group ℕ_discrete (λ r. r.0) 1 results)
of_group-limit_per_group_example = of_group-limit_per_group ℕ_discrete (λ r. r.0) 1 results 2

-- A chunk's document is what stands before the last mark.
document_of-chunk : document_of "a_chunk_b_chunk_3" ≡ "a_chunk_b"
unfolding document_of before_last
document_of-chunk = refl

-- A blank filter lets everything through, and the names of another are stripped.
matches_project_filter-stripped :
    (matches_project_filter none (normalize_project_filter (" " ∷ [])) ≡ true)
    × (matches_project_filter (some "p") (normalize_project_filter (" " ∷ " p " ∷ [])) ≡ true)
    × (matches_project_filter none (normalize_project_filter (" p " ∷ [])) ≡ false)
unfolding matches_project_filter normalize_project_filter strip is_space contains
matches_project_filter-stripped = (refl, refl, refl)

-- Scores in hundredths, from 0 to 1.
abbrev hundredths : Floats ℕ
hundredths = record {
  below = ltb;
  at_most = leb;
  minus = λ a b. a - b;
  times = λ a b. (a * b) / 100;
  larger = max;
  nought = 0;
  one = 100;
}

abbrev limits : Limits ℕ
limits = record {
  maximum_limit = 4;
  score_ratio_floor = 50;
  minimum_score = 10;
  maximum_score_gap = 20;
}

abbrev scores : List ℕ
scores = 80 ∷ 75 ∷ 60 ∷ 30 ∷ 29 ∷ []

resolve_adaptive_result_limit-Grown_example :
    ((leb (length scores) (max 1 1) || not true) ≡ true) × (3 ≡ min (length scores) (max 1 1))
    ⊎ ((leb (length scores) (max 1 1) || not true) ≡ false)
      × Grown hundredths (floor_of hundredths limits 80) 20 (max (max 1 1) 4) scores (max 1 1) 3
unfolding resolve_adaptive_result_limit validate_configuration grow
resolve_adaptive_result_limit-Grown_example =
    resolve_adaptive_result_limit-Grown hundredths 80 (75 ∷ 60 ∷ 30 ∷ 29 ∷ []) 1 3 true limits refl
      refl
