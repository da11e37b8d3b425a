-- ===== src/Tests/Batching.antt =====
-- Bounded batches at small inputs.
use andnp_searchkernel.Prelude.{ℕ, ◌≡◌, refl, String, List, [], ◌∷◌, All}
use mathlib.Core.List.{flatten}
use andnp_searchkernel.Batching.Keys.{
  contains, chunks_from, iter_ordered_key_chunks, unseen, WithinLimit,
  iter_ordered_key_chunks-unseen,
}
use andnp_searchkernel.Batching.Records.{
  batches_from, iter_prepared_index_batches, IsBounded, iter_prepared_index_batches-IsBounded,
}

abbrev keys : List String
keys = "a" ∷ "b" ∷ "a" ∷ "c" ∷ []

abbrev key_chunks : List (List String)
key_chunks = ("a" ∷ "b" ∷ []) ∷ ("c" ∷ []) ∷ []

iter_ordered_key_chunks-unseen_example :
    (flatten key_chunks ≡ unseen [] keys) × All (WithinLimit 2) key_chunks
unfolding iter_ordered_key_chunks chunks_from contains
iter_ordered_key_chunks-unseen_example = iter_ordered_key_chunks-unseen keys 2 key_chunks refl

-- Records that stand for the number of their chunks.
abbrev records : List ℕ
records = 2 ∷ 2 ∷ 9 ∷ 1 ∷ 1 ∷ 1 ∷ []

abbrev batches : List (List ℕ)
batches = (2 ∷ 2 ∷ []) ∷ (9 ∷ []) ∷ (1 ∷ 1 ∷ []) ∷ (1 ∷ []) ∷ []

iter_prepared_index_batches-IsBounded_example :
    (flatten batches ≡ records) × All (IsBounded (λ n. n) 2 4) batches
unfolding iter_prepared_index_batches batches_from
iter_prepared_index_batches-IsBounded_example =
    iter_prepared_index_batches-IsBounded (λ n. n) records 2 4 batches refl
