-- ===== src/Batching/Keys.antt =====
-- `iter_ordered_key_chunks` of utils/ordered_key_chunks.py: the chunks that the generator yields.
use andnp_searchkernel.Prelude.{
  ℕ, ◌+◌, ◌≤◌, ◌<◌, ◌≡◌, refl, sym, ap, ◌∙◌, Bool, false, ◌||◌, Bool-cases, inl, inr, String,
  str_eq, List, [], ◌∷◌, ◌++◌, length, length-append, ltb, ◌==◌, All, if◌then◌else◌, arith,
}
use mathlib.Core.List.{append-nil, append_assoc, flatten}
use andnp_searchkernel.Exec.{Result, ok, err}

pub data LimitError : Type 0 where
  limit_not_positive : LimitError

unfoldable pub contains : List String → String → Bool
contains [] key = false
contains (k ∷ ks) key = str_eq k key || contains ks key

abbrev pub last_chunk : List String → List (List String)
last_chunk [] = []
last_chunk (k ∷ ks) = (k ∷ ks) ∷ []

-- The loop over the keys, with the keys seen and the open chunk.
unfoldable pub chunks_from : ℕ → List String → List String → List String → List (List String)
chunks_from limit [] seen chunk = last_chunk chunk
chunks_from limit (key ∷ keys) seen chunk =
    let skipped = chunks_from limit keys seen chunk in
    let full = (chunk ++ key ∷ []) ∷ chunks_from limit keys (key ∷ seen) [] in
    let more = chunks_from limit keys (key ∷ seen) (chunk ++ key ∷ []) in
    if contains seen key
    then skipped
    else if length (chunk ++ key ∷ []) == limit
    then full
    else more

unfoldable pub iter_ordered_key_chunks : List String → ℕ → Result LimitError (List (List String))
iter_ordered_key_chunks keys limit =
    if ltb limit 1 then err limit_not_positive else ok (chunks_from limit keys [] [])

-- The keys without those seen before, each at its first place.
abbrev pub unseen : List String → List String → List String
unseen seen [] = []
unseen seen (key ∷ keys) =
    if contains seen key then unseen seen keys else key ∷ unseen (key ∷ seen) keys

-- Not empty, and within the limit.
abbrev pub WithinLimit : ℕ → List String → Type 0
WithinLimit limit chunk = (0 < length chunk) × (length chunk ≤ limit)

last_chunk_lem : (chunk : List String) → flatten (last_chunk chunk) ≡ chunk
unfolding flatten
last_chunk_lem [] = refl
last_chunk_lem (k ∷ ks) = append-nil (k ∷ ks)

flatten-chunks_from :
    (limit : ℕ) (keys seen chunk : List String)
    → flatten (chunks_from limit keys seen chunk) ≡ chunk ++ unseen seen keys
unfolding chunks_from flatten
flatten-chunks_from limit [] seen chunk = last_chunk_lem chunk ∙ sym (append-nil chunk)
flatten-chunks_from limit (key ∷ keys) seen chunk = elim (Bool-cases (contains seen key)) [
  | inl old ↦ rw (old) (flatten-chunks_from limit keys seen chunk)
  | inr new ↦ rw new (elim (Bool-cases (length (chunk ++ key ∷ []) == limit)) [
    | inl full ↦ rw full (
        ap (λ l. (chunk ++ key ∷ []) ++ l) (flatten-chunks_from limit keys (key ∷ seen) [])
        ∙ append_assoc chunk (key ∷ []) _)
    | inr more ↦ rw more (
        flatten-chunks_from limit keys (key ∷ seen) (chunk ++ key ∷ [])
        ∙ append_assoc chunk (key ∷ []) _)
  ])
]

chunks_from-WithinLimit :
    (limit : ℕ) (keys seen chunk : List String)
    → length chunk < limit
    → All (WithinLimit limit) (chunks_from limit keys seen chunk)
unfolding chunks_from
chunks_from-WithinLimit limit [] seen [] h = tt
chunks_from-WithinLimit limit [] seen (k ∷ ks) h = ((omega arith, omega arith), tt)
chunks_from-WithinLimit limit (key ∷ keys) seen chunk h =
    let n : length (chunk ++ key ∷ []) ≡ length chunk + 1 = length-append chunk (key ∷ []) in
    elim (Bool-cases (contains seen key)) [
      | inl old ↦ rw old (chunks_from-WithinLimit limit keys seen chunk h)
      | inr new ↦ rw new (elim (Bool-cases (length (chunk ++ key ∷ []) == limit)) [
        | inl full ↦ rw full (
          (omega arith, omega arith),
          chunks_from-WithinLimit limit keys (key ∷ seen) [] (omega arith),
        )
        | inr more ↦
            rw more
              (chunks_from-WithinLimit limit keys (key ∷ seen) (chunk ++ key ∷ []) (ground arith))
      ])
    ]

-- With a positive limit the chunks are none empty and none longer than the limit, and joined they
-- are the keys, each once and at its first place, in the order of the input.
pub iter_ordered_key_chunks-unseen :
    (keys : List String) (limit : ℕ) (chunks : List (List String))
    → iter_ordered_key_chunks keys limit ≡ ok chunks
    → (flatten chunks ≡ unseen [] keys) × All (WithinLimit limit) chunks
unfolding iter_ordered_key_chunks
iter_ordered_key_chunks-unseen keys limit chunks e =
    let p : chunks_from limit keys [] [] ≡ chunks = ground arith in
    rw (← p) (
      flatten-chunks_from limit keys [] [],
      chunks_from-WithinLimit limit keys [] [] (ground arith),
    )
