-- ===== src/Chunking/Sizes.antt =====
-- How long the windows of chunking/fixed_window_chunker.py are.
use andnp_searchkernel.Prelude.{
  ℕ, zero, suc, ◌+◌, ◌-◌, ◌≤◌, ◌<◌, ◌≡◌, min, false, Bool-cases, inl, inr, List, [], ◌∷◌, leb, ltb,
  ◌==◌, All, arith,
}
use andnp_searchkernel.Exec.{ok}
use andnp_searchkernel.Chunking.Stitch.{Follows, windows_from-Follows}
use andnp_searchkernel.Chunking.Windows.{
  make_chunker, ChunkTuningConfig, Window, window_step, windows_from, merge_trailing, windows,
}

-- Every window but the last is `n` long, and the last at most.
abbrev Full : ℕ → List Window → Type 0
Full n [] = Unit
Full n (w ∷ []) = w.1 ≤ w.0 + n
Full n (v ∷ w ∷ ws) = (v.1 ≡ v.0 + n) × Full n (w ∷ ws)

Full-cons : (n : ℕ) (w : Window) (ws : List Window) → w.1 ≡ w.0 + n → Full n ws → Full n (w ∷ ws)
Full-cons n w [] e f = omega arith
Full-cons n w (x ∷ ws) e f = (e, f)

module _ (config : ChunkTuningConfig) where
  abbrev pub InBounds : Window → Type 0
  InBounds w =
      (min config.min_chunk_chars config.max_chunk_chars ≤ w.1 - w.0)
      × (w.1 - w.0 ≤ config.max_chunk_chars + config.min_chunk_chars)

  windows_from-Full :
      (fuel size start : ℕ) → Full config.max_chunk_chars (windows_from config fuel size start)
  unfolding windows_from
  windows_from-Full zero size start = tt
  windows_from-Full (suc fuel) size start = elim (Bool-cases (ltb start size)) [
    | inr past ↦ rw past tt
    | inl inside ↦
        rw inside (elim (Bool-cases (min (start + config.max_chunk_chars) size == size)) [
          | inl last ↦ rw last (omega arith)
          | inr more ↦ rw more (
              Full-cons config.max_chunk_chars _ _ (ground arith)
                (windows_from-Full fuel size (start + window_step config)))
        ])
  ]

  merge_trailing-InBounds :
      (o e b : ℕ) (v w : Window) (ws : List Window)
      → Follows o e b (v ∷ w ∷ ws)
      → Full config.max_chunk_chars (v ∷ w ∷ ws)
      → All InBounds (merge_trailing config (v ∷ w ∷ ws))
  unfolding merge_trailing
  merge_trailing-InBounds o e b v w [] c f =
      elim (Bool-cases (leb config.min_chunk_chars (w.1 - w.0))) [
        | inl kept ↦ rw kept (
            let k : config.min_chunk_chars ≤ w.1 - w.0 = ground arith in
            ((omega arith, omega arith), ((omega arith, omega arith), tt)))
        | inr merged ↦ rw merged (
            let k : w.1 - w.0 < config.min_chunk_chars = ground arith in
            ((omega arith, omega arith), tt))
      ]
  merge_trailing-InBounds o e b v w (x ∷ ws) c f =
      ((omega arith, omega arith), merge_trailing-InBounds o v.1 b w x ws c.2 f.1)

  many-InBounds :
      (size : ℕ) (ws : List Window)
      → config.max_chunk_chars < size
      → config.overlap_chars < size
      → Follows config.overlap_chars config.overlap_chars size ws
      → Full config.max_chunk_chars ws
      → All InBounds (merge_trailing config ws)
  many-InBounds size [] h k c f = absurd (omega arith)
  many-InBounds size (w ∷ []) h k c f = absurd (omega arith)
  many-InBounds size (v ∷ w ∷ ws) h k c f =
      merge_trailing-InBounds config.overlap_chars config.overlap_chars size v w ws c f

-- A text that is longer than the maximum is cut into windows that are none shorter than the smaller
-- of `min_chunk_chars` and `max_chunk_chars`, and none longer than the two together: the remainder
-- that is folded into its predecessor adds less than `min_chunk_chars`.
pub windows-InBounds :
    (config given : ChunkTuningConfig) (size : ℕ)
    → make_chunker given ≡ ok config
    → config.max_chunk_chars < size
    → All (InBounds config) (windows config size)
unfolding windows make_chunker
windows-InBounds config given size e h =
    let fits : config.overlap_chars < config.max_chunk_chars = ground arith in
    let large : leb size config.max_chunk_chars ≡ false = ground arith in
    let z : 0 + config.overlap_chars ≡ config.overlap_chars = omega arith in
    rw large (
      many-InBounds config size _ h (omega arith)
        (rw z at (windows_from-Follows config fits size size 0 (omega arith) (omega arith)))
        (windows_from-Full config size size 0))
