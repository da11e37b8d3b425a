-- ===== src/Chunking/Stitch.antt =====
-- How the windows of chunking/fixed_window_chunker.py follow one another, and their chunks joined.
use andnp_searchkernel.Prelude.{
  ℕ, zero, suc, ◌+◌, ◌-◌, ◌≤◌, ◌<◌, ◌≡◌, refl, sym, ap, ◌∙◌, min, true, Bool-cases, inl, inr,
  String, List, [], ◌∷◌, ◌++◌, length, take, drop, leb, ltb, ◌==◌, ==_iff, take-add, drop-add,
  take_of_length-le, drop-take, arith,
}
use mathlib.Core.List.{append-nil}
use andnp_searchkernel.Exec.{ok}
use andnp_searchkernel.Chunking.Windows.{
  make_chunker, ChunkTuningConfig, Window, slice, window_step, windows_from, merge_trailing,
  windows, Chunk, build_chunk, build_chunks, chunk_record,
}

-- The windows after one that ends at `e`, up to the end `b`: each starts `o` before the end of the
-- one before, and ends behind it.
abbrev pub Follows : ℕ → ℕ → ℕ → List Window → Type 0
Follows o e b [] = e ≡ b
Follows o e b (w ∷ ws) = (w.0 + o ≡ e) × (e < w.1) × Follows o w.1 b ws

Follows-le : (o e b : ℕ) (ws : List Window) → Follows o e b ws → e ≤ b
Follows-le o e b [] c = omega arith
Follows-le o e b (w ∷ ws) c = omega (arith, Follows-le o w.1 b ws c.2)

module _ (config : ChunkTuningConfig) (fits : config.overlap_chars < config.max_chunk_chars) where
  pub windows_from-Follows :
      (fuel size start : ℕ)
      → start + config.overlap_chars < size
      → size ≤ fuel + start + config.overlap_chars
      → Follows config.overlap_chars
          (start + config.overlap_chars)
          size
          (windows_from config fuel size start)
  unfolding windows_from
  windows_from-Follows zero size start h k = absurd (omega arith)
  windows_from-Follows (suc fuel) size start h k =
      elim (Bool-cases (min (start + config.max_chunk_chars) size == size)) [
        | inl last ↦ rw (inside, last) (refl, omega arith, (==_iff _ _).0 last)
        | inr more ↦
            let past : start + config.max_chunk_chars < size = ground arith in
            let at : min (start + config.max_chunk_chars) size
                ≡ start + window_step config + config.overlap_chars =
              omega arith in
            rw (inside, more, at)
              (
                refl,
                omega arith,
                windows_from-Follows fuel size (start + window_step config) (omega arith)
                    (omega arith),
              )
      ]
    where
      inside : ltb start size ≡ true
      inside = ground arith

  merge_trailing-Follows :
      (o e b : ℕ) (ws : List Window) → Follows o e b ws → Follows o e b (merge_trailing config ws)
  unfolding merge_trailing
  merge_trailing-Follows o e b [] c = c
  merge_trailing-Follows o e b (w ∷ []) c = c
  merge_trailing-Follows o e b (v ∷ w ∷ []) c =
      elim (Bool-cases (leb config.min_chunk_chars (w.1 - w.0))) [
        | inl kept ↦ rw kept c
        | inr merged ↦ rw merged (c.0, omega arith, c.2.2)
      ]
  merge_trailing-Follows o e b (v ∷ w ∷ x ∷ ws) c =
      (c.0, c.1, merge_trailing-Follows o v.1 b (w ∷ x ∷ ws) c.2)

-- What the windows of a list add behind the overlap, joined.
abbrev pub added : {C : Type 0} → ℕ → List C → List Window → List C
added o content [] = []
added o content (w ∷ ws) = slice (w.0 + o) w.1 content ++ added o content ws

slice-append-slice :
    {C : Type 0} (a m b : ℕ) (content : List C)
    → a ≤ m
    → m ≤ b
    → slice a m content ++ slice m b content ≡ slice a b content
slice-append-slice a m b content h k =
    let e : m ≡ a + (m - a) = omega arith in
    let d : drop m content ≡ drop (m - a) (drop a content) =
      ap (λ n. drop n content) e ∙ drop-add a (m - a) content in
    let f : b - a ≡ (m - a) + (b - m) = omega arith in
    ap (λ l. slice a m content ++ take (b - m) l) d
    ∙ sym (take-add (m - a) (b - m) (drop a content))
    ∙ ap (λ n. take n (drop a content)) (sym f)

added-eq-slice :
    {C : Type 0} (o e b : ℕ) (content : List C) (ws : List Window)
    → Follows o e b ws
    → added o content ws ≡ slice e b content
added-eq-slice o e b content [] c = let z : b - e ≡ 0 = omega arith in rw z
added-eq-slice o e b content (w ∷ ws) c =
    rw (c.0, added-eq-slice o w.1 b content ws c.2)
      (slice-append-slice e w.1 b content (omega arith) (Follows-le o w.1 b ws c.2))

-- The chunks without what they share with the chunk before, joined.
abbrev pub new_parts : {C : Type 0} → ℕ → List (Chunk C) → List C
new_parts o [] = []
new_parts o (c ∷ cs) = drop o c.content ++ new_parts o cs

-- The text of chunks: the first whole, and each other without the overlap.
abbrev pub stitch : {C : Type 0} → ℕ → List (Chunk C) → List C
stitch o [] = []
stitch o (c ∷ cs) = c.content ++ new_parts o cs

drop-slice :
    {C : Type 0} (o a b : ℕ) (content : List C)
    → drop o (slice a b content) ≡ slice (a + o) b content
drop-slice o a b content =
    let e : b - (a + o) ≡ b - a - o = omega arith in rw (drop-take, e, drop-add)

module _ {C : Type 0} (source_id : String) (content : List C) where
  new_parts-build_chunks :
      (o index : ℕ) (ws : List Window)
      → new_parts o (build_chunks source_id content index ws) ≡ added o content ws
  unfolding build_chunks build_chunk
  new_parts-build_chunks o index [] = refl
  new_parts-build_chunks o index (w ∷ ws) =
      rw (drop-slice o w.0 w.1 content, new_parts-build_chunks o (index + 1) ws)

  stitch-build_chunks :
      (o : ℕ) (ws : List Window)
      → o < length content
      → Follows o o (length content) ws
      → stitch o (build_chunks source_id content 0 ws) ≡ content
  unfolding build_chunks build_chunk
  stitch-build_chunks o [] h c = absurd (omega arith)
  stitch-build_chunks o (w ∷ ws) h c =
      let start : w.0 ≡ 0 = omega arith in
      rw
        (
          new_parts-build_chunks o (0 + 1) ws,
          added-eq-slice o w.1 (length content) content ws c.2,
          start,
        )
        (slice-append-slice 0 w.1 (length content) content (omega arith)
            (Follows-le o w.1 (length content) ws c.2)
          ∙ take_of_length-le (length content - 0) content (omega arith))

  stitch-whole :
      (o : ℕ) → stitch o (build_chunks source_id content 0 ((0, length content) ∷ [])) ≡ content
  unfolding build_chunks build_chunk
  stitch-whole o = append-nil _ ∙ take_of_length-le (length content - 0) content (omega arith)

  -- The chunks of a record give its text back, whatever the sizes that the chunker accepts: the
  -- first chunk whole and then each chunk without its first `overlap_chars` characters, joined, are
  -- the text. So no character is lost, and neighbours overlap by exactly the configured number.
  pub stitch-chunk_record :
      (config given : ChunkTuningConfig)
      → make_chunker given ≡ ok config
      → stitch config.overlap_chars (chunk_record source_id content config) ≡ content
  unfolding chunk_record windows make_chunker
  stitch-chunk_record config given e =
      elim (Bool-cases (leb (length content) config.max_chunk_chars)) [
        | inl small ↦ rw small (stitch-whole config.overlap_chars)
        | inr large ↦ rw large (
            stitch-build_chunks config.overlap_chars _ (ground arith) (
              merge_trailing-Follows config fits config.overlap_chars config.overlap_chars
                (length content) _
                (let z : 0 + config.overlap_chars ≡ config.overlap_chars = omega arith in
                  rw z at (
                    windows_from-Follows config fits (length content) (length content) 0
                      (ground arith) (omega arith)))))
      ]
    where
      fits : config.overlap_chars < config.max_chunk_chars
      fits = ground arith
