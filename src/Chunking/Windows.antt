-- ===== src/Chunking/Windows.antt =====
-- `FixedWindowChunker`, over texts as lists of characters `C`. The three configured sizes are taken
-- to be no negative numbers. A chunk's id is its record's id and its index; the metadata that is
-- copied from the record and the digest of the content are left out.
use andnp_searchkernel.Prelude.{
  ℕ, zero, suc, ◌+◌, ◌-◌, min, String, List, [], ◌∷◌, length, take, drop, ltb, leb, ◌==◌,
  if◌then◌else◌,
}
use andnp_searchkernel.Exec.{Result, ok, err}

pub record ChunkTuningConfig : Type 0 where
  pub min_chunk_chars : ℕ
  pub max_chunk_chars : ℕ
  pub overlap_chars : ℕ

pub data ConfigError : Type 0 where
  max_not_positive overlap_too_large : ConfigError

-- `FixedWindowChunker.__init__`.
unfoldable pub make_chunker : ChunkTuningConfig → Result ConfigError ChunkTuningConfig
make_chunker config =
    if config.max_chunk_chars == 0
    then err max_not_positive
    else if leb config.max_chunk_chars config.overlap_chars
    then err overlap_too_large
    else ok config

-- A window's first position and the position behind its last.
abbrev pub Window : Type 0
Window = ℕ × ℕ

-- `content[a:b]`.
abbrev pub slice : {C : Type 0} → ℕ → ℕ → List C → List C
slice a b content = take (b - a) (drop a content)

pub record Chunk (C : Type 0) : Type 0 where
  pub record_id : String
  pub chunk_index : ℕ
  pub content : List C
  pub start_pos : ℕ
  pub end_pos : ℕ

module _ (config : ChunkTuningConfig) where
  abbrev pub window_step : ℕ
  window_step = config.max_chunk_chars - config.overlap_chars

  -- The loop `while start_pos < len(content)`, on fuel, over the length of the content.
  unfoldable pub windows_from : ℕ → ℕ → ℕ → List Window
  windows_from zero size start_pos = []
  windows_from (suc fuel) size start_pos =
      let end_pos = min (start_pos + config.max_chunk_chars) size in
      let rest = windows_from fuel size (start_pos + window_step) in
      let more = if end_pos == size then [] else rest in
      if ltb start_pos size then (start_pos, end_pos) ∷ more else []

  -- `_merge_trailing_small_window`.
  unfoldable pub merge_trailing : List Window → List Window
  merge_trailing [] = []
  merge_trailing (w ∷ []) = w ∷ []
  merge_trailing (v ∷ w ∷ []) =
      if leb config.min_chunk_chars (w.1 - w.0) then v ∷ w ∷ [] else (v.0, w.1) ∷ []
  merge_trailing (v ∷ w ∷ x ∷ ws) = v ∷ merge_trailing (w ∷ x ∷ ws)

  -- The windows of a content of the size; each round of the loop moves on, so the size is fuel
  -- enough.
  unfoldable pub windows : ℕ → List Window
  windows size =
      if leb size config.max_chunk_chars
      then (0, size) ∷ []
      else merge_trailing (windows_from size size 0)

module _ {C : Type 0} (source_id : String) (content : List C) where
  -- `_build_chunk`.
  unfoldable pub build_chunk : ℕ → Window → Chunk C
  build_chunk index w = record {
    record_id = source_id;
    chunk_index = index;
    content = slice w.0 w.1 content;
    start_pos = w.0;
    end_pos = w.0 + length (slice w.0 w.1 content);
  }

  unfoldable pub build_chunks : ℕ → List Window → List (Chunk C)
  build_chunks index [] = []
  build_chunks index (w ∷ ws) = build_chunk index w ∷ build_chunks (index + 1) ws

  -- `chunk_record`.
  unfoldable pub chunk_record : ChunkTuningConfig → List (Chunk C)
  chunk_record config = build_chunks 0 (windows config (length content))
