-- ===== src/Tests/Chunking.antt =====
-- `FixedWindowChunker` on a text of eleven characters.
use andnp_searchkernel.Prelude.{ℕ, ◌≡◌, refl, List, [], ◌∷◌, All, arith}
use andnp_searchkernel.Chunking.Windows.{
  make_chunker, ChunkTuningConfig, windows, windows_from, merge_trailing, chunk_record,
}
use andnp_searchkernel.Chunking.Stitch.{stitch, stitch-chunk_record}
use andnp_searchkernel.Chunking.Sizes.{InBounds, windows-InBounds}

abbrev config : ChunkTuningConfig
config = record { min_chunk_chars = 3; max_chunk_chars = 5; overlap_chars = 2 }

abbrev content : List ℕ
content = 1 ∷ 2 ∷ 3 ∷ 4 ∷ 5 ∷ 6 ∷ 7 ∷ 8 ∷ 9 ∷ 10 ∷ 11 ∷ []

windows_merge : windows config 12 ≡ (0, 5) ∷ (3, 8) ∷ (6, 11) ∷ (9, 12) ∷ []
unfolding windows windows_from merge_trailing
windows_merge = refl

stitch-chunk_record_example : stitch 2 (chunk_record "doc" content config) ≡ content
unfolding make_chunker
stitch-chunk_record_example = stitch-chunk_record "doc" content config config refl

windows-InBounds_example : All (InBounds config) (windows config 11)
unfolding make_chunker
windows-InBounds_example = windows-InBounds config config 11 refl (omega arith)
