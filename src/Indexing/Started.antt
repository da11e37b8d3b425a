-- ===== src/Indexing/Started.antt =====
-- The cursor at which a run of indexing/coordinator.py resumes.
use andnp_searchkernel.Prelude.{◌≡◌, refl, Option, none, some, String}
use andnp_searchkernel.Exec.{Result, ok, err, Exec, pure}
use andnp_searchkernel.Exec.Grows.{ReturnedAt}
use andnp_searchkernel.Indexing.Receipts.{Cursor, Error}
use andnp_searchkernel.Indexing.Parts.{CheckpointStore, Options}
use andnp_searchkernel.Indexing.Coordinator.{load_checkpoint}

module _ {W : Type 0} where
  -- Where a run resumes, and the world once the cursor is known: at the given cursor, at what the store
  -- loads if none is given, at none without a store.
  abbrev pub Resumes :
      String → Option String → Cursor → Option (CheckpointStore W) → W → Cursor → W → Type 0
  Resumes kind workspace (some given) store w checkpoint start =
      (checkpoint ≡ some given) × (start ≡ w)
  Resumes kind workspace none none w checkpoint start = (checkpoint ≡ none) × (start ≡ w)
  Resumes kind workspace none (some store) w checkpoint start =
      store.load kind workspace w ≡ (ok checkpoint, start)

  loaded :
      (m : Exec Error W Cursor) (w t : W) (r : Result Error Cursor)
      → m w ≡ (r, t)
      → ReturnedAt (λ c u. m w ≡ (ok c, u)) r t
  loaded m w t (ok c) e = e
  loaded m w t (err x) e = tt

  pub load_checkpoint-Resumes :
      (options : Options W) (store : Option (CheckpointStore W)) (since : Cursor) (w : W)
      → ReturnedAt
          (Resumes options.source_kind options.workspace_id since store w)
          (load_checkpoint store options since w).0
          (load_checkpoint store options since w).1
  unfolding load_checkpoint pure
  load_checkpoint-Resumes options none none w = (refl, refl)
  load_checkpoint-Resumes options none (some given) w = (refl, refl)
  load_checkpoint-Resumes options (some store) (some given) w = (refl, refl)
  load_checkpoint-Resumes options (some store) none w =
      loaded (store.load options.source_kind options.workspace_id) w _ _ refl
