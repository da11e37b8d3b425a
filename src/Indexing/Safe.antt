-- ===== src/Indexing/Safe.antt =====
-- `run_source` of indexing/coordinator.py and the cursor that it leaves in the checkpoint store.
use andnp_searchkernel.Prelude.{
  ℕ, ◌≡◌, ap, refl, sym, subst, Bool, true, false, not, ◌&&◌, Option, none, is_some, List, [], ◌∷◌,
  All, String, arith,
}
use mathlib.Core.Bool.{true≢false}
use andnp_searchkernel.Exec.{Result, ok, err, Exec}
use andnp_searchkernel.Exec.Grows.{
  Grows, IsGrowth, Anything, Grows-pure, Grows-raise, Grows-if, Grows-reads, Grows-weaken,
  Grows-try, Grows-bind,
}
use andnp_searchkernel.Indexing.Receipts.{Cursor, Record, Exception, exception, ingestion, Error}
use andnp_searchkernel.Indexing.Semantic.{SemanticInput}
use andnp_searchkernel.Indexing.Inputs.{
  storage_key, input_with, keyed_input, semantic_input_for_record, cons_ok, inputs_for,
}
use andnp_searchkernel.Indexing.Placement.{Placed}
use andnp_searchkernel.Indexing.Parts.{
  CheckpointStore, Coordinator, BatchOutcome, Options, Run, cursor_eq, unfinished,
}
use andnp_searchkernel.Indexing.Coordinator.{
  with_outcome, prepare, advance, batch_failed, run_batch, prepared_from, settle_batch,
  process_pull,
}
use andnp_searchkernel.Indexing.Moves.{Lasting, Moves}
use andnp_searchkernel.Indexing.Saves.{
  Stores, moving, Calm-modify, Unblocked, Grows-block, Grows-calm, Grows-save_and_report,
}
use andnp_searchkernel.Indexing.Behind.{IsPlaced, All-IsPlaced-Later}
use andnp_searchkernel.Indexing.Calm.{
  Steady, Steady-IsGrowth, Calm, Calm-IsGrowth, Grows-world, Grows-modify, Grows-reject,
  Grows-on_exception, Collaborates,
}
use andnp_searchkernel.Indexing.Succeeded.{Grows-run}

abbrev source_of : Result Error SemanticInput → String
source_of (ok input) = input.source_id
source_of (err e) = ""

cons_ok-ok :
    (x : Result Error SemanticInput) (xs : Result Error (List SemanticInput))
    (inputs : List SemanticInput)
    → cons_ok x xs ≡ ok inputs
    → (input : SemanticInput) × (rest : List SemanticInput) × (input ∷ rest ≡ inputs)
      × (x ≡ ok input)
      × (xs ≡ ok rest)
cons_ok-ok (ok x) (ok xs) inputs e = (x, xs, ground arith, refl, refl)
cons_ok-ok (ok x) (err y) inputs e = absurd (ground arith)
cons_ok-ok (err y) xs inputs e = absurd (ground arith)

module _ {W F : Type 0} (Good : String → List F → W → Type 0) (stored : W → Cursor) {D : Type 0}
    (parts : Coordinator W F D) (options : Options W) (store : Option (CheckpointStore W))
    (h : Collaborates Good stored parts options) (hs : Stores Good stored store) where
  -- The records are placed, and the cursor is this one.
  abbrev pub AllPlaced : List Record → W → Type 0
  AllPlaced rs w = All (IsPlaced parts Good stored w) rs

  abbrev pub Is : Cursor → Cursor → Type 0
  Is c d = d ≡ c

  pub AllPlaced-Lasting : (rs : List Record) → Lasting Good stored (AllPlaced rs)
  AllPlaced-Lasting rs = All-IsPlaced-Later parts Good stored rs

  abbrev growing :
      (rs : List Record) (c : Cursor) → IsGrowth (Moves Good stored (AllPlaced rs) (Is c))
  growing rs c =
      moving Good stored parts options store h hs (AllPlaced rs) (Is c) (AllPlaced-Lasting rs)

  from_calm :
      {A : Type 0} {Q : A → Run W → Type 0} {m : Exec Error (Run W) A} {s : Run W}
      (rs : List Record) (c : Cursor)
      → Grows (Calm Good stored) m s Q
      → Grows (Moves Good stored (AllPlaced rs) (Is c)) m s Q
  from_calm rs c r =
      Grows-calm Good stored parts options store h hs (AllPlaced rs) (Is c) (AllPlaced-Lasting rs) r

  unblocked :
      (c : Cursor) (t : Run W) (due : Bool)
      → due ≡ true
      → due ≡ (is_some c && not t.checkpoint_blocked && not (cursor_eq c t.current_checkpoint))
      → t.checkpoint_blocked ≡ false
  unblocked c t due y e = ground arith

  Grows-advance :
      (batch_index : ℕ) (rs : List Record) (c : Cursor) (s : Run W)
      → All (IsPlaced parts Good stored s.world) rs
      → Grows
          (Moves Good stored (AllPlaced rs) (Is c))
          (advance parts options store batch_index c)
          s
          Anything
  unfolding advance
  Grows-advance batch_index rs c s p =
      Grows-bind (growing rs c) (Grows-reads (growing rs c) _ s) λ due t b e.
        Grows-if (growing rs c) due _ _ t
          (λ y.
            Grows-save_and_report Good stored parts options store h hs (AllPlaced rs) (Is c)
              (AllPlaced-Lasting rs) batch_index c t (unblocked c t due y e) refl
              (All-IsPlaced-Later parts Good stored rs s.world t.world b.later p))
          (λ _. Grows-pure (growing rs c) tt t tt)

  -- One batch: no stored cursor moves, and after a success the records are placed.
  abbrev Works : List Record → BatchOutcome → Run W → Type 0
  Works rs outcome t = outcome.successful ≡ true → All (IsPlaced parts Good stored t.world) rs

  keyed-IsPlaced :
      (r : Record) (key : Result Error String) (input : SemanticInput) (w : W)
      → storage_key parts.embedding r ≡ key
      → keyed_input parts.embedding parts.planner r key ≡ ok input
      → Placed parts.embedding parts.planner Good w input
      → IsPlaced parts Good stored w r
  unfolding input_with
  keyed-IsPlaced r (err e) input w k q p = absurd (ground arith)
  keyed-IsPlaced r (ok key) input w k q p =
      let same : key ≡ input.source_id = ap source_of q in
      (key, p.0, k, p.1, subst (λ i. Good i p.0 w) (sym same) p.2)

  All-IsPlaced-inputs :
      (rs : List Record) (inputs : List SemanticInput) (w : W)
      → inputs_for parts.embedding parts.planner rs ≡ ok inputs
      → All (Placed parts.embedding parts.planner Good w) inputs
      → All (IsPlaced parts Good stored w) rs
  unfolding inputs_for semantic_input_for_record
  All-IsPlaced-inputs [] inputs w q a = tt
  All-IsPlaced-inputs (r ∷ rs) inputs w q a =
      let c = cons_ok-ok _ _ inputs q in
      let a' = subst (All (Placed parts.embedding parts.planner Good w)) (sym c.2) a in
      (
        keyed-IsPlaced r (storage_key parts.embedding r) c.0 w refl c.3 a'.0,
        All-IsPlaced-inputs rs c.1 w c.4 a'.1,
      )

  Grows-prepared_from :
      (o : Result Error (List SemanticInput)) (w : W)
      → Grows
          (Steady Good stored)
          (prepared_from {D = D} o)
          w
          (λ batch _. o ≡ ok batch.semantic_inputs)
  Grows-prepared_from (err e) w = Grows-raise (Steady-IsGrowth Good stored) e w
  Grows-prepared_from (ok inputs) w = Grows-pure (Steady-IsGrowth Good stored) _ w refl

  Grows-batch_failed :
      (rs : List Record) (c : Cursor) (e : Exception) (s : Run W)
      → Grows (Calm Good stored) (batch_failed parts options store rs c e) s (Works rs)
  unfolding batch_failed unfinished
  Grows-batch_failed rs c (ingestion r) s =
      Grows-reject Good stored options.failure_mode r _ s (λ t. absurd (true≢false (sym t)))
  Grows-batch_failed rs c (exception name m) s =
      Grows-reject Good stored options.failure_mode _ _ s (λ t. absurd (true≢false (sym t)))

  Grows-run_batch :
      (rs : List Record) (batch_index : ℕ) (c : Cursor) (s : Run W)
      → Grows (Calm Good stored) (run_batch parts options store none rs batch_index c) s (Works rs)
  unfolding run_batch prepare
  Grows-run_batch rs batch_index c s =
      let g = Calm-IsGrowth Good stored in
      Grows-try g
        (Grows-bind g
          (Grows-world Good stored
            (Grows-prepared_from (inputs_for parts.embedding parts.planner rs) s.world))
          λ batch t _ e.
            Grows-weaken g (Grows-run Good stored parts options h batch rs batch_index c t)
              λ o u _ q y. All-IsPlaced-inputs rs batch.semantic_inputs u.world e (q y))
        (λ e t _. Grows-on_exception Good stored _ (Grows-batch_failed rs c) e t)

  Grows-settle_batch :
      (rs : List Record) (batch_index : ℕ) (c : Cursor) (o : BatchOutcome) (s : Run W)
      → Works rs o s
      → Grows
          (Moves Good stored (AllPlaced rs) (Is c))
          (settle_batch parts options store batch_index c o)
          s
          (λ _ t. Unblocked Good stored (AllPlaced rs) t)
  unfolding settle_batch
  Grows-settle_batch rs batch_index c o s p =
      let g = growing rs c in
      Grows-bind g
        (from_calm rs c (
          Grows-modify Good stored (with_outcome o) s
            (Calm-modify Good stored (with_outcome o) s refl (λ b. b))))
        λ _ t b _.
          let later = All-IsPlaced-Later parts Good stored rs s.world t.world b.later in
          Grows-if g o.successful _ _ t
            (λ y. Grows-weaken g (Grows-advance batch_index rs c t (later (p y))) λ _ u b' _ _.
              All-IsPlaced-Later parts Good stored rs t.world u.world b'.later (later (p y)))
            (λ n. from_calm rs c (Grows-block Good stored (AllPlaced rs) t))

  -- One pull.
  pub Grows-process_pull :
      (batch_index : ℕ) (rs : List Record) (c : Cursor) (s : Run W)
      → Grows
          (Moves Good stored (AllPlaced rs) (Is c))
          (process_pull parts options store none batch_index rs c)
          s
          (λ _ t. Unblocked Good stored (AllPlaced rs) t)
  unfolding process_pull
  Grows-process_pull batch_index [] c s =
      Grows-weaken (growing [] c) (Grows-advance batch_index [] c s tt) λ _ t _ _ _. tt
  Grows-process_pull batch_index (r ∷ rs) c s =
      let g = growing (r ∷ rs) c in
      Grows-bind g (Grows-reads g _ s) λ checkpoint t _ _.
        Grows-bind g (from_calm (r ∷ rs) c (Grows-run_batch (r ∷ rs) batch_index checkpoint t))
          λ o u _ q. Grows-settle_batch (r ∷ rs) batch_index c o u q
