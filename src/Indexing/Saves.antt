-- ===== src/Indexing/Saves.antt =====
-- What saving a cursor in a run of indexing/coordinator.py leaves behind.
use andnp_searchkernel.Prelude.{
  ℕ, ◌≡◌, refl, sym, ◌∙◌, subst, true, false, Bool, if◌then◌else◌, Option, none, some, List, ◌⊎◌,
  inl, inr, String,
}
use mathlib.Core.Bool.{true≢false}
use andnp_searchkernel.Exec.{Exec, pure, modify}
use andnp_searchkernel.Exec.Grows.{Grows, IsGrowth, Anything, Grows-bind, Grows-into, Grows-pure}
use andnp_searchkernel.Indexing.Receipts.{Cursor, Error}
use andnp_searchkernel.Indexing.Placement.{Grows-call}
use andnp_searchkernel.Indexing.Parts.{CheckpointStore, Coordinator, Options, Run, call}
use andnp_searchkernel.Indexing.Coordinator.{save_checkpoint, save_and_report, load_checkpoint}
use andnp_searchkernel.Indexing.Moves.{Lasting, Moves, Moves-IsGrowth, Calm-Moves}
use andnp_searchkernel.Indexing.Calm.{
  Later, Steady, Steady-IsGrowth, Calm, Grows-modify, Grows-report_progress, Collaborates,
}

pub either_way :
    {E W A : Type 0} (P : W → Type 0) (b : Bool) (m n : Exec E W A) (w : W)
    → P (m w).1
    → P (n w).1
    → P ((if b then m else n) w).1
either_way P true m n w x y = x
either_way P false m n w x y = y

module _ {W F : Type 0} (Good : String → List F → W → Type 0) (stored : W → Cursor) where
  -- A store's `load` keeps the stored cursor, and its `save` leaves it or sets it.
  abbrev pub Stores : Option (CheckpointStore W) → Type 0
  Stores none = Unit
  Stores (some store) =
      ((kind : String) (workspace : Option String) (w : W)
        → Steady Good stored w (store.load kind workspace w).1)
      × ((kind : String) (workspace : Option String) (c : Cursor) (w : W)
          → Later Good stored w (store.save kind workspace c w).1
            × ((stored (store.save kind workspace c w).1 ≡ stored w)
                ⊎ (stored (store.save kind workspace c w).1 ≡ c)))

  pub Calm-modify :
      (f : Run W → Run W) (s : Run W)
      → (f s).world ≡ s.world
      → (s.checkpoint_blocked ≡ true → (f s).checkpoint_blocked ≡ true)
      → Calm Good stored s (f s)
  Calm-modify f s e b = record {
    steady =
        subst (Steady Good stored s.world) (sym e) ((Steady-IsGrowth Good stored).stays s.world);
    blocked = b;
  }

  -- After a batch, a run that is not blocked has `P`.
  abbrev pub Unblocked : (W → Type 0) → Run W → Type 0
  Unblocked P t = t.checkpoint_blocked ≡ false → P t.world

  pub Grows-block :
      (P : W → Type 0) (s : Run W)
      → Grows {E = Error}
          (Calm Good stored)
          (modify (λ t. record t { checkpoint_blocked = true }))
          s
          (λ _ t. Unblocked P t)
  unfolding modify
  Grows-block P s = record {
    before = Calm-modify (λ t. record t { checkpoint_blocked = true }) s refl (λ b. refl);
    returned = λ e. absurd (true≢false e);
  }

  pub Grows-load :
      (options : Options W) (store : Option (CheckpointStore W)) (since : Cursor) (w : W)
      → Stores store
      → Grows (Steady Good stored) (load_checkpoint store options since) w Anything
  unfolding load_checkpoint
  Grows-load options none none w k = Grows-pure (Steady-IsGrowth Good stored) none w tt
  Grows-load options none (some c) w k = Grows-pure (Steady-IsGrowth Good stored) _ w tt
  Grows-load options (some store) (some c) w k = Grows-pure (Steady-IsGrowth Good stored) _ w tt
  Grows-load options (some store) none w k =
      Grows-call _ w (k.0 options.source_kind options.workspace_id w)

  module _ {D : Type 0} (parts : Coordinator W F D) (options : Options W)
      (store : Option (CheckpointStore W)) (h : Collaborates Good stored parts options)
      (hs : Stores store) (P : W → Type 0) (C : Cursor → Type 0)
      (lasting : Lasting Good stored P) where
    abbrev pub moving : IsGrowth (Moves Good stored P C)
    moving = Moves-IsGrowth Good stored P C lasting

    -- Only an unblocked run saves, a cursor that has `C` in a world that has `P`.
    saved :
        (o : Option (CheckpointStore W))
        → Stores o
        → (c : Cursor) (s : Run W) → s.checkpoint_blocked ≡ false
        → C c
        → P s.world
        → Grows (Moves Good stored P C) (call (save_checkpoint o options c)) s Anything
    unfolding save_checkpoint call pure
    saved none k c s b d p = record { before = moving.stays s; returned = tt }
    saved (some store) k c s b d p =
        let (l, e) = k.1 options.source_kind options.workspace_id c s.world in
        Grows-call _ s record {
          later = l;
          cursor = elim e [ inl q ↦ inl q | inr q ↦ inr (subst C (sym q) d, lasting _ _ l p) ];
          kept = λ t. absurd (true≢false (sym t ∙ b));
        }

    pub Grows-calm :
        {A : Type 0} {Q : A → Run W → Type 0} {m : Exec Error (Run W) A} {s : Run W}
        → Grows (Calm Good stored) m s Q
        → Grows (Moves Good stored P C) m s Q
    Grows-calm {s} r = Grows-into r (Calm-Moves Good stored P C s)

    pub Grows-save_and_report :
        (batch_index : ℕ) (c : Cursor) (s : Run W)
        → s.checkpoint_blocked ≡ false
        → C c
        → P s.world
        → Grows
            (Moves Good stored P C)
            (save_and_report parts options store batch_index c)
            s
            Anything
    unfolding save_and_report
    Grows-save_and_report batch_index c s b d p =
        Grows-bind moving (saved store hs c s b d p) λ _ t _ _.
          Grows-bind moving
            (Grows-calm (
              Grows-modify Good stored _ t
                record { steady = (Steady-IsGrowth Good stored).stays t.world; blocked = λ e. e }))
            λ _ u _ _. Grows-calm (Grows-report_progress Good stored options _ u h.reports)
