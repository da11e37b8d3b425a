-- ===== src/Indexing/Moves.antt =====
-- Steps of a run of indexing/coordinator.py that may save a cursor: a batch, and the loop over the rest.
use andnp_searchkernel.Prelude.{
  ◌≡◌, refl, ◌∙◌, sym, subst, true, false, Bool-cases, String, List, ◌⊎◌, inl, inr,
}
use andnp_searchkernel.Exec.Grows.{IsGrowth}
use andnp_searchkernel.Indexing.Receipts.{Cursor}
use andnp_searchkernel.Indexing.Parts.{Run}
use andnp_searchkernel.Indexing.Calm.{Later, Calm}

module _ {W F : Type 0} (Good : String → List F → W → Type 0) (stored : W → Cursor) where
  -- What holds of a world holds of the later ones.
  abbrev pub Lasting : (W → Type 0) → Type 0
  Lasting P = (w w' : W) → Later Good stored w w' → P w → P w'

  -- What a blocked run keeps.
  abbrev pub Kept : Run W → Run W → Type 0
  Kept s t =
      s.checkpoint_blocked ≡ true
      → (stored t.world ≡ stored s.world) × (t.checkpoint_blocked ≡ true)

  -- The stored cursor stays, or it is one that has `C` and the world has `P`.
  pub record Moves (P : W → Type 0) (C : Cursor → Type 0) (s t : Run W) : Type 0 where
    pub later : Later Good stored s.world t.world
    pub cursor : (stored t.world ≡ stored s.world) ⊎ (C (stored t.world) × P t.world)
    pub kept : Kept s t

  Moves-joins :
      (P : W → Type 0) (C : Cursor → Type 0)
      → Lasting P
      → (s t u : Run W) → Moves P C s t
      → Moves P C t u
      → Moves P C s u
  Moves-joins P C l s t u a b = record {
    later = λ id v g. b.later id v (a.later id v g);
    cursor = joined a.cursor b.cursor;
    kept = λ e. let k = a.kept e in let k' = b.kept k.1 in (k'.0 ∙ k.0, k'.1);
  }
    where
      joined :
          (stored t.world ≡ stored s.world) ⊎ (C (stored t.world) × P t.world)
          → (stored u.world ≡ stored t.world) ⊎ (C (stored u.world) × P u.world)
          → (stored u.world ≡ stored s.world) ⊎ (C (stored u.world) × P u.world)
      joined x (inr q) = inr q
      joined (inl p) (inl q) = inl (q ∙ p)
      joined (inr p) (inl q) = inr (subst C (sym q) p.0, l t.world u.world b.later p.1)

  pub Moves-IsGrowth : (P : W → Type 0) (C : Cursor → Type 0) → Lasting P → IsGrowth (Moves P C)
  Moves-IsGrowth P C l = record {
    stays = λ s. record { later = λ id v g. g; cursor = inl refl; kept = λ e. (refl, e) };
    joins = Moves-joins P C l;
  }

  pub Calm-Moves :
      (P : W → Type 0) (C : Cursor → Type 0) (s t : Run W) → Calm Good stored s t → Moves P C s t
  Calm-Moves P C s t b = record {
    later = b.steady.0;
    cursor = inl b.steady.1;
    kept = λ e. (b.steady.1, b.blocked e);
  }

  -- The rest of a loop: the stored cursor stays, or the world that is left has `B`.
  pub record Ends (B : W → Type 0) (s t : Run W) : Type 0 where
    pub later : Later Good stored s.world t.world
    pub cursor : (stored t.world ≡ stored s.world) ⊎ B t.world
    pub kept : Kept s t

  pub Ends-here : (B : W → Type 0) (s : Run W) → Ends B s s
  Ends-here B s = record { later = λ id v g. g; cursor = inl refl; kept = λ e. (refl, e) }

  -- A batch's `P` and cursor, or its `P` and what is said of the rest.
  abbrev pub Next : (W → Type 0) → (Cursor → Type 0) → (W → Type 0) → W → Type 0
  Next P C B w = P w × (C (stored w) ⊎ B w)

  pub Ends-after :
      (P : W → Type 0) (C : Cursor → Type 0) (B : W → Type 0) (s t : Run W)
      → Moves P C s t
      → Ends (Next P C B) s t
  Ends-after P C B s t b = record {
    later = b.later;
    cursor = elim b.cursor [ inl q ↦ inl q | inr q ↦ inr (q.1, inl q.0) ];
    kept = b.kept;
  }

  -- A batch and the rest.
  pub Ends-joined :
      (P : W → Type 0) (C : Cursor → Type 0) (B : W → Type 0)
      → Lasting P
      → (s t u : Run W) → Moves P C s t
      → (t.checkpoint_blocked ≡ false → P t.world)
      → Ends B t u
      → Ends (Next P C B) s u
  Ends-joined P C B l s t u a p b = record {
    later = λ id v g. b.later id v (a.later id v g);
    cursor = joined a.cursor b.cursor (Bool-cases t.checkpoint_blocked);
    kept = λ e. let k = a.kept e in let k' = b.kept k.1 in (k'.0 ∙ k.0, k'.1);
  }
    where
      unmoved :
          (stored t.world ≡ stored s.world) ⊎ (C (stored t.world) × P t.world)
          → stored u.world ≡ stored t.world
          → (stored u.world ≡ stored s.world) ⊎ Next P C B u.world
      unmoved (inl q) q' = inl (q' ∙ q)
      unmoved (inr q) q' = inr (l t.world u.world b.later q.1, inl (subst C (sym q') q.0))

      joined :
          (stored t.world ≡ stored s.world) ⊎ (C (stored t.world) × P t.world)
          → (stored u.world ≡ stored t.world) ⊎ B u.world
          → (t.checkpoint_blocked ≡ true) ⊎ (t.checkpoint_blocked ≡ false)
          → (stored u.world ≡ stored s.world) ⊎ Next P C B u.world
      joined x (inl q) y = unmoved x q
      joined x (inr q) (inl y) = unmoved x (b.kept y).0
      joined x (inr q) (inr n) = inr (l t.world u.world b.later (p n), inr q)
