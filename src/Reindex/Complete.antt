-- ===== src/Reindex/Complete.antt =====
-- The backfill over a sequence (runtime/reindex.py) with stores and a provider that answer.
use andnp_searchkernel.Prelude.{
  ℕ, zero, suc, ◌+◌, ◌-◌, ◌*◌, ◌≤◌, ◌<◌, min, ◌≡◌, refl, sym, ap, ◌∙◌, none, String, List, [], ◌∷◌,
  ◌++◌, map, ltb, ◌==◌, length, take, drop, All, length-take, length-drop, take-add, drop-add,
  arith, take_of_length-le,
}
use native.Mathlib.Nat.{zero-mul}
use mathlib.Core.List.{append-nil, append_assoc}
use andnp_searchkernel.Exec.{ok, Exec}
use andnp_searchkernel.Exec.Runs.{
  Runs, Runs-pure, Runs-try, Runs-if_true, Runs-if_false, Runs-modify, Runs-bind, Runs-weaken,
}
use andnp_searchkernel.Reindex.Domain.{Error, MigrationState}
use andnp_searchkernel.Reindex.Ports.{TargetRecord, Routine, Session}
use andnp_searchkernel.Reindex.State.{call, lift, save}
use andnp_searchkernel.Reindex.Backfill.{
  ReindexProgress, target_records, semantic_texts, embed_and_upsert, check_batch_total,
  backfill_batch, sequence_loop, range_rounds, backfill_sequence, advance,
}

-- `log` is what the vector store has been given, in order.
pub record Answers {W R F : Type 0} (r : Routine W R F) (log : W → List R) : Type 0 where
  pub positive : 0 < r.batch_size
  pub saves :
      (s : MigrationState) (w : W) → Runs (r.store.save_migration s) w (λ _ w'. log w' ≡ log w)
  pub embeds :
      (texts : List String) (w : W)
      → Runs (r.embed texts) w (λ es w'.
        (length es ≡ length texts) × All (λ e. length e ≡ r.provider_dim) es × (log w' ≡ log w))
  pub upserts :
      (ts : List (TargetRecord R F)) (name : String) (dim : ℕ) (w : W)
      → Runs (r.upsert ts name dim) w (λ _ w'. log w' ≡ log w ++ map (λ t. t.original) ts)

pub Runs-call :
    {W A : Type 0} {Q : A → W → Type 0} (m : Exec Error W A) (s : Session W)
    → Runs m s.world Q
    → Runs (call m) s (λ a t. Q a t.world)
unfolding call
Runs-call m s r = record {
  value = r.value;
  state = record s { world = r.state };
  result = rw r.result;
  holds = r.holds;
}

-- The record's semantic text can be made: its identity is valid.
abbrev pub HasText : {W R F : Type 0} → Routine W R F → R → Type 0
HasText r a = (t : String) × (r.semantic_text a ≡ ok t)

All-take : {A : Type 0} (Q : A → Type 0) (n : ℕ) (xs : List A) → All Q xs → All Q (take n xs)
All-take Q zero xs h = tt
All-take Q (suc n) [] h = tt
All-take Q (suc n) (x ∷ xs) h = (h.0, All-take Q n xs h.1)

All-drop : {A : Type 0} (Q : A → Type 0) (n : ℕ) (xs : List A) → All Q xs → All Q (drop n xs)
All-drop Q zero xs h = h
All-drop Q (suc n) [] h = tt
All-drop Q (suc n) (x ∷ xs) h = All-drop Q n xs h.1

module _ {W R F : Type 0} (r : Routine W R F) {log : W → List R} (h : Answers r log) where
  Runs-save :
      (s : MigrationState) (t : Session W) → Runs (save r s) t (λ _ u. log u.world ≡ log t.world)
  unfolding save
  Runs-save s t = Runs-bind (Runs-call _ t (h.saves s t.world)) λ _ u e. Runs-modify _ u e

  Runs-target_records :
      (batch : List R) (es : List (List F)) (t : Session W)
      → length es ≡ length batch
      → All (λ e. length e ≡ r.provider_dim) es
      → Runs
          (target_records r batch es)
          t
          (λ ts u. (map (λ x. x.original) ts ≡ batch) × (u.world ≡ t.world))
  unfolding target_records
  Runs-target_records [] es t n d = Runs-pure [] t (refl, refl)
  Runs-target_records (a ∷ batch) [] t n d = absurd (omega arith)
  Runs-target_records (a ∷ batch) (e ∷ es) t n d =
      Runs-if_true (length e == r.provider_dim) _ _ t (ground arith) (
        Runs-bind (Runs-target_records batch es t (omega arith) d.1)
          λ ts u q. Runs-pure _ u (ap (◌∷◌ a) q.0, q.1))

  Runs-text :
      (a : R) (t : Session W) → HasText r a → Runs (lift (r.semantic_text a)) t (λ _ u. u ≡ t)
  unfolding lift
  Runs-text a t k = record { value = k.0; state = t; result = rw (k.1); holds = refl }

  Runs-semantic_texts :
      (batch : List R) (t : Session W)
      → All (HasText r) batch
      → Runs (semantic_texts r batch) t (λ texts u. (length texts ≡ length batch) × (u ≡ t))
  unfolding semantic_texts
  Runs-semantic_texts [] t k = Runs-pure [] t (refl, refl)
  Runs-semantic_texts (a ∷ batch) t k = Runs-bind (Runs-text a t k.0) λ x u q.
      Runs-bind (Runs-semantic_texts batch u k.1) λ rest v p. Runs-pure _ v (ap suc p.0, p.1 ∙ q)

  Runs-embed_and_upsert :
      (batch : List R) (t : Session W)
      → All (HasText r) batch
      → Runs (embed_and_upsert r batch) t (λ _ u. log u.world ≡ log t.world ++ batch)
  unfolding embed_and_upsert
  Runs-embed_and_upsert batch t k = Runs-bind (Runs-semantic_texts batch t k) λ texts t' m.
      Runs-bind (Runs-call _ t' (h.embeds texts t'.world)) λ es u q.
        let n : length es ≡ length batch = q.0 ∙ m.0 in
        Runs-if_true (length es == length batch) _ _ u (ground arith) (
          Runs-bind (Runs-target_records batch es u n q.1) λ ts v p.
            Runs-weaken _ v (Runs-call _ v (h.upserts ts r.model_name r.truncate_dim v.world))
              (λ _ x e. rw (e, p.0, p.1, q.2, m.1)))

  Runs-backfill_batch :
      (s : MigrationState) (batch : List R) (n : ℕ) (t : Session W)
      → All (HasText r) batch
      → Runs (backfill_batch r s batch n none none) t (λ p u.
        (p.0.checkpoint ≡ s.checkpoint + length batch)
        × (p.1 ≡ length batch)
        × (log u.world ≡ log t.world ++ batch))
  unfolding backfill_batch check_batch_total
  Runs-backfill_batch s batch n t m = Runs-bind (Runs-save _ t) λ _ u e.
      Runs-bind (Runs-try _ _ u (Runs-embed_and_upsert batch u m)) λ _ v f.
        Runs-bind (Runs-pure tt v f) λ _ x g.
          Runs-bind (Runs-save _ x)
            λ _ y k. Runs-pure _ y (refl, refl, k ∙ g ∙ ap (λ l. l ++ batch) e)

  take-rounds :
      (rounds offset : ℕ) (records : List R)
      → take r.batch_size (drop offset records)
          ++ take (rounds * r.batch_size) (drop (offset + r.batch_size) records)
        ≡ take (suc rounds * r.batch_size) (drop offset records)
  take-rounds rounds offset records =
      let e : suc rounds * r.batch_size ≡ r.batch_size + rounds * r.batch_size = omega arith in
      rw (e, take-add, drop-add)

  -- The loop, from a checkpoint that stands at the offset or at the end.
  Runs-sequence_loop :
      (rounds offset : ℕ) (records : List R) (s : MigrationState) (p : ReindexProgress)
      (t : Session W)
      → All (HasText r) records
      → s.checkpoint ≡ min offset (length records)
      → p.checkpoint ≡ s.checkpoint
      → Runs (sequence_loop r rounds offset records s p) t (λ q u.
        (q.checkpoint ≡ min (offset + rounds * r.batch_size) (length records))
        × (q.records_processed + p.checkpoint ≡ p.records_processed + q.checkpoint)
        × (log u.world ≡ log t.world ++ take (rounds * r.batch_size) (drop offset records)))
  unfolding sequence_loop
  Runs-sequence_loop zero offset records s p t m c d =
      Runs-pure p t (omega arith, refl, sym (rw zero-mul (append-nil _)))
  Runs-sequence_loop (suc rounds) offset records s p t m c d =
      Runs-bind
        (Runs-backfill_batch s _ _ t
          (All-take (HasText r) r.batch_size _ (All-drop (HasText r) offset records m)))
        λ q u e.
          Runs-weaken _ u
            (Runs-sequence_loop rounds (offset + r.batch_size) records q.0 (advance p q.0 q.1) u m
              (omega
                (arith, length-take r.batch_size (drop offset records), length-drop offset records))
              refl)
            λ x v f. (
              omega (arith, f.0),
              omega (arith, f.1, e.0, e.1),
              f.2
                  ∙ ap
                      (λ l.
                        l ++ take (rounds * r.batch_size) (drop (offset + r.batch_size) records))
                      e.2
                  ∙ append_assoc (log t.world) _ _
                  ∙ ap (λ l. log t.world ++ l) (take-rounds rounds offset records),
            )

  rounds-suffice :
      (start stop : ℕ) → stop - start ≤ range_rounds start stop r.batch_size * r.batch_size
  rounds-suffice start stop = let p = h.positive in omega arith

  -- Where every save, embedding and upsert succeeds, with one embedding of the provider's dimension
  -- for each text, the batch size is positive, and the semantic text of every record can be made: from a
  -- checkpoint within the records a backfill
  -- returns with its checkpoint at the end of the records, it has processed as many records as were
  -- left, and the vector store has been given exactly the records from the checkpoint on, once each
  -- and in their order.
  pub Runs-backfill_sequence :
      (records : List R) (s : MigrationState) (p : ReindexProgress) (t : Session W)
      → All (HasText r) records
      → s.checkpoint ≤ length records
      → p.checkpoint ≡ s.checkpoint
      → Runs (backfill_sequence r records s p) t (λ q u.
        (q.checkpoint ≡ length records)
        × (q.records_processed ≡ p.records_processed + (length records - s.checkpoint))
        × (log u.world ≡ log t.world ++ drop s.checkpoint records))
  unfolding backfill_sequence
  Runs-backfill_sequence records s p t m c d =
      let rounds : ℕ = range_rounds s.checkpoint (length records) r.batch_size in
      let enough : length records - s.checkpoint ≤ rounds * r.batch_size =
        rounds-suffice s.checkpoint (length records) in
      Runs-if_false (ltb (length records) s.checkpoint) _ _ t (ground arith) (
        Runs-weaken _ t (Runs-sequence_loop rounds s.checkpoint records s p t m (omega arith) d)
          λ q u f. (
            omega (arith, f.0),
            omega (arith, f.0, f.1),
            f.2
                ∙ ap (λ l. log t.world ++ l)
                    (take_of_length-le (rounds * r.batch_size) (drop s.checkpoint records)
                      (omega (arith, length-drop s.checkpoint records))),
          ))
