-- ===== src/Dict/Keys.antt =====
-- The keys of dictionaries: which there are, how many, and that a dictionary whose keys are another's
-- and that is as large has all of them.
use andnp_searchkernel.Prelude.{◌≡◌, ◌≢◌, refl, ◌+◌, sym, ◌∙◌, some, List, [], ◌∷◌, length, arith}
use mathlib.Core.Logic.{if_pos, if_neg}
use andnp_searchkernel.Dict.{
  find, without, assign, find-assign, Absent, Distinct, length-without_found, find-without_ne,
}

module _ {K V : Type 0} (dec : Discrete K) where
  -- Whether `key in d`.
  abbrev pub Has : K → List (K × V) → Type 0
  Has k d = (v : V) × (find dec k d ≡ some v)

  pub find-assign_ne :
      (j k : K) (v : V) (d : List (K × V)) → k ≢ j → find dec j (assign dec k v d) ≡ find dec j d
  unfolding find assign
  find-assign_ne j k v [] n = if_neg (dec k j) n _ _
  find-assign_ne j k v ((i, w) ∷ d) n = ground (arith, find-assign_ne j k v d n)

  pub length-assign_found :
      (k : K) (v w : V) (d : List (K × V))
      → find dec k d ≡ some w
      → length (assign dec k v d) ≡ length d
  unfolding find assign
  length-assign_found k v w [] e = cc
  length-assign_found k v w ((i, x) ∷ d) e = ground (arith, length-assign_found k v w d)

  pub length-assign_new :
      (k : K) (v : V) (d : List (K × V)) → Absent dec k d → length (assign dec k v d) ≡ length d + 1
  unfolding assign
  length-assign_new k v [] a = refl
  length-assign_new k v ((i, w) ∷ d) a =
      let n = length-assign_new k v d a.1 in rw (if_neg (dec i k) a.0) (omega arith)

  pub Absent-assign :
      (j k : K) (v : V) (d : List (K × V))
      → Absent dec j d
      → k ≢ j
      → Absent dec j (assign dec k v d)
  unfolding assign
  Absent-assign j k v [] a n = (n, tt)
  Absent-assign j k v ((i, w) ∷ d) a n = elim (dec i k) [
    | yes p ↦ rw (if_pos (dec i k) p) (n, a.1)
    | no p ↦ rw (if_neg (dec i k) p) (a.0, Absent-assign j k v d a.1 n)
  ]

  pub assign-Distinct :
      (k : K) (v : V) (d : List (K × V)) → Distinct dec d → Distinct dec (assign dec k v d)
  unfolding assign
  assign-Distinct k v [] a = (tt, tt)
  assign-Distinct k v ((i, w) ∷ d) a = elim (dec i k) [
    | yes p ↦ rw (if_pos (dec i k) p) (rw p at a.0, a.1)
    | no p ↦
        rw (if_neg (dec i k) p)
          (Absent-assign i k v d a.0 (λ e. p (sym e)), assign-Distinct k v d a.1)
  ]

  pub Has-assign : (j k : K) (v : V) (d : List (K × V)) → Has j d → Has j (assign dec k v d)
  Has-assign j k v d h = elim (dec k j) [
    | yes p ↦ (v, rw (← p) (find-assign dec k v d))
    | no p ↦ (h.0, rw (find-assign_ne j k v d p) h.1)
  ]

module _ {K V W : Type 0} (dec : Discrete K) where
  -- Every key of the first is one of the second.
  abbrev pub Within : List (K × V) → List (K × W) → Type 0
  Within [] e = Unit
  Within ((k, v) ∷ d) e = Has dec k e × Within d e

  Within-without :
      (k : K) (d : List (K × V)) (e : List (K × W))
      → Absent dec k d
      → Within d e
      → Within d (without dec k e)
  Within-without k [] e a w = tt
  Within-without k ((j, v) ∷ d) e a w = (
    (w.0.0, rw (find-without_ne dec j k e (λ q. a.0 (sym q))) w.0.1),
    Within-without k d e a.1 w.1,
  )

  -- As many keys, all of them the second's: then they are all that the second has.
  pub Has-Within :
      (d : List (K × V)) (e : List (K × W)) (k : K)
      → Distinct dec d
      → Within d e
      → length d ≡ length e
      → Has dec k e
      → Has dec k d
  unfolding find
  Has-Within [] [] k a w l h = absurd (ground arith)
  Has-Within [] (x ∷ e) k a w l h = absurd (omega arith)
  Has-Within ((j, v) ∷ d) e k a w l h = elim (dec j k) [
    | yes p ↦ (v, if_pos (dec j k) p _ _)
    | no p ↦
        let len = length-without_found dec j w.0.0 e w.0.1 in
        let rest =
          Has-Within d (without dec j e) k a.1 (Within-without j d e a.0 w.1) (omega arith)
            (h.0, rw (find-without_ne dec k j e p) h.1) in
        (rest.0, if_neg (dec j k) p _ _ ∙ rest.1)
  ]

  pub Within-assign_right :
      (k : K) (w : W) (d : List (K × V)) (e : List (K × W))
      → Within d e
      → Within d (assign dec k w e)
  Within-assign_right k w [] e h = tt
  Within-assign_right k w ((j, v) ∷ d) e h =
      (Has-assign dec j k w e h.0, Within-assign_right k w d e h.1)

  pub Within-assign_left :
      (k : K) (v : V) (d : List (K × V)) (e : List (K × W))
      → Has dec k e
      → Within d e
      → Within (assign dec k v d) e
  unfolding assign
  Within-assign_left k v [] e a h = (a, tt)
  Within-assign_left k v ((j, w) ∷ d) e a h = elim (dec j k) [
    | yes p ↦ rw (if_pos (dec j k) p) (a, h.1)
    | no p ↦ rw (if_neg (dec j k) p) (h.0, Within-assign_left k v d e a h.1)
  ]
