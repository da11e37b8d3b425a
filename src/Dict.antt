-- ===== src/Dict.antt =====
-- Python's `dict` and `OrderedDict`, as the list of the items in their order, over keys with decidable
-- equality.
pub mod Keys
use andnp_searchkernel.Prelude.{
  Bool-cases, inl, inr, String, str_eq, eq_iff, Bool, true, false, ◌∙◌, ◌+◌, ◌≤◌, ◌≡◌, ◌≢◌, refl,
  ap, sym, Option, none, some, List, [], ◌∷◌, ◌++◌, length, arith,
}
use mathlib.Core.Logic.{ite, if_pos, if_neg}

pub str_eq_self : (a : String) → str_eq a a ≡ true
str_eq_self a = (eq_iff a a).1 refl

pub str_eq_ne : (a b : String) → a ≢ b → str_eq a b ≡ false
str_eq_ne a b n = elim (Bool-cases (str_eq a b)) [
  | inl y ↦ absurd (n ((eq_iff a b).0 y))
  | inr z ↦ z
]

pub apart : (a b : String) → str_eq a b ≡ false → a ≢ b
apart a b e q = let t = (eq_iff a b).1 q in cc

abbrev pub decided : (a b : String) (t : Bool) → str_eq a b ≡ t → Dec (a ≡ b)
decided a b true e = yes ((eq_iff a b).0 e)
decided a b false e = no (apart a b e)

unfoldable pub string_discrete : Discrete String
string_discrete a b = decided a b (str_eq a b) refl

module _ {K V : Type 0} (dec : Discrete K) where
  -- `d.get(key)`.
  unfoldable pub find : K → List (K × V) → Option V
  find k [] = none
  find k ((j, v) ∷ d) = ite (dec j k) (some v) (find k d)

  -- `d.pop(key, None)`.
  unfoldable pub without : K → List (K × V) → List (K × V)
  without k [] = []
  without k ((j, v) ∷ d) = ite (dec j k) d ((j, v) ∷ without k d)

  -- `d[key] = value`: in place for a key that is there, at the end for a new one.
  unfoldable pub assign : K → V → List (K × V) → List (K × V)
  assign k v [] = (k, v) ∷ []
  assign k v ((j, w) ∷ d) = ite (dec j k) ((k, v) ∷ d) ((j, w) ∷ assign k v d)

  -- The item at the end that `move_to_end` puts there.
  abbrev pub at_end : K → Option V → List (K × V)
  at_end k none = []
  at_end k (some v) = (k, v) ∷ []

  -- `d.move_to_end(key)`.
  unfoldable pub move_to_end : K → List (K × V) → List (K × V)
  move_to_end k d = without k d ++ at_end k (find k d)

  -- No item of `d` has the key.
  abbrev pub Absent : K → List (K × V) → Type 0
  Absent k [] = Unit
  Absent k ((j, v) ∷ d) = (j ≢ k) × Absent k d

  abbrev pub Distinct : List (K × V) → Type 0
  Distinct [] = Unit
  Distinct ((j, v) ∷ d) = Absent j d × Distinct d

  pub find-cons_self : (k : K) (v : V) (d : List (K × V)) → find k ((k, v) ∷ d) ≡ some v
  unfolding find
  find-cons_self k v d = if_pos (dec k k) refl _ _

  pub find-cons_ne : (k j : K) (v : V) (d : List (K × V)) → j ≢ k → find k ((j, v) ∷ d) ≡ find k d
  unfolding find
  find-cons_ne k j v d n = if_neg (dec j k) n _ _

  pub find-Absent : (k : K) (d : List (K × V)) → Absent k d → find k d ≡ none
  unfolding find
  find-Absent k [] a = refl
  find-Absent k ((j, v) ∷ d) a = rw (if_neg (dec j k) a.0) (find-Absent k d a.1)

  pub without-Absent : (k : K) (d : List (K × V)) → Absent k d → without k d ≡ d
  unfolding without
  without-Absent k [] a = refl
  without-Absent k ((j, v) ∷ d) a =
      rw (if_neg (dec j k) a.0) (ap (◌∷◌ (j, v)) (without-Absent k d a.1))

  Absent-without : (j k : K) (d : List (K × V)) → Absent j d → Absent j (without k d)
  unfolding without
  Absent-without j k [] a = tt
  Absent-without j k ((i, v) ∷ d) a = elim (dec i k) [
    | yes p ↦ rw (if_pos (dec i k) p) a.1
    | no p ↦ rw (if_neg (dec i k) p) (a.0, Absent-without j k d a.1)
  ]

  pub Absent-without_self : (k : K) (d : List (K × V)) → Distinct d → Absent k (without k d)
  unfolding without
  Absent-without_self k [] a = tt
  Absent-without_self k ((i, v) ∷ d) a = elim (dec i k) [
    | yes p ↦ rw (if_pos (dec i k) p) (rw p at a.0)
    | no p ↦ rw (if_neg (dec i k) p) (p, Absent-without_self k d a.1)
  ]

  pub without-Distinct : (k : K) (d : List (K × V)) → Distinct d → Distinct (without k d)
  unfolding without
  without-Distinct k [] a = tt
  without-Distinct k ((i, v) ∷ d) a = elim (dec i k) [
    | yes p ↦ rw (if_pos (dec i k) p) a.1
    | no p ↦ rw (if_neg (dec i k) p) (Absent-without i k d a.0, without-Distinct k d a.1)
  ]

  Absent-append :
      (j k : K) (v : V) (d : List (K × V)) → Absent j d → k ≢ j → Absent j (d ++ (k, v) ∷ [])
  Absent-append j k v [] a n = (n, tt)
  Absent-append j k v ((i, w) ∷ d) a n = (a.0, Absent-append j k v d a.1 n)

  pub append-Distinct :
      (k : K) (v : V) (d : List (K × V)) → Distinct d → Absent k d → Distinct (d ++ (k, v) ∷ [])
  append-Distinct k v [] a b = (tt, tt)
  append-Distinct k v ((i, w) ∷ d) a b =
      (Absent-append i k v d a.0 (λ e. b.0 (sym e)), append-Distinct k v d a.1 b.1)

  pub find-append_ne :
      (j k : K) (v : V) (d : List (K × V)) → k ≢ j → find j (d ++ (k, v) ∷ []) ≡ find j d
  unfolding find
  find-append_ne j k v [] n = if_neg (dec k j) n _ _
  find-append_ne j k v ((i, w) ∷ d) n = rw (find-append_ne j k v d n)

  pub find-append_self :
      (k : K) (v : V) (d : List (K × V)) → Absent k d → find k (d ++ (k, v) ∷ []) ≡ some v
  unfolding find
  find-append_self k v [] a = if_pos (dec k k) refl _ _
  find-append_self k v ((i, w) ∷ d) a = rw (if_neg (dec i k) a.0) (find-append_self k v d a.1)

  pub find-without_ne : (j k : K) (d : List (K × V)) → k ≢ j → find j (without k d) ≡ find j d
  unfolding find without
  find-without_ne j k [] n = refl
  find-without_ne j k ((i, w) ∷ d) n = ground (arith, find-without_ne j k d n)

  pub find-assign : (k : K) (v : V) (d : List (K × V)) → find k (assign k v d) ≡ some v
  unfolding find assign
  find-assign k v [] = if_pos (dec k k) refl _ _
  find-assign k v ((i, w) ∷ d) = ground (arith, find-assign k v d)

  pub without-assign : (k : K) (v : V) (d : List (K × V)) → without k (assign k v d) ≡ without k d
  unfolding without assign
  without-assign k v [] = if_pos (dec k k) refl _ _
  without-assign k v ((i, w) ∷ d) = ground (arith, without-assign k v d)

  -- An assignment and a move to the end: the key is last, and the others keep their order.
  pub move_to_end-assign :
      (k : K) (v : V) (d : List (K × V)) → move_to_end k (assign k v d) ≡ without k d ++ (k, v) ∷ []
  unfolding move_to_end
  move_to_end-assign k v d = rw (without-assign k v d, find-assign k v d)

  pub length-without-le : (k : K) (d : List (K × V)) → length (without k d) ≤ length d
  unfolding without
  length-without-le k [] = omega arith
  length-without-le k ((i, w) ∷ d) = ground (arith, length-without-le k d)

  pub length-without_found :
      (k : K) (v : V) (d : List (K × V)) → find k d ≡ some v → length (without k d) + 1 ≡ length d
  unfolding find without
  length-without_found k v [] e = cc
  length-without_found k v ((i, w) ∷ d) e = ground (arith, length-without_found k v d)

  pub without-find-none : (k : K) (d : List (K × V)) → find k d ≡ none → without k d ≡ d
  unfolding find without
  without-find-none k [] e = refl
  without-find-none k ((i, w) ∷ d) e = ground (arith, without-find-none k d)
