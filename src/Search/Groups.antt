-- ===== src/Search/Groups.antt =====
-- `limit_per_group` of search/filters.py, over any results and groups with decidable equality.
use andnp_searchkernel.Prelude.{
  ℕ, suc, ◌+◌, ◌-◌, ◌≡◌, ◌≢◌, refl, sym, ap, ◌∙◌, true, false, Bool-cases, inl, inr, Option, none,
  some, List, [], ◌∷◌, take, take_of_length-le, leb, ◌==◌, if◌then◌else◌, arith,
}
use mathlib.Core.Logic.{ite, if_pos, if_neg}
use andnp_searchkernel.Dict.{find, assign, find-assign, find-Absent}
use andnp_searchkernel.Dict.Keys.{find-assign_ne}

-- `d.get(key, 0)`.
abbrev pub or_zero : Option ℕ → ℕ
or_zero none = 0
or_zero (some n) = n

-- The first list is the second without some of its elements.
pub data Sublist {R : Type 0} : List R → List R → Type 0 where
  none_left : Sublist [] []
  skipped : (r : R) {xs ys : List R} → Sublist xs ys → Sublist xs (r ∷ ys)
  kept : (r : R) {xs ys : List R} → Sublist xs ys → Sublist (r ∷ xs) (r ∷ ys)

Sublist-self : {R : Type 0} (xs : List R) → Sublist xs xs
Sublist-self [] = none_left
Sublist-self (x ∷ xs) = kept x (Sublist-self xs)

module _ {R K : Type 0} (dec : Discrete K) (group_key : R → K) where
  abbrev pub count_of : K → List (K × ℕ) → ℕ
  count_of group counts = or_zero (find dec group counts)

  -- The loop over the results, with the counts of the groups.
  unfoldable pub limited_from : ℕ → List R → List (K × ℕ) → List R
  limited_from max [] counts = []
  limited_from max (result ∷ results) counts =
      let current = count_of (group_key result) counts in
      let without_it = limited_from max results counts in
      let with_it = limited_from max results (assign dec (group_key result) (current + 1) counts) in
      if leb max current then without_it else result ∷ with_it

  unfoldable pub limit_per_group : List R → ℕ → List R
  limit_per_group results max = if max == 0 then results else limited_from max results []

  -- The results of a group, in their order.
  unfoldable pub of_group : K → List R → List R
  of_group group [] = []
  of_group group (result ∷ results) =
      ite (dec (group_key result) group) (result ∷ of_group group results) (of_group group results)

  of_group-cons_self :
      (group : K) (r : R) (rs : List R)
      → group_key r ≡ group
      → of_group group (r ∷ rs) ≡ r ∷ of_group group rs
  unfolding of_group
  of_group-cons_self group r rs e = if_pos (dec (group_key r) group) e _ _

  of_group-cons_ne :
      (group : K) (r : R) (rs : List R)
      → group_key r ≢ group
      → of_group group (r ∷ rs) ≡ of_group group rs
  unfolding of_group
  of_group-cons_ne group r rs n = if_neg (dec (group_key r) group) n _ _

  of_group-nil : (group : K) → of_group group [] ≡ []
  unfolding of_group
  of_group-nil group = refl

  take_zero : (n : ℕ) (rs : List R) → n ≡ 0 → take n rs ≡ []
  take_zero n rs e = rw e

  of_group-limited_from :
      (group : K) (max : ℕ) (rs : List R) (counts : List (K × ℕ))
      → of_group group (limited_from max rs counts)
        ≡ take (max - count_of group counts) (of_group group rs)
  unfolding limited_from
  of_group-limited_from group max [] counts =
      rw (of_group-nil group)
        (sym (take_of_length-le (max - count_of group counts) [] (omega arith)))
  of_group-limited_from group max (r ∷ rs) counts =
      elim (Bool-cases (leb max (count_of (group_key r) counts))) [
        | inl full ↦ elim (dec (group_key r) group) [
          | yes p ↦
              let full' : leb max (count_of group counts) ≡ true = rw p at full in
              let z : max - count_of group counts ≡ 0 = ground arith in
              rw (full, of_group-cons_self group r rs p)
                (of_group-limited_from group max rs counts
                  ∙ take_zero _ _ z
                  ∙ sym (take_zero _ _ z))
          | no n ↦
              rw (full, of_group-cons_ne group r rs n) (of_group-limited_from group max rs counts)
        ]
        | inr open_ ↦
            let more = assign dec (group_key r) (count_of (group_key r) counts + 1) counts in
            let rest = of_group-limited_from group max rs more in
            elim (dec (group_key r) group) [
              | yes p ↦
                  let open' : leb max (count_of group counts) ≡ false = rw p at open_ in
                  let c : count_of group more ≡ count_of group counts + 1 =
                    rw p (ap or_zero (find-assign dec group _ counts)) in
                  let s : max - count_of group counts ≡ suc (max - count_of group more) =
                    ground arith in
                  rw
                    (
                      open_,
                      of_group-cons_self group r (limited_from max rs more) p,
                      of_group-cons_self group r rs p,
                      s,
                    )
                    (ap (◌∷◌ r) rest)
              | no n ↦
                  let c : count_of group more ≡ count_of group counts =
                    ap or_zero (find-assign_ne dec group (group_key r) _ counts n) in
                  rw
                    (
                      open_,
                      of_group-cons_ne group r (limited_from max rs more) n,
                      of_group-cons_ne group r rs n,
                    )
                    (rw c at rest)
            ]
      ]

  -- Of every group the result has its first `max_per_group` results in their order, and no other; with
  -- a limit of 0 it has all results.
  pub of_group-limit_per_group :
      (group : K) (results : List R) (max : ℕ)
      → of_group group (limit_per_group results max)
        ≡ (if max == 0 then of_group group results else take max (of_group group results))
  unfolding limit_per_group
  of_group-limit_per_group group results max = elim (Bool-cases (max == 0)) [
    | inl z ↦ rw z
    | inr n ↦
        let c : max - count_of group [] ≡ max = rw (find-Absent dec group [] tt) (omega arith) in
        rw n (rw c at (of_group-limited_from group max results []))
  ]

  limited_from-Sublist :
      (max : ℕ) (rs : List R) (counts : List (K × ℕ)) → Sublist (limited_from max rs counts) rs
  unfolding limited_from
  limited_from-Sublist max [] counts = none_left
  limited_from-Sublist max (r ∷ rs) counts =
      elim (Bool-cases (leb max (count_of (group_key r) counts))) [
        | inl full ↦ rw full (skipped r (limited_from-Sublist max rs counts))
        | inr open_ ↦ rw open_ (
            kept r (
              limited_from-Sublist max rs
                (assign dec (group_key r) (count_of (group_key r) counts + 1) counts)))
      ]

  -- The result is the ranked results without some of them, in the same order.
  pub limit_per_group-Sublist :
      (results : List R) (max : ℕ) → Sublist (limit_per_group results max) results
  unfolding limit_per_group
  limit_per_group-Sublist results max = elim (Bool-cases (max == 0)) [
    | inl z ↦ rw z (Sublist-self results)
    | inr n ↦ rw n (limited_from-Sublist max results [])
  ]
