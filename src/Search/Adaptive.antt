-- ===== src/Search/Adaptive.antt =====
-- `resolve_adaptive_result_limit` of search/adaptive_limit.py. Scores are floats: what the code does with
-- them is a parameter, of which no law is used. A negative `requested_limit` counts as 0 here, which
-- `max(requested_limit, 1)` makes no difference to.
use andnp_searchkernel.Prelude.{
  ℕ, zero, suc, ◌+◌, ◌-◌, ◌≤◌, ◌<◌, ◌≡◌, ◌⊎◌, ==_iff, sym, min, max, Bool, true, false, not, ◌&&◌,
  ◌||◌, Bool-cases, inl, inr, Option, some, List, [], ◌∷◌, length, get_elem?, leb, ltb, ◌==◌,
  if◌then◌else◌, arith,
}
use andnp_searchkernel.Exec.{Result, ok, err}

-- Float arithmetic.
pub record Floats (S : Type 0) : Type 0 where
  pub below : S → S → Bool
  pub at_most : S → S → Bool
  pub minus : S → S → S
  pub times : S → S → S
  pub larger : S → S → S
  pub nought : S
  pub one : S

pub data ConfigurationError : Type 0 where
  maximum_limit_low score_ratio_floor_out minimum_score_out maximum_score_gap_out :
      ConfigurationError

pub record Limits (S : Type 0) : Type 0 where
  pub maximum_limit : ℕ
  pub score_ratio_floor : S
  pub minimum_score : S
  pub maximum_score_gap : S

module _ {S : Type 0} (floats : Floats S) where
  abbrev pub in_unit : S → Bool
  in_unit s = floats.at_most floats.nought s && floats.at_most s floats.one

  -- `_validate_configuration`.
  unfoldable pub validate_configuration : Limits S → Result ConfigurationError (Limits S)
  validate_configuration l =
      if ltb l.maximum_limit 1
      then err maximum_limit_low
      else if not (in_unit l.score_ratio_floor)
      then err score_ratio_floor_out
      else if not (in_unit l.minimum_score)
      then err minimum_score_out
      else if not (in_unit l.maximum_score_gap)
      then err maximum_score_gap_out
      else ok l

  -- Neither `break` of the loop: the score is above the floor and near enough to the one before it.
  abbrev pub accepts : S → S → Option S → Option S → Bool
  accepts floor gap (some previous) (some candidate) =
      not (floats.below candidate floor) && not (floats.below gap (floats.minus previous candidate))
  accepts floor gap _ _ = false

  -- The loop, on fuel.
  unfoldable pub grow : S → S → ℕ → List S → ℕ → ℕ → ℕ
  grow floor gap cap scores zero limit = limit
  grow floor gap cap scores (suc fuel) limit =
      let rest = grow floor gap cap scores fuel (limit + 1) in
      if ltb limit (length scores) && ltb limit cap
      then if accepts floor gap (get_elem? scores (limit - 1)) (get_elem? scores limit)
        then rest
        else limit
      else limit

  -- `minimum_accepted_score`, from the top score.
  abbrev pub floor_of : Limits S → S → S
  floor_of l top = floats.larger l.minimum_score (floats.times top l.score_ratio_floor)

  abbrev pub resolve : List S → ℕ → Bool → Limits S → ℕ
  resolve [] requested enabled l = min 0 (max requested 1)
  resolve (top ∷ scores) requested enabled l =
      if leb (length (top ∷ scores)) (max requested 1) || not enabled
      then min (length (top ∷ scores)) (max requested 1)
      else grow (floor_of l top) l.maximum_score_gap (max (max requested 1) l.maximum_limit)
          (top ∷ scores) (length (top ∷ scores)) (max requested 1)

  unfoldable pub resolve_adaptive_result_limit :
      List S → ℕ → Bool → Limits S → Result ConfigurationError ℕ
  resolve_adaptive_result_limit scores requested enabled given =
      elim (validate_configuration given) [
        | ok l ↦ ok (resolve scores requested enabled l)
        | err e ↦ err e
      ]

  -- The limit grew from `start` to `limit` over accepted scores only, and stopped because of the number
  -- of scores, the cap, or a score that is not accepted.
  abbrev pub Grown : S → S → ℕ → List S → ℕ → ℕ → Type 0
  Grown floor gap cap scores start limit =
      (start ≤ limit)
      × (limit ≤ max start (min (length scores) cap))
      × ((i : ℕ)
          → start ≤ i
          → i < limit
          → accepts floor gap (get_elem? scores (i - 1)) (get_elem? scores i) ≡ true)
      × ((limit < length scores)
          → (limit < cap)
          → accepts floor gap (get_elem? scores (limit - 1)) (get_elem? scores limit) ≡ false)

  stopped :
      (floor gap : S) (cap : ℕ) (scores : List S) (limit : ℕ)
      → ((limit < length scores)
          → (limit < cap)
          → accepts floor gap (get_elem? scores (limit - 1)) (get_elem? scores limit) ≡ false)
      → Grown floor gap cap scores limit limit
  stopped floor gap cap scores limit h =
      (omega arith, omega arith, λ i a b. absurd (omega arith), h)

  grow-Grown :
      (floor gap : S) (cap : ℕ) (scores : List S) (fuel limit : ℕ)
      → length scores ≤ limit + fuel
      → Grown floor gap cap scores limit (grow floor gap cap scores fuel limit)
  unfolding grow
  grow-Grown floor gap cap scores zero limit h =
      stopped floor gap cap scores limit (λ a b. absurd (omega arith))
  grow-Grown floor gap cap scores (suc fuel) limit h =
      elim (Bool-cases (ltb limit (length scores) && ltb limit cap)) [
        | inr out ↦ rw out (stopped floor gap cap scores limit (λ a b. absurd (ground arith)))
        | inl in_ ↦
            elim (Bool-cases
              (accepts floor gap (get_elem? scores (limit - 1)) (get_elem? scores limit))) [
                | inr no_ ↦ rw (in_, no_) (stopped floor gap cap scores limit (λ a b. no_))
                | inl yes_ ↦
                    let g = grow-Grown floor gap cap scores fuel (limit + 1) (omega arith) in
                    let room : limit < min (length scores) cap = ground arith in
                    rw (in_, yes_) (omega arith, omega arith, earlier limit _ yes_ g.2, g.3)
              ]
      ]
    where
      earlier :
          (limit grown : ℕ)
          → accepts floor gap (get_elem? scores (limit - 1)) (get_elem? scores limit) ≡ true
          → ((i : ℕ)
              → limit + 1 ≤ i
              → i < grown
              → accepts floor gap (get_elem? scores (i - 1)) (get_elem? scores i) ≡ true)
          → (i : ℕ) → limit ≤ i
          → i < grown
          → accepts floor gap (get_elem? scores (i - 1)) (get_elem? scores i) ≡ true
      earlier limit grown e k i a b = elim (Bool-cases (limit == i)) [
        | inl same ↦ let q : limit ≡ i = (==_iff limit i).0 same in rw (← q) e
        | inr other ↦ k i (ground arith) b
      ]

  -- With a valid configuration: without adaptive growth, or with no more scores than are asked for, the
  -- limit is the smaller of the two numbers, where at least one is asked for. Else it grows from there
  -- over the accepted scores, as far as it can: up to the first score that is not accepted, all scores,
  -- or the larger of `maximum_limit` and the request.
  pub resolve_adaptive_result_limit-Grown :
      (top : S) (scores : List S) (requested limit : ℕ) (enabled : Bool) (l : Limits S)
      → validate_configuration l ≡ ok l
      → resolve_adaptive_result_limit (top ∷ scores) requested enabled l ≡ ok limit
      → ((leb (length (top ∷ scores)) (max requested 1) || not enabled) ≡ true)
          × (limit ≡ min (length (top ∷ scores)) (max requested 1))
        ⊎ ((leb (length (top ∷ scores)) (max requested 1) || not enabled) ≡ false)
          × Grown
              (floor_of l top)
              l.maximum_score_gap
              (max (max requested 1) l.maximum_limit)
              (top ∷ scores)
              (max requested 1)
              limit
  unfolding resolve_adaptive_result_limit
  resolve_adaptive_result_limit-Grown top scores requested limit enabled l v e =
      let p : resolve (top ∷ scores) requested enabled l ≡ limit =
        (let q = rw (resolve_adaptive_result_limit, v) at e in cc) in
      elim (Bool-cases (leb (length (top ∷ scores)) (max requested 1) || not enabled)) [
        | inl fixed ↦ inl (fixed, sym (rw fixed at p))
        | inr grows ↦ inr (
          grows,
          rw (← p, grows)
              (grow-Grown (floor_of l top) l.maximum_score_gap
                (max (max requested 1) l.maximum_limit) (top ∷ scores) (length (top ∷ scores))
                (max requested 1) (omega arith)),
        )
      ]
