-- ===== src/Cache/Recency.antt =====
-- What `_BoundedCache` of runtime/canonical_cache.py keeps and what it forgets.
use andnp_searchkernel.Prelude.{
  ℕ, zero, suc, ◌+◌, ◌-◌, ◌≡◌, refl, Option, none, some, inl, inr, List, [], ◌∷◌, ◌++◌, Bool-cases,
  length, length-append, length-drop, drop, leb, ltb, arith,
}
use andnp_searchkernel.Dict.{
  find, without, move_to_end, move_to_end-assign, Distinct, append-Distinct, Absent-without_self,
  without-Distinct, length-without-le, length-without_found,
}
use andnp_searchkernel.Cache.Bounded.{BoundedCache, trim, get_entry, get, set, IsValid}

-- The loop leaves the last `max` entries.
pub trim_lem :
    {E : Type 0} (max : ℕ) (es : List E) (n : ℕ) → (trim max es n).0 ≡ drop (length es - max) es
unfolding trim
trim_lem max [] n = let z : 0 - max ≡ 0 = omega arith in rw z
trim_lem max (e ∷ es) n = elim (Bool-cases (ltb max (length (e ∷ es)))) [
  | inl over ↦
      let m : suc (length es) - max ≡ suc (length es - max) = ground arith in
      rw (over, m) (trim_lem max es (n + 1))
  | inr fits ↦ let z : suc (length es) - max ≡ 0 = ground arith in rw (fits, z)
]

module _ {K V : Type 0} (dec : Discrete K) where
  drop-Distinct : (n : ℕ) (d : List (K × V)) → Distinct dec d → Distinct dec (drop n d)
  drop-Distinct zero d a = a
  drop-Distinct (suc n) [] a = tt
  drop-Distinct (suc n) (e ∷ d) a = drop-Distinct n d a.1

  pub move_to_end_found :
      (k : K) (v : V) (d : List (K × V))
      → find dec k d ≡ some v
      → move_to_end dec k d ≡ without dec k d ++ (k, v) ∷ []
  unfolding move_to_end
  move_to_end_found k v d e = rw e

module _ {K V : Type 0} (dec : Discrete K) where
  -- A write leaves the `max_entries` entries that were used last, the written one at the end.
  pub set-entries :
      (key : K) (value : V) (now : ℕ) (cache : BoundedCache K V)
      → (set dec key value now cache).entries
        ≡ drop
            (length (without dec key cache.entries) + 1 - cache.max_entries)
            (without dec key cache.entries ++ (key, (now + cache.ttl_seconds, value)) ∷ [])
  unfolding set
  set-entries key value now cache = rw (trim_lem, move_to_end-assign, length-append)

  pub set-IsValid :
      (key : K) (value : V) (now : ℕ) (cache : BoundedCache K V)
      → IsValid dec cache
      → IsValid dec (set dec key value now cache)
  unfolding set
  set-IsValid key value now cache h =
      let e = set-entries key value now cache in
      let len =
        length-append (without dec key cache.entries)
          ((key, (now + cache.ttl_seconds, value)) ∷ []) in
      (
        h.0,
        h.1,
        rw (e, length-drop) (omega (arith, len)),
        rw e (
            drop-Distinct dec _ _ (
              append-Distinct dec key _ _ (without-Distinct dec key cache.entries h.3)
                (Absent-without_self dec key cache.entries h.3))),
      )

  get_entry-IsValid :
      (key : K) (now : ℕ) (cache : BoundedCache K V) (entry : Option (ℕ × V))
      → find dec key cache.entries ≡ entry
      → IsValid dec cache
      → IsValid dec (get_entry dec key now cache entry).1
  get_entry-IsValid key now cache none e h = h
  get_entry-IsValid key now cache (some entry) e h = elim (Bool-cases (leb entry.0 now)) [
    | inl old ↦ rw old (
      h.0,
      h.1,
      (let le = length-without-le dec key cache.entries in omega arith),
      without-Distinct dec key cache.entries h.3,
    )
    | inr live ↦
        let len = length-append (without dec key cache.entries) ((key, entry) ∷ []) in
        let found = length-without_found dec key entry cache.entries e in
        rw (live, move_to_end_found dec key entry cache.entries e)
          (
            h.0,
            h.1,
            omega arith,
            append-Distinct dec key _ _ (without-Distinct dec key cache.entries h.3)
                (Absent-without_self dec key cache.entries h.3),
          )
  ]

  pub get-IsValid :
      (key : K) (now : ℕ) (cache : BoundedCache K V)
      → IsValid dec cache
      → IsValid dec (get dec key now cache).1
  unfolding get
  get-IsValid key now cache h = get_entry-IsValid key now cache _ refl h

  get_entry-ttl :
      (key : K) (now : ℕ) (cache : BoundedCache K V) (entry : Option (ℕ × V))
      → (get_entry dec key now cache entry).1.ttl_seconds ≡ cache.ttl_seconds
  get_entry-ttl key now cache none = refl
  get_entry-ttl key now cache (some entry) = elim (Bool-cases (leb entry.0 now)) [
    | inl old ↦ rw old
    | inr live ↦ rw live
  ]

  pub get-ttl :
      (key : K) (now : ℕ) (cache : BoundedCache K V)
      → (get dec key now cache).1.ttl_seconds ≡ cache.ttl_seconds
  unfolding get
  get-ttl key now cache = get_entry-ttl key now cache _
