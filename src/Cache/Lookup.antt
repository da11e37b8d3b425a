-- ===== src/Cache/Lookup.antt =====
-- What a read of `_BoundedCache` of runtime/canonical_cache.py finds after a write and other reads.
use andnp_searchkernel.Prelude.{
  ℕ, zero, suc, ◌+◌, ◌-◌, ◌≤◌, ◌<◌, ◌≡◌, ◌≢◌, refl, sym, false, none, some, inl, inr, List, [], ◌∷◌,
  ◌++◌, Bool-cases, length, length-append, drop, leb, if◌then◌else◌, arith,
}
use mathlib.Core.Logic.{if_neg}
use andnp_searchkernel.Dict.{
  find, without, Absent, find-append_self, find-append_ne, Absent-without_self,
}
use andnp_searchkernel.Cache.Bounded.{BoundedCache, get, set, IsValid}
use andnp_searchkernel.Cache.Recency.{set-entries, move_to_end_found}

drop-append :
    {E : Type 0} (n : ℕ) (xs ys : List E) → n ≤ length xs → drop n (xs ++ ys) ≡ drop n xs ++ ys
drop-append zero xs ys h = refl
drop-append (suc n) [] ys h = absurd (omega arith)
drop-append (suc n) (x ∷ xs) ys h = drop-append n xs ys (omega arith)

module _ {K V : Type 0} (dec : Discrete K) where
  drop-Absent : (k : K) (n : ℕ) (d : List (K × V)) → Absent dec k d → Absent dec k (drop n d)
  drop-Absent k zero d a = a
  drop-Absent k (suc n) [] a = tt
  drop-Absent k (suc n) (e ∷ d) a = drop-Absent k n d a.1

  pub find-drop_self :
      (k : K) (v : V) (n : ℕ) (d : List (K × V))
      → n ≤ length d
      → Absent dec k d
      → find dec k (drop n (d ++ (k, v) ∷ [])) ≡ some v
  find-drop_self k v n d h a =
      rw (drop-append n d _ h) (find-append_self dec k v (drop n d) (drop-Absent k n d a))

  without-append_ne :
      (j k : K) (v : V) (d : List (K × V))
      → k ≢ j
      → without dec j (d ++ (k, v) ∷ []) ≡ without dec j d ++ (k, v) ∷ []
  unfolding without
  without-append_ne j k v [] n = if_neg (dec k j) n _ _
  without-append_ne j k v ((i, w) ∷ d) n = ground (arith, without-append_ne j k v d n)

  Absent-without : (j k : K) (d : List (K × V)) → Absent dec j d → Absent dec j (without dec k d)
  unfolding without
  Absent-without j k [] a = tt
  Absent-without j k ((i, v) ∷ d) a = ground (arith, Absent-without j k d a.1)

module _ {K V : Type 0} (dec : Discrete K) where
  pub get_live :
      (key : K) (now : ℕ) (cache : BoundedCache K V) (entry : ℕ × V)
      → find dec key cache.entries ≡ some entry
      → (get dec key now cache).0 ≡ (if leb entry.0 now then none else some entry.1)
  unfolding get
  get_live key now cache entry e =
      rw e (elim (Bool-cases (leb entry.0 now)) [ inl old ↦ rw old | inr live ↦ rw live ])

  pub find-set :
      (key : K) (value : V) (now : ℕ) (cache : BoundedCache K V)
      → IsValid dec cache
      → find dec key (set dec key value now cache).entries ≡ some (now + cache.ttl_seconds, value)
  find-set key value now cache h = rw (set-entries dec) (
      find-drop_self dec key _ _ (without dec key cache.entries) (omega arith)
        (Absent-without_self dec key cache.entries h.3))

  -- A read of a key finds the value that was last written under it until `ttl_seconds` have passed
  -- since the write, and nothing from then on.
  pub get-set :
      (key : K) (value : V) (now later : ℕ) (cache : BoundedCache K V)
      → IsValid dec cache
      → (get dec key later (set dec key value now cache)).0
        ≡ (if leb (now + cache.ttl_seconds) later then none else some value)
  get-set key value now later cache h =
      get_live key later (set dec key value now cache) _ (find-set key value now cache h)

  get-entries :
      (key : K) (now : ℕ) (cache : BoundedCache K V) (entry : ℕ × V)
      → find dec key cache.entries ≡ some entry
      → now < entry.0
      → (get dec key now cache).1 ≡ record cache {
        entries = without dec key cache.entries ++ (key, entry) ∷ [];
        hits = cache.hits + 1;
      }
  unfolding get
  get-entries key now cache entry e live =
      let fresh : leb entry.0 now ≡ false = ground arith in
      rw (e, fresh, move_to_end_found dec key entry cache.entries e)

  -- The last entry but one survives a write.
  find-set_last :
      (key other : K) (value written : V) (expiry later : ℕ) (old : List (K × (ℕ × V)))
      (cache : BoundedCache K V)
      → 1 < cache.max_entries
      → key ≢ other
      → Absent dec key old
      → cache.entries ≡ old ++ (key, (expiry, value)) ∷ []
      → find dec key (set dec other written later cache).entries ≡ some (expiry, value)
  find-set_last key other value written expiry later old cache two n a e =
      let m = without-append_ne dec other key (expiry, value) old n in
      let kept = without dec other old ++ (key, (expiry, value)) ∷ [] in
      let len : length kept ≡ length (without dec other old) + 1 =
        length-append (without dec other old) _ in
      let gone : ℕ = length kept + 1 - cache.max_entries in
      rw
        (
          set-entries dec other written later cache,
          e,
          m,
          drop-append gone kept ((other, (later + cache.ttl_seconds, written)) ∷ []) (omega arith),
          find-append_ne dec key other (later + cache.ttl_seconds, written) (drop gone kept)
              (λ q. n (sym q)),
        )
        (find-drop_self dec key _ gone (without dec other old) (omega arith)
          (Absent-without dec key other old a))

  -- A key that was just read outlives the next write under another key, in a cache of two entries or
  -- more: it is read again until it expires.
  pub get-set-get :
      (key other : K) (value written : V) (expiry now later last : ℕ) (cache : BoundedCache K V)
      → IsValid dec cache
      → 1 < cache.max_entries
      → key ≢ other
      → find dec key cache.entries ≡ some (expiry, value)
      → now < expiry
      → (get dec key last (set dec other written later (get dec key now cache).1)).0
        ≡ (if leb expiry last then none else some value)
  get-set-get key other value written expiry now later last cache h two n e live =
      rw (get-entries key now cache (expiry, value) e live) (
        get_live key last _ (expiry, value)
          (find-set_last key other value written expiry later (without dec key cache.entries) _ two
            n (Absent-without_self dec key cache.entries h.3) refl))
