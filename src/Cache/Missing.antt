-- ===== src/Cache/Missing.antt =====
-- How the two memories of `HydrationCache` (runtime/canonical_cache.py) answer together.
use andnp_searchkernel.Prelude.{
  ℕ, ◌+◌, ◌≤◌, ◌<◌, ◌≡◌, sym, ap, ◌∙◌, true, false, Option, none, some, [], ◌∷◌, length-append, leb,
  ltb, arith,
}
use andnp_searchkernel.Exec.{Result, ok, err}
use andnp_searchkernel.Dict.{find, without, Distinct, move_to_end-assign, Absent-without_self}
use andnp_searchkernel.Cache.Bounded.{get, set, IsValid}
use andnp_searchkernel.Cache.Recency.{trim_lem, set-IsValid}
use andnp_searchkernel.Cache.Lookup.{find-drop_self, get-set}
use andnp_searchkernel.Cache.Flights.{Flights, FutureError}
use andnp_searchkernel.Cache.Hydration.{HydrationCache, lookup, store, set_hydrated, with_flights}

module _ {K V : Type 0} (dec : Discrete K) where
  -- A key whose missing entry is live is answered as missing, whatever the bounded cache holds.
  lookup_missing :
      (key : K) (now until : ℕ) (h : HydrationCache K V)
      → find dec key h.missing ≡ some until
      → now < until
      → (lookup dec key now h).0 ≡ (true, none)
  unfolding lookup
  lookup_missing key now until h e live = let l : ltb now until ≡ true = ground arith in rw (e, l)

  lookup_expired :
      (key : K) (now until : ℕ) (h : HydrationCache K V)
      → find dec key h.missing ≡ some until
      → until ≤ now
      → (lookup dec key now h).0.1 ≡ (get dec key now h.cache).0
  unfolding lookup
  lookup_expired key now until h e old = let l : ltb now until ≡ false = ground arith in rw (e, l)

  find-store_none :
      (key : K) (now : ℕ) (h : HydrationCache K V)
      → 0 < h.cache.max_entries
      → Distinct dec h.missing
      → find dec key (store dec key none now h).missing ≡ some (now + h.missing_ttl_seconds)
  unfolding store
  find-store_none key now h pos distinct =
      let len =
        length-append (without dec key h.missing) ((key, now + h.missing_ttl_seconds) ∷ []) in
      rw (trim_lem, move_to_end-assign)
        (find-drop_self dec key (now + h.missing_ttl_seconds) _ (without dec key h.missing)
          (omega (arith, len)) (Absent-without_self dec key h.missing distinct))

  with_flights-ok :
      (h t : HydrationCache K V) (r : Result FutureError (Flights K (Option V)))
      → with_flights h r ≡ ok t
      → (t.cache ≡ h.cache)
        × (t.missing ≡ h.missing)
        × (t.missing_ttl_seconds ≡ h.missing_ttl_seconds)
  with_flights-ok h t (ok f) e =
      let p : record h { flights = f } ≡ t = cc in
      (
        ap (λ x. x.cache) (sym p),
        ap (λ x. x.missing) (sym p),
        ap (λ x. x.missing_ttl_seconds) (sym p),
      )
  with_flights-ok h t (err x) e = cc

  set_none :
      (key : K) (now : ℕ) (h one : HydrationCache K V)
      → 0 < h.cache.max_entries
      → Distinct dec h.missing
      → set_hydrated dec key none now h ≡ ok one
      → (one.cache ≡ h.cache) × (find dec key one.missing ≡ some (now + h.missing_ttl_seconds))
  unfolding set_hydrated store
  set_none key now h one pos distinct e =
      let a = with_flights-ok (store dec key none now h) one _ e in
      (a.0, rw (a.1) (find-store_none key now h pos distinct))

  set_some :
      (key : K) (value : V) (now : ℕ) (h one : HydrationCache K V)
      → set_hydrated dec key (some value) now h ≡ ok one
      → (one.cache ≡ set dec key value now h.cache) × (one.missing ≡ h.missing)
  unfolding set_hydrated store
  set_some key value now h one e =
      let a = with_flights-ok (store dec key (some value) now h) one _ e in (a.0, a.1)

  -- `set` of a value leaves the key's missing entry: until it expires, `lookup` still answers that the
  -- key is known to be missing, although its value was stored since.
  pub lookup-set-set_none :
      (key : K) (value : V) (now stored later : ℕ) (h one two : HydrationCache K V)
      → IsValid dec h.cache
      → Distinct dec h.missing
      → set_hydrated dec key none now h ≡ ok one
      → set_hydrated dec key (some value) stored one ≡ ok two
      → later < now + h.missing_ttl_seconds
      → (lookup dec key later two).0 ≡ (true, none)
  lookup-set-set_none key value now stored later h one two valid distinct e f live =
      let a = set_none key now h one valid.0 distinct e in
      let b = set_some key value stored one two f in
      lookup_missing key later (now + h.missing_ttl_seconds) two (ap (find dec key) b.1 ∙ a.1) live

  -- `set` of `None` leaves the key's cached value: from the time that the missing entry expires, and
  -- until the cached value does, `lookup` answers the value that was stored before the key was found
  -- missing.
  pub lookup-set_none-set :
      (key : K) (value : V) (stored now later : ℕ) (h one two : HydrationCache K V)
      → IsValid dec h.cache
      → Distinct dec h.missing
      → set_hydrated dec key (some value) stored h ≡ ok one
      → set_hydrated dec key none now one ≡ ok two
      → now + one.missing_ttl_seconds ≤ later
      → later < stored + h.cache.ttl_seconds
      → (lookup dec key later two).0.1 ≡ some value
  lookup-set_none-set key value stored now later h one two valid distinct e f old live =
      let a = set_some key value stored h one e in
      let pos : 0 < one.cache.max_entries =
        rw (a.0) (set-IsValid dec key value stored h.cache valid).0 in
      let b = set_none key now one two pos (rw (a.1) distinct) f in
      let fresh : leb (stored + h.cache.ttl_seconds) later ≡ false = ground arith in
      lookup_expired key later (now + one.missing_ttl_seconds) two b.1 old
      ∙ ap (λ c. (get dec key later c).0) (b.0 ∙ a.0)
      ∙ rw (get-set dec key value stored later h.cache valid, fresh)
