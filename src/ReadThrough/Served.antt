-- ===== src/ReadThrough/Served.antt =====
-- Which entries `ValidatedReadThroughCache` (runtime/validated_read_cache.py) serves without a load.
use andnp_searchkernel.Prelude.{
  ℕ, ◌+◌, ◌<◌, ◌≡◌, refl, sym, ap, subst, Bool, true, false, Option, none, some, leb, arith,
}
use andnp_searchkernel.Exec.{
  Result, ok, err, Exec, pure, raise, reads, handle, try_catch, modify, carry_on, ◌>>=◌,
}
use andnp_searchkernel.Exec.Grows.{
  ReturnedAt, Grows, IsGrowth, Anything, Grows-pure, Grows-reads, Grows-bind, Grows-weaken,
}
use andnp_searchkernel.ReadThrough.Parts.{
  Error, exception, interrupt, ValidatedCacheEntry, Metrics, State, Parts, Turn, fresh, call, count,
  on_exception, copied, read_entry, is_expired, validated, validated_or_failed, inspect_unless,
  inspect_cached_entry,
}
use andnp_searchkernel.ReadThrough.Load.{join_or_start, take_turn, begin}

-- Nothing is said of the states between.
abbrev Anyhow : {S : Type 0} → S → S → Type 0
Anyhow s t = Unit

Anyhow-IsGrowth : {S : Type 0} → IsGrowth {S = S} Anyhow
Anyhow-IsGrowth = record { stays = λ s. tt; joins = λ s t u p q. tt }

counted_world :
    {W K V : Type 0} (f : Metrics → Metrics) (s : State W K V)
    → Grows {E = Error} Anyhow (count f) s (λ _ t. t.world ≡ s.world)
unfolding count modify
counted_world f s = record { before = tt; returned = refl }

module _ {W K V T : Type 0} (dec : Discrete K) (parts : Parts W K V T)
    (validate : T → Exec Error W Bool) where
  -- What happens when a value is served from a world on: the store gives an entry, its value is copied,
  -- the clock then says that it has not expired, and its token is accepted.
  pub record IsServed (key : K) (w : W) (v : V) : Type 0 where
    pub entry : ValidatedCacheEntry V T
    pub at : ℕ
    pub after_read : W
    pub after_copy : W
    pub after_check : W
    pub after_validation : W
    pub gives : parts.store_get key w ≡ (ok (some entry), after_read)
    pub copies : parts.clone entry.value after_read ≡ (ok v, after_copy)
    pub tells : parts.now after_copy ≡ (ok at, after_check)
    pub unexpired : at < entry.cached_at + parts.ttl_seconds
    pub validates : validate entry.validation_token after_check ≡ (ok true, after_validation)

  -- The entry that a read gives, by the world before.
  abbrev IsRead : K → W → Option (ValidatedCacheEntry V T) → State W K V → Type 0
  IsRead key w none t = Unit
  IsRead key w (some entry) t =
      (given : ValidatedCacheEntry V T) × (read : W) × (parts.store_get key w
        ≡ (ok (some given), read))
      × (parts.clone given.value read ≡ (ok entry.value, t.world))
      × (entry ≡ record given { value = entry.value })

  -- The entry that an inspection finds fresh, by the world before.
  abbrev IsFresh :
      ValidatedCacheEntry V T
      → W
      → Option (ValidatedCacheEntry V T) × Option (ValidatedCacheEntry V T)
      → State W K V
      → Type 0
  IsFresh entry w (stale, none) t = Unit
  IsFresh entry w (stale, some found) t =
      (found ≡ entry)
      × (at : ℕ) × (checked accepted : W) × (parts.now w ≡ (ok at, checked))
      × (leb (entry.cached_at + parts.ttl_seconds) at ≡ false)
      × (validate entry.validation_token checked ≡ (ok true, accepted))

  abbrev pub Serves : K → W → Turn V T → Type 0
  Serves key w (fresh v) = IsServed key w v
  Serves key w _ = Unit

  copy-IsRead :
      (key : K) (s : State W K V) (given : ValidatedCacheEntry V T) (read w : W)
      (r : Result Error V)
      → parts.store_get key s.world ≡ (ok (some given), read)
      → parts.clone given.value read ≡ (r, w)
      → ReturnedAt (IsRead key s.world) (read_entry parts key s).0 (read_entry parts key s).1
  unfolding read_entry copied on_exception count call pure raise handle try_catch modify carry_on
      ◌>>=◌
  copy-IsRead key s given read w (ok v) e c = rw (e, c) (given, read, e, c, refl)
  copy-IsRead key s given read w (err (exception m)) e c = rw (e, c) tt
  copy-IsRead key s given read w (err (interrupt m)) e c = rw (e, c) tt

  entry-IsRead :
      (key : K) (s : State W K V) (w : W) (r : Result Error (Option (ValidatedCacheEntry V T)))
      → parts.store_get key s.world ≡ (r, w)
      → ReturnedAt (IsRead key s.world) (read_entry parts key s).0 (read_entry parts key s).1
  unfolding read_entry copied on_exception count call pure raise handle try_catch modify carry_on
      ◌>>=◌
  entry-IsRead key s w (ok none) e = rw e tt
  entry-IsRead key s w (ok (some given)) e = copy-IsRead key s given w _ _ e refl
  entry-IsRead key s w (err (exception m)) e = rw e tt
  entry-IsRead key s w (err (interrupt m)) e = rw e tt

  abbrev IsFound :
      K → W → Option (ValidatedCacheEntry V T) × Option (ValidatedCacheEntry V T) → Type 0
  IsFound key w (stale, none) = Unit
  IsFound key w (stale, some entry) = IsServed key w entry.value

  found_lem :
      (key : K) (w : W) (entry given : ValidatedCacheEntry V T) (read : W) (s : State W K V)
      (found : Option (ValidatedCacheEntry V T) × Option (ValidatedCacheEntry V T))
      (t : State W K V)
      → parts.store_get key w ≡ (ok (some given), read)
      → parts.clone given.value read ≡ (ok entry.value, s.world)
      → entry ≡ record given { value = entry.value }
      → IsFresh entry s.world found t
      → IsFound key w found
  found_lem key w entry given read s (stale, none) t g c e f = tt
  found_lem key w entry given read s (stale, some fresh_one) t g c e (q, at, w1, w2, n, x, v) =
      let cached = ap (λ y. y.cached_at) e in
      let token = ap (λ y. y.validation_token) e in
      subst (λ y. IsServed key w y.value) (sym q)
        record {
          entry = given;
          at = at;
          after_read = read;
          after_copy = s.world;
          after_check = w1;
          after_validation = w2;
          gives = g;
          copies = c;
          tells = n;
          unexpired = ground (arith, x, cached);
          validates = rw (← token) v;
        }

  validation_answered :
      (entry : ValidatedCacheEntry V T) (s : State W K V) (at : ℕ) (w w' : W)
      (r : Result Error Bool)
      → parts.now s.world ≡ (ok at, w)
      → leb (entry.cached_at + parts.ttl_seconds) at ≡ false
      → validate entry.validation_token w ≡ (r, w')
      → ReturnedAt
          (IsFresh entry s.world)
          (inspect_cached_entry parts validate (some entry) s).0
          (inspect_cached_entry parts validate (some entry) s).1
  unfolding inspect_cached_entry inspect_unless is_expired validated_or_failed validated
      on_exception count call pure raise handle try_catch modify carry_on ◌>>=◌
  validation_answered entry s at w w' (ok true) e x v = rw (e, x, v) (refl, at, w, w', e, x, v)
  validation_answered entry s at w w' (ok false) e x v = rw (e, x, v) tt
  validation_answered entry s at w w' (err (exception m)) e x v = rw (e, x, v) tt
  validation_answered entry s at w w' (err (interrupt m)) e x v = rw (e, x, v) tt

  expiry_told :
      (entry : ValidatedCacheEntry V T) (s : State W K V) (at : ℕ) (w : W) (b : Bool)
      → parts.now s.world ≡ (ok at, w)
      → leb (entry.cached_at + parts.ttl_seconds) at ≡ b
      → ReturnedAt
          (IsFresh entry s.world)
          (inspect_cached_entry parts validate (some entry) s).0
          (inspect_cached_entry parts validate (some entry) s).1
  unfolding inspect_cached_entry inspect_unless is_expired call pure carry_on ◌>>=◌
  expiry_told entry s at w true e x = rw (e, x) tt
  expiry_told entry s at w false e x = validation_answered entry s at w _ _ e x refl

  clock_answered :
      (entry : ValidatedCacheEntry V T) (s : State W K V) (w : W) (r : Result Error ℕ)
      → parts.now s.world ≡ (r, w)
      → ReturnedAt
          (IsFresh entry s.world)
          (inspect_cached_entry parts validate (some entry) s).0
          (inspect_cached_entry parts validate (some entry) s).1
  unfolding inspect_cached_entry is_expired call carry_on ◌>>=◌
  clock_answered entry s w (ok at) e = expiry_told entry s at w _ e refl
  clock_answered entry s w (err x) e = rw e tt

  Grows-inspect :
      (key : K) (w : W) (o : Option (ValidatedCacheEntry V T)) (s : State W K V)
      → IsRead key w o s
      → Grows Anyhow (inspect_cached_entry parts validate o) s (λ found t. IsFound key w found)
  unfolding inspect_cached_entry
  Grows-inspect key w none s q = Grows-pure Anyhow-IsGrowth _ s tt
  Grows-inspect key w (some entry) s (given, read, g, c, e) =
      Grows-weaken Anyhow-IsGrowth
        (record { before = tt; returned = clock_answered entry s _ _ refl })
        λ found t _ f. found_lem key w entry given read s found t g c e f

  Grows-join_or_start :
      (key : K) (w : W) (stale : Option (ValidatedCacheEntry V T)) (o : Option ℕ) (s : State W K V)
      → Grows Anyhow (join_or_start dec parts key stale o) s (λ turn t. Serves key w turn)
  unfolding join_or_start count modify reads pure ◌>>=◌ carry_on
  Grows-join_or_start key w stale none s = record { before = tt; returned = tt }
  Grows-join_or_start key w stale (some flight) s = record { before = tt; returned = tt }

  Grows-take_turn :
      (key : K) (w : W)
      (found : Option (ValidatedCacheEntry V T) × Option (ValidatedCacheEntry V T))
      (s : State W K V)
      → IsFound key w found
      → Grows Anyhow (take_turn dec parts key found) s (λ turn t. Serves key w turn)
  unfolding take_turn count modify
  Grows-take_turn key w (stale, some entry) s q = Grows-pure Anyhow-IsGrowth _ s q
  Grows-take_turn key w (stale, none) s q =
      Grows-bind Anyhow-IsGrowth {Q = Anything} (record { before = tt; returned = tt })
        λ _ t _ _.
          Grows-bind Anyhow-IsGrowth (Grows-reads Anyhow-IsGrowth _ t)
            λ flight u _ _. Grows-join_or_start key w stale flight u

  -- Whatever the store, the clock, the clones and the caller's validation do: a call that is answered
  -- without a load gives the copy that this call made of the value of the entry that its read of the
  -- store gave for the key, by the clock's next reading the entry had not expired, and the validation
  -- that followed accepted the entry's token.
  pub begin-IsServed :
      (key : K) (s : State W K V)
      → ReturnedAt
          (λ turn t. Serves key s.world turn)
          (begin dec parts key validate s).0
          (begin dec parts key validate s).1
  unfolding begin
  begin-IsServed key s =
      (Grows-bind Anyhow-IsGrowth {Q = λ _ t. t.world ≡ s.world} (counted_world _ s) λ _ t _ p.
        Grows-bind Anyhow-IsGrowth {Q = IsRead key s.world}
          (record {
            before = tt;
            returned =
                subst
                  (λ w.
                    ReturnedAt (IsRead key w) (read_entry parts key t).0 (read_entry parts key t).1)
                  p (entry-IsRead key t _ _ refl);
          })
          λ o u _ q.
            Grows-bind Anyhow-IsGrowth (Grows-inspect key s.world o u q)
              λ found v _ f. Grows-take_turn key s.world found v f).returned
