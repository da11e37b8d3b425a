-- ===== src/ReadThrough/Parts.antt =====
-- `ValidatedReadThroughCache.get_or_load` of runtime/validated_read_cache.py. The store, the clock,
-- `clone`, and the caller's `validate` and `load` act on a world `W` and may raise. A call is cut where
-- it waits for another caller's flight: `begin` is the part before it, `lead` the leader's load,
-- `finish_waiter` what a waiter does with the completed flight. A flight is the number of its result.
-- The clock is read around a load, but the time that loads take is not added up, and `copy.deepcopy` of
-- a token or an entry, which Python's library does, gives the same.
use andnp_searchkernel.Prelude.{ℕ, ◌+◌, Bool, true, false, Option, none, some, String, List, leb}
use andnp_searchkernel.Exec.{Exec, pure, raise, try_catch, modify, ◌>>=◌, ◌>>◌}

-- An `Exception`, or another `BaseException`, which no fallback catches.
pub data Error : Type 0 where
  exception : String → Error
  interrupt : String → Error

pub record ValidatedCacheEntry (V T : Type 0) : Type 0 where
  pub value : V
  pub validation_token : T
  pub cached_at : ℕ

-- What a flight was completed with: a value, and whether it is a stale one, or an error.
pub data Answer (V : Type 0) : Type 0 where
  answered : V → Bool → Answer V
  failed : Error → Answer V

pub record Metrics : Type 0 where
  pub requests : ℕ
  pub fresh_hits : ℕ
  pub misses : ℕ
  pub validation_mismatches : ℕ
  pub validation_failures : ℕ
  pub stale_fallbacks : ℕ
  pub coalesced_waiters : ℕ
  pub loads : ℕ
  pub load_failures : ℕ
  pub writes : ℕ
  pub write_failures : ℕ
  pub cache_read_failures : ℕ

pub record State (W K V : Type 0) : Type 0 where
  pub world : W
  pub metrics : Metrics
  pub inflight : List (K × ℕ)
  pub results : List (Option (Answer V))

-- The store, the clock, `clone`, and the cache's `ttl_seconds`.
pub record Parts (W K V T : Type 0) : Type 0 where
  pub ttl_seconds : ℕ
  pub now : Exec Error W ℕ
  pub clone : V → Exec Error W V
  pub store_get : K → Exec Error W (Option (ValidatedCacheEntry V T))
  pub store_set : K → ValidatedCacheEntry V T → Exec Error W (Unit {0})

-- What a call goes on with.
pub data Turn (V T : Type 0) : Type 0 where
  fresh : V → Turn V T
  joined : ℕ → Turn V T
  leading : ℕ → Option (ValidatedCacheEntry V T) → Turn V T

module _ {W K V A : Type 0} where
  unfoldable pub call : Exec Error W A → Exec Error (State W K V) A
  call m s = let (r, w) = m s.world in (r, record s { world = w })

module _ {W K V : Type 0} where
  -- `_record`.
  unfoldable pub count : (Metrics → Metrics) → Exec Error (State W K V) (Unit {0})
  count f = modify (λ s. record s { metrics = f s.metrics })

  -- A handler `except Exception`.
  unfoldable pub on_exception :
      {A : Type 0} → Exec Error (State W K V) A → Error → Exec Error (State W K V) A
  on_exception handler (exception m) = handler
  on_exception handler (interrupt m) = raise (interrupt m)

module _ {W K V T : Type 0} (parts : Parts W K V T) where
  -- The entry that the store gave, with a copy of its value.
  unfoldable pub copied :
      Option (ValidatedCacheEntry V T) → Exec Error (State W K V) (Option (ValidatedCacheEntry V T))
  copied none = pure none
  copied (some entry) = do
    value ← call (parts.clone entry.value)
    pure (some (record entry { value = value }))

  -- `_read_entry`.
  unfoldable pub read_entry : K → Exec Error (State W K V) (Option (ValidatedCacheEntry V T))
  read_entry key =
      try_catch (do entry ← call (parts.store_get key); copied entry)
        (on_exception
          (do count (λ m. record m { cache_read_failures = m.cache_read_failures + 1 }); pure none))

  -- `_is_expired`.
  unfoldable pub is_expired : ValidatedCacheEntry V T → Exec Error (State W K V) Bool
  is_expired entry = do at ← call parts.now; pure (leb (entry.cached_at + parts.ttl_seconds) at)

  -- The stale entry and the fresh one of `_inspect_cached_entry`, by what `validate` said.
  unfoldable pub validated :
      ValidatedCacheEntry V T
      → Bool
      → Exec Error
          (State W K V)
          (Option (ValidatedCacheEntry V T) × Option (ValidatedCacheEntry V T))
  validated entry true = do
    count (λ m. record m { fresh_hits = m.fresh_hits + 1 })
    pure (none, some entry)
  validated entry false = do
    count (λ m. record m { validation_mismatches = m.validation_mismatches + 1 })
    pure (some entry, none)

  -- The validation that answers none is one that raised.
  unfoldable pub validated_or_failed :
      ValidatedCacheEntry V T
      → Option Bool
      → Exec Error
          (State W K V)
          (Option (ValidatedCacheEntry V T) × Option (ValidatedCacheEntry V T))
  validated_or_failed entry none = pure (some entry, none)
  validated_or_failed entry (some valid) = validated entry valid

  unfoldable pub inspect_unless :
      Bool
      → (T → Exec Error W Bool)
      → ValidatedCacheEntry V T
      → Exec Error
          (State W K V)
          (Option (ValidatedCacheEntry V T) × Option (ValidatedCacheEntry V T))
  inspect_unless true validate entry = pure (some entry, none)
  inspect_unless false validate entry = do
    valid ←
        try_catch (do v ← call (validate entry.validation_token); pure (some v))
          (on_exception (do
            count (λ m. record m { validation_failures = m.validation_failures + 1 })
            pure none))
    validated_or_failed entry valid

  -- `_inspect_cached_entry`.
  unfoldable pub inspect_cached_entry :
      (T → Exec Error W Bool)
      → Option (ValidatedCacheEntry V T)
      → Exec Error
          (State W K V)
          (Option (ValidatedCacheEntry V T) × Option (ValidatedCacheEntry V T))
  inspect_cached_entry validate none = pure (none, none)
  inspect_cached_entry validate (some entry) = do
    expired ← is_expired entry
    inspect_unless expired validate entry
