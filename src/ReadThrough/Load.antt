-- ===== src/ReadThrough/Load.antt =====
-- `begin`, `lead` and `finish_waiter` of `ValidatedReadThroughCache.get_or_load`
-- (runtime/validated_read_cache.py).
use andnp_searchkernel.Prelude.{
  ℕ, ◌+◌, Bool, true, false, Option, none, some, [], ◌∷◌, ◌++◌, length, get_elem?, if◌then◌else◌,
}
use andnp_searchkernel.Exec.{Exec, pure, raise, reads, try_catch, finally, modify, ◌>>=◌, ◌>>◌}
use andnp_searchkernel.Dict.{find, without, assign}
use andnp_searchkernel.Cache.Flights.{set_at}
use andnp_searchkernel.ReadThrough.Parts.{
  Error, exception, interrupt, ValidatedCacheEntry, Answer, answered, failed, State, Parts, Turn,
  fresh, joined, leading, call, count, on_exception, read_entry, inspect_cached_entry,
}

module _ {W K V T : Type 0} (dec : Discrete K) (parts : Parts W K V T) where
  unfoldable pub join_or_start :
      K → Option (ValidatedCacheEntry V T) → Option ℕ → Exec Error (State W K V) (Turn V T)
  join_or_start key stale (some flight) = do
    count (λ m. record m { coalesced_waiters = m.coalesced_waiters + 1 })
    pure (joined flight)
  join_or_start key stale none = do
    flight ← reads (λ s. length s.results)
    modify (λ s. record s {
      inflight = assign dec key (length s.results) s.inflight;
      results = s.results ++ none ∷ [];
    })
    pure (leading flight stale)

  -- A miss, and then `_start_or_join`.
  unfoldable pub take_turn :
      K
      → Option (ValidatedCacheEntry V T) × Option (ValidatedCacheEntry V T)
      → Exec Error (State W K V) (Turn V T)
  take_turn key (stale, some entry) = pure (fresh entry.value)
  take_turn key (stale, none) = do
    count (λ m. record m { misses = m.misses + 1 })
    flight ← reads (λ s. find dec key s.inflight)
    join_or_start key stale flight

  -- `get_or_load` up to the wait or the load.
  unfoldable pub begin : K → (T → Exec Error W Bool) → Exec Error (State W K V) (Turn V T)
  begin key validate = do
    count (λ m. record m { requests = m.requests + 1 })
    entry ← read_entry parts key
    found ← inspect_cached_entry parts validate entry
    take_turn key found

  -- `_write_entry`.
  unfoldable pub write_entry : K → ValidatedCacheEntry V T → Exec Error (State W K V) (Unit {0})
  write_entry key entry = do
    stored ←
        try_catch (do call (parts.store_set key entry); pure true)
          (on_exception
            (do count (λ m. record m { write_failures = m.write_failures + 1 }); pure false))
    if stored then count (λ m. record m { writes = m.writes + 1 }) else pure tt

  -- The future of a flight takes one result only.
  unfoldable pub set_result :
      ℕ → Answer V → Option (Option (Answer V)) → Exec Error (State W K V) (Unit {0})
  set_result flight answer (some none) =
      modify (λ s. record s { results = set_at flight (some answer) s.results })
  set_result flight answer _ = raise (exception "invalid state")

  -- `_complete_success` and `_complete_failure`.
  unfoldable pub complete : K → ℕ → Answer V → Exec Error (State W K V) (Unit {0})
  complete key flight answer = do
    modify (λ s. record s { inflight = without dec key s.inflight })
    result ← reads (λ s. get_elem? s.results flight)
    set_result flight answer result

  -- `_handle_load_failure`.
  unfoldable pub handle_load_failure :
      K → ℕ → Option (ValidatedCacheEntry V T) → Error → Exec Error (State W K V) V
  handle_load_failure key flight (some stale) e = do
    count (λ m. record m { load_failures = m.load_failures + 1 })
    value ← call (parts.clone stale.value)
    complete key flight (answered stale.value true)
    count (λ m. record m { stale_fallbacks = m.stale_fallbacks + 1 })
    pure value
  handle_load_failure key flight none e = do
    count (λ m. record m { load_failures = m.load_failures + 1 })
    complete key flight (failed e)
    raise e

  unfoldable pub load_failed :
      K → ℕ → Option (ValidatedCacheEntry V T) → Error → Exec Error (State W K V) V
  load_failed key flight stale (exception m) = handle_load_failure key flight stale (exception m)
  load_failed key flight stale (interrupt m) = do
    complete key flight (failed (interrupt m))
    raise (interrupt m)

  -- The load, and the attempt to store a copy of what it gave: the value for the waiters and the
  -- leader's copy of it.
  unfoldable pub load_and_write : K → Exec Error W (V × T) → Exec Error (State W K V) (V × V)
  load_and_write key load = do
    loaded ← call load
    kept ← call (parts.clone loaded.0)
    at ← call parts.now
    write_entry key (record { value = kept; validation_token = loaded.1; cached_at = at })
    value ← call (parts.clone loaded.0)
    pure (loaded.0, value)

  -- The `try` statement of `_load_as_leader`.
  unfoldable pub load_or_fall_back :
      K → ℕ → Option (ValidatedCacheEntry V T) → Exec Error W (V × T) → Exec Error (State W K V) V
  load_or_fall_back key flight stale load =
      try_catch
        (do
          loaded ← load_and_write key load
          complete key flight (answered loaded.0 false)
          pure loaded.1)
        (load_failed key flight stale)

  -- `_load_as_leader`.
  unfoldable pub lead :
      K → ℕ → Option (ValidatedCacheEntry V T) → Exec Error W (V × T) → Exec Error (State W K V) V
  lead key flight stale load = do
    started ← call parts.now
    count (λ m. record m { loads = m.loads + 1 })
    finally (load_or_fall_back key flight stale load) (call parts.now)

  unfoldable pub finish : Option (Option (Answer V)) → Exec Error (State W K V) V
  finish (some (some (answered value true))) = do
    count (λ m. record m { stale_fallbacks = m.stale_fallbacks + 1 })
    call (parts.clone value)
  finish (some (some (answered value false))) = call (parts.clone value)
  finish (some (some (failed e))) = raise e
  finish _ = raise (exception "coalescing completed without a result")

  -- `_finish_waiter`.
  unfoldable pub finish_waiter : ℕ → Exec Error (State W K V) V
  finish_waiter flight = do result ← reads (λ s. get_elem? s.results flight); finish result
