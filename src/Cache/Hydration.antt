-- ===== src/Cache/Hydration.antt =====
-- `HydrationCache` of runtime/canonical_cache.py, with the keys that were found missing and until when.
use andnp_searchkernel.Prelude.{
  ℕ, ◌+◌, Bool, true, false, Option, none, some, String, List, ltb, if◌then◌else◌, is_some,
}
use andnp_searchkernel.Exec.{Result, ok, err}
use andnp_searchkernel.Dict.{find, without, assign, move_to_end}
use andnp_searchkernel.Cache.Bounded.{BoundedCache, trim, get, set}
use andnp_searchkernel.Cache.Flights.{
  Outcome, success, failure, Flights, FutureError, start_or_join, complete_inflight, fail_inflight,
}
use andnp_searchkernel.Cache.Candidates.{Turn, cached, joined, leading, count_joined}

pub record HydrationCache (K V : Type 0) : Type 0 where
  pub cache : BoundedCache K V
  pub missing_ttl_seconds : ℕ
  pub missing : List (K × ℕ)
  pub flights : Flights K (Option V)

module _ {K V : Type 0} where
  abbrev pub with_flights :
      HydrationCache K V
      → Result FutureError (Flights K (Option V))
      → Result FutureError (HydrationCache K V)
  with_flights h (ok flights) = ok record h { flights = flights }
  with_flights h (err e) = err e

module _ {K V : Type 0} (dec : Discrete K) where
  -- The part of `lookup` that asks the bounded cache.
  abbrev pub lookup_cached :
      HydrationCache K V → Option V × BoundedCache K V → (Bool × Option V) × HydrationCache K V
  lookup_cached h (value, cache) = ((is_some value, value), record h { cache = cache })

  abbrev pub lookup_after :
      K → ℕ → HydrationCache K V → Option ℕ → (Bool × Option V) × HydrationCache K V
  lookup_after key now h none = lookup_cached h (get dec key now h.cache)
  lookup_after key now h (some missing_until) =
      if ltb now missing_until
      then ((true, none), record h { missing = move_to_end dec key h.missing })
      else lookup_cached (record h { missing = without dec key h.missing })
          (get dec key now h.cache)

  -- `lookup`: whether the answer is known, and the answer.
  unfoldable pub lookup : K → ℕ → HydrationCache K V → (Bool × Option V) × HydrationCache K V
  lookup key now h = lookup_after key now h (find dec key h.missing)

  -- The part of `set` under the lock, but for the flight.
  unfoldable pub store : K → Option V → ℕ → HydrationCache K V → HydrationCache K V
  store key none now h = record h {
    missing =
        (trim h.cache.max_entries
          (move_to_end dec key (assign dec key (now + h.missing_ttl_seconds) h.missing)) 0).0;
  }
  store key (some value) now h = record h { cache = set dec key value now h.cache }

  -- `set`.
  unfoldable pub set_hydrated :
      K → Option V → ℕ → HydrationCache K V → Result FutureError (HydrationCache K V)
  set_hydrated key value now h =
      with_flights (store key value now h) (complete_inflight dec key (success value) h.flights)

  -- `fail`.
  unfoldable pub fail_hydrated :
      K → String → HydrationCache K V → Result FutureError (HydrationCache K V)
  fail_hydrated key error h = with_flights h (complete_inflight dec key (failure error) h.flights)

  abbrev take_turn :
      HydrationCache K V → (ℕ × Bool) × Flights K (Option V) → Turn (Option V) × HydrationCache K V
  take_turn h ((flight, true), flights) = (leading flight, record h { flights = flights })
  take_turn h ((flight, false), flights) =
      (joined flight, record h { cache = count_joined dec h.cache; flights = flights })

  -- `async_wait_for_miss`, up to its wait.
  unfoldable pub claim_hydrated : K → HydrationCache K V → Turn (Option V) × HydrationCache K V
  claim_hydrated key h = take_turn h (start_or_join dec key h.flights)

  abbrev begin_hydrated_after :
      K → (Bool × Option V) × HydrationCache K V → Turn (Option V) × HydrationCache K V
  begin_hydrated_after key ((true, answer), h) = (cached answer, h)
  begin_hydrated_after key ((false, answer), h) = claim_hydrated key h

  -- `async_get_or_compute`, up to its `compute`, and the leader's code behind it.
  unfoldable pub begin_hydrated : K → ℕ → HydrationCache K V → Turn (Option V) × HydrationCache K V
  begin_hydrated key now h = begin_hydrated_after key (lookup key now h)

  unfoldable pub finish_hydrated :
      K → ℕ → Outcome (Option V) → ℕ → HydrationCache K V → Result FutureError (HydrationCache K V)
  finish_hydrated key flight (success value) now h = set_hydrated key value now h
  finish_hydrated key flight (failure error) now h =
      with_flights h (fail_inflight dec key flight error h.flights)
