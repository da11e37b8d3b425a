-- ===== src/Cache/Candidates.antt =====
-- `CandidateResultCache` of runtime/canonical_cache.py. A coroutine is cut where it awaits: `begin` is
-- `async_get_or_compute` up to its `compute`, and `finish` is the leader's code behind it. The value
-- `none` of a cached key is a value like another here, as a cached result is not `None`.
use andnp_searchkernel.Prelude.{ℕ, ◌+◌, Bool, true, false, Option, none, some, String}
use andnp_searchkernel.Exec.{Result, ok, err}
use andnp_searchkernel.Cache.Bounded.{BoundedCache, count_down, get, set}
use andnp_searchkernel.Cache.Flights.{
  Outcome, success, failure, Flights, FutureError, start_or_join, complete_inflight, fail_inflight,
}

pub record CandidateResultCache (K V : Type 0) : Type 0 where
  pub cache : BoundedCache K V
  pub flights : Flights K V

-- What a caller of `async_get_or_compute` goes on with: the cached value, the flight whose future it
-- waits for, or the flight that it leads.
pub data Turn (V : Type 0) : Type 0 where
  cached : V → Turn V
  joined : ℕ → Turn V
  leading : ℕ → Turn V

module _ {K V : Type 0} where
  abbrev with_flights :
      CandidateResultCache K V
      → Result FutureError (Flights K V)
      → Result FutureError (CandidateResultCache K V)
  with_flights c (ok flights) = ok record c { flights = flights }
  with_flights c (err e) = err e

module _ {K V : Type 0} (dec : Discrete K) where
  -- `set`.
  unfoldable pub set_candidates :
      K → V → ℕ → CandidateResultCache K V → Result FutureError (CandidateResultCache K V)
  set_candidates key value now c =
      with_flights (record c { cache = set dec key value now c.cache })
        (complete_inflight dec key (success value) c.flights)

  -- `fail`.
  unfoldable pub fail_candidates :
      K → String → CandidateResultCache K V → Result FutureError (CandidateResultCache K V)
  fail_candidates key error c = with_flights c (complete_inflight dec key (failure error) c.flights)

  -- The counters of `_start_or_join`.
  abbrev pub count_joined : BoundedCache K V → BoundedCache K V
  count_joined cache = record cache {
    coalesced_waiters = cache.coalesced_waiters + 1;
    misses = count_down cache.misses;
  }

  abbrev take_turn : BoundedCache K V → (ℕ × Bool) × Flights K V → Turn V × CandidateResultCache K V
  take_turn cache ((flight, true), flights) =
      (leading flight, record { cache = cache; flights = flights })
  take_turn cache ((flight, false), flights) =
      (joined flight, record { cache = count_joined cache; flights = flights })

  abbrev begin_after :
      K → Flights K V → Option V × BoundedCache K V → Turn V × CandidateResultCache K V
  begin_after key flights (some value, cache) =
      (cached value, record { cache = cache; flights = flights })
  begin_after key flights (none, cache) = take_turn cache (start_or_join dec key flights)

  -- `async_wait_for_miss`, up to its wait: a caller that has missed claims the key, or joins.
  unfoldable pub claim_candidates : K → CandidateResultCache K V → Turn V × CandidateResultCache K V
  claim_candidates key c = take_turn c.cache (start_or_join dec key c.flights)

  unfoldable pub begin : K → ℕ → CandidateResultCache K V → Turn V × CandidateResultCache K V
  begin key now c = begin_after key c.flights (get dec key now c.cache)

  -- The leader's `set`, or its `_fail_inflight`.
  unfoldable pub finish :
      K
      → ℕ
      → Outcome V
      → ℕ
      → CandidateResultCache K V
      → Result FutureError (CandidateResultCache K V)
  finish key flight (success value) now c = set_candidates key value now c
  finish key flight (failure error) now c =
      with_flights c (fail_inflight dec key flight error c.flights)
