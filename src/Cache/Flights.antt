-- ===== src/Cache/Flights.antt =====
-- The single flights of runtime/canonical_cache.py: `_InFlight`, `_inflight` and the methods of
-- `CandidateResultCache` and `HydrationCache` that start, join, complete and fail a flight. A flight is
-- the number of its future in `futures`, so that `is` is equality of numbers.
use andnp_searchkernel.Prelude.{
  ℕ, zero, suc, ◌==◌, Bool, true, false, Option, none, some, String, List, [], ◌∷◌, ◌++◌, length,
  get_elem?, if◌then◌else◌,
}
use andnp_searchkernel.Exec.{Result, ok, err}
use andnp_searchkernel.Dict.{find, without, assign}

-- What a future is completed with.
pub data Outcome (V : Type 0) : Type 0 where
  success : V → Outcome V
  failure : String → Outcome V

pub record Flights (K V : Type 0) : Type 0 where
  pub inflight : List (K × ℕ)
  pub futures : List (Option (Outcome V))

-- `concurrent.futures.InvalidStateError`, of a future that is completed again.
pub data FutureError : Type 0 where
  invalid_state : FutureError

abbrev pub no_flights : {K V : Type 0} → Flights K V
no_flights = record { inflight = []; futures = [] }

abbrev pub set_at : {A : Type 0} → ℕ → A → List A → List A
set_at i a [] = []
set_at zero a (b ∷ bs) = a ∷ bs
set_at (suc i) a (b ∷ bs) = b ∷ set_at i a bs

abbrev pub is_flight : ℕ → Option ℕ → Bool
is_flight flight none = false
is_flight flight (some other) = other == flight

module _ {K V : Type 0} where
  abbrev pub settle :
      ℕ → Outcome V → Flights K V → Option (Option (Outcome V)) → Result FutureError (Flights K V)
  settle flight outcome s (some none) =
      ok record s { futures = set_at flight (some outcome) s.futures }
  settle flight outcome s (some (some done)) = err invalid_state
  settle flight outcome s none = err invalid_state

  -- `_complete_success` and `_complete_failure`: `set_result` and `set_exception` of the future.
  unfoldable pub complete : ℕ → Outcome V → Flights K V → Result FutureError (Flights K V)
  complete flight outcome s = settle flight outcome s (get_elem? s.futures flight)

module _ {K V : Type 0} (dec : Discrete K) where
  abbrev pub start_unless : K → Flights K V → Option ℕ → (ℕ × Bool) × Flights K V
  start_unless key s (some flight) = ((flight, false), s)
  start_unless key s none = (
    (length s.futures, true),
    record {
      inflight = assign dec key (length s.futures) s.inflight;
      futures = s.futures ++ none ∷ [];
    },
  )

  -- `_start_or_join`: the flight, and whether the caller leads it.
  unfoldable pub start_or_join : K → Flights K V → (ℕ × Bool) × Flights K V
  start_or_join key s = start_unless key s (find dec key s.inflight)

  -- `self._inflight.pop(key, None)`.
  unfoldable pub pop_inflight : K → Flights K V → Option ℕ × Flights K V
  pop_inflight key s = (find dec key s.inflight, record s { inflight = without dec key s.inflight })

  abbrev pub complete_popped : Outcome V → Option ℕ × Flights K V → Result FutureError (Flights K V)
  complete_popped outcome (none, s) = ok s
  complete_popped outcome (some flight, s) = complete flight outcome s

  -- `_complete_inflight`, and `fail` with a failure.
  unfoldable pub complete_inflight : K → Outcome V → Flights K V → Result FutureError (Flights K V)
  complete_inflight key outcome s = complete_popped outcome (pop_inflight key s)

  -- `_fail_inflight`.
  unfoldable pub fail_inflight : K → ℕ → String → Flights K V → Result FutureError (Flights K V)
  fail_inflight key flight error s =
      if is_flight flight (find dec key s.inflight)
      then complete flight (failure error) (pop_inflight key s).1
      else ok s
