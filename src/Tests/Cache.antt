-- ===== src/Tests/Cache.antt =====
-- Runs of the caches of runtime/canonical_cache.py on small entries, and their theorems applied to them.
use andnp_searchkernel.Prelude.{ℕ, ◌+◌, ◌≡◌, refl, true, none, some, [], ◌∷◌, ℕ_discrete, arith}
use andnp_searchkernel.Exec.{ok}
use andnp_searchkernel.Dict.{find, without, assign, move_to_end}
use andnp_searchkernel.Cache.Bounded.{BoundedCache, make_bounded, trim, above, get, set, IsValid}
use andnp_searchkernel.Cache.Lookup.{get-set, get-set-get}
use andnp_searchkernel.Cache.Flights.{
  success, no_flights, set_at, complete, complete_inflight, start_or_join, pop_inflight,
}
use andnp_searchkernel.Cache.Single.{
  Threads, started, popped_one, Reachable, at_start, later, held, owed, complete-Reachable,
  waiting-Reachable,
}
use andnp_searchkernel.Cache.Candidates.{CandidateResultCache, begin, finish}
use andnp_searchkernel.Cache.Coalesced.{finish-begin}
use andnp_searchkernel.Cache.Hydration.{HydrationCache, lookup, store, set_hydrated}
use andnp_searchkernel.Cache.Missing.{lookup-set-set_none, lookup-set_none-set}

-- Two entries at most, for ten seconds.
abbrev small : BoundedCache ℕ ℕ
small = record {
  max_entries = 2;
  ttl_seconds = 10;
  entries = [];
  hits = 0;
  misses = above 0;
  evictions = 0;
  coalesced_waiters = 0;
}

abbrev small_IsValid : IsValid ℕ_discrete small
small_IsValid = (omega arith, omega arith, omega arith, tt)

make_bounded-small : make_bounded {K = ℕ} {V = ℕ} 2 10 ≡ ok small
unfolding make_bounded
make_bounded-small = refl

-- One entry that is live until 11.
abbrev one_entry : BoundedCache ℕ ℕ
one_entry = record small { entries = (7, (11, 70)) ∷ [] }

get-set_example : (get ℕ_discrete 7 10 (set ℕ_discrete 7 70 1 small)).0 ≡ some 70
get-set_example = get-set ℕ_discrete 7 70 1 10 small small_IsValid

get-set-get_example :
    (get ℕ_discrete 7 9 (set ℕ_discrete 8 80 3 (get ℕ_discrete 7 2 one_entry).1)).0 ≡ some 70
unfolding find ℕ_discrete
get-set-get_example =
    get-set-get ℕ_discrete 7 8 70 80 11 2 3 9 one_entry
      (omega arith, omega arith, omega arith, (tt, tt)) (omega arith) (λ e. omega arith) refl
      (omega arith)

-- A thread led a flight and popped it.
abbrev led : Threads ℕ ℕ
led = record { flights = (start_or_join ℕ_discrete 7 no_flights).1; popped = [] }

abbrev popped_led : Threads ℕ ℕ
popped_led = record {
  flights = (pop_inflight ℕ_discrete 7 led.flights).1;
  popped = (0, success 70) ∷ [];
}

led-Reachable : Reachable ℕ_discrete led
led-Reachable = later at_start (started 7)

popped_led-Reachable : Reachable ℕ_discrete popped_led
unfolding start_or_join pop_inflight find assign ℕ_discrete
popped_led-Reachable = later led-Reachable (popped_one 7 0 (success 70) refl)

complete-Reachable_example :
    complete 0 (success 70) popped_led.flights
    ≡ ok (record popped_led.flights {
      futures = set_at 0 (some (success 70)) popped_led.flights.futures;
    })
complete-Reachable_example =
    complete-Reachable ℕ_discrete popped_led [] [] 0 (success 70) popped_led-Reachable refl

waiting-Reachable_example : held 0 led.flights.inflight + owed {V = ℕ} 0 [] ≡ 1
unfolding start_or_join find assign
waiting-Reachable_example = waiting-Reachable ℕ_discrete led 0 led-Reachable refl

abbrev idle : CandidateResultCache ℕ ℕ
idle = record { cache = small; flights = no_flights }

finish-begin_example :
    (after : CandidateResultCache ℕ ℕ) × (finish ℕ_discrete 7 0
        (success 70)
        3
        (begin ℕ_discrete 7 1 idle).1
      ≡ ok after)
    × (after.flights.inflight ≡ [])
    × (after.flights.futures ≡ some (success 70) ∷ [])
    × ((get ℕ_discrete 7 5 after.cache).0 ≡ some 70)
unfolding get find
finish-begin_example = finish-begin ℕ_discrete 7 70 1 3 5 idle small_IsValid refl refl

-- Missing keys are remembered for two seconds.
abbrev hydration : HydrationCache ℕ ℕ
hydration = record { cache = small; missing_ttl_seconds = 2; missing = []; flights = no_flights }

abbrev found_missing : HydrationCache ℕ ℕ
found_missing = record hydration { missing = (7, 3) ∷ [] }

abbrev found_later : HydrationCache ℕ ℕ
found_later = record found_missing { cache = set ℕ_discrete 7 70 2 small }

abbrev found_first : HydrationCache ℕ ℕ
found_first = record hydration { cache = set ℕ_discrete 7 70 1 small }

abbrev then_missing : HydrationCache ℕ ℕ
then_missing = record found_first { missing = (7, 4) ∷ [] }

lookup-set-set_none_example : (lookup ℕ_discrete 7 2 found_later).0 ≡ (true, none)
unfolding set_hydrated store complete_inflight pop_inflight find assign move_to_end without trim
    ℕ_discrete
lookup-set-set_none_example =
    lookup-set-set_none ℕ_discrete 7 70 1 2 2 hydration found_missing found_later small_IsValid tt
      refl refl (omega arith)

lookup-set_none-set_example : (lookup ℕ_discrete 7 5 then_missing).0.1 ≡ some 70
unfolding set_hydrated store complete_inflight pop_inflight find assign move_to_end without trim
    ℕ_discrete set
lookup-set_none-set_example =
    lookup-set_none-set ℕ_discrete 7 70 1 2 5 hydration found_first then_missing small_IsValid tt
      refl refl (omega arith) (omega arith)
