-- ===== src/Cache/Coalesced.antt =====
-- Callers of `CandidateResultCache.async_get_or_compute` (runtime/canonical_cache.py) that miss the same
-- key.
use andnp_searchkernel.Prelude.{
  ℕ, ◌+◌, ◌≡◌, refl, ap, none, some, List, [], ◌∷◌, ◌++◌, length, get_elem?, leb, if◌then◌else◌,
}
use andnp_searchkernel.Exec.{ok}
use andnp_searchkernel.Dict.{find, assign, find-assign, without-assign, without-find-none}
use andnp_searchkernel.Cache.Bounded.{get, IsValid}
use andnp_searchkernel.Cache.Recency.{get-IsValid, get-ttl}
use andnp_searchkernel.Cache.Lookup.{get-set}
use andnp_searchkernel.Cache.Flights.{
  Outcome, success, Flights, set_at, complete, start_or_join, pop_inflight, complete_inflight,
}
use andnp_searchkernel.Cache.Candidates.{
  CandidateResultCache, joined, leading, begin, finish, set_candidates,
}

get_elem?_last : {A : Type 0} (a : A) (xs : List A) → get_elem? (xs ++ a ∷ []) (length xs) ≡ some a
get_elem?_last a [] = refl
get_elem?_last a (x ∷ xs) = get_elem?_last a xs

set_at_last :
    {A : Type 0} (a b : A) (xs : List A) → set_at (length xs) b (xs ++ a ∷ []) ≡ xs ++ b ∷ []
set_at_last a b [] = refl
set_at_last a b (x ∷ xs) = ap (◌∷◌ x) (set_at_last a b xs)

module _ {K V : Type 0} (dec : Discrete K) where
  -- The first caller that misses leads a new flight.
  begin_lead :
      (key : K) (now : ℕ) (c : CandidateResultCache K V)
      → (get dec key now c.cache).0 ≡ none
      → find dec key c.flights.inflight ≡ none
      → begin dec key now c ≡ (
        leading (length c.flights.futures),
        record {
          cache = (get dec key now c.cache).1;
          flights = record {
            inflight = assign dec key (length c.flights.futures) c.flights.inflight;
            futures = c.flights.futures ++ none ∷ [];
          };
        },
      )
  unfolding begin start_or_join
  begin_lead key now c miss free = rw (miss, free)

  begin_join :
      (key : K) (now flight : ℕ) (c : CandidateResultCache K V)
      → (get dec key now c.cache).0 ≡ none
      → find dec key c.flights.inflight ≡ some flight
      → ((begin dec key now c).0 ≡ joined flight) × ((begin dec key now c).1.flights ≡ c.flights)
  unfolding begin start_or_join
  begin_join key now flight c miss busy = rw (miss, busy) (refl, refl)

  -- Once a caller missed a key of which no flight is on, it leads the flight, and every caller that
  -- misses the key after it waits for that flight's future and starts no second one.
  pub begin-begin :
      (key : K) (now later : ℕ) (c d : CandidateResultCache K V)
      → (get dec key now c.cache).0 ≡ none
      → find dec key c.flights.inflight ≡ none
      → d.flights ≡ (begin dec key now c).1.flights
      → (get dec key later d.cache).0 ≡ none
      → ((begin dec key now c).0 ≡ leading (length c.flights.futures))
        × ((begin dec key later d).0 ≡ joined (length c.flights.futures))
        × ((begin dec key later d).1.flights ≡ d.flights)
  begin-begin key now later c d miss free same again =
      let lead = begin_lead key now c miss free in
      let busy : find dec key d.flights.inflight ≡ some (length c.flights.futures) =
        rw (same, lead) (find-assign dec key (length c.flights.futures) c.flights.inflight) in
      let join = begin_join key later (length c.flights.futures) d again busy in
      (ap (λ p. p.0) lead, join.0, join.1)

  complete_inflight_last :
      (key : K) (outcome : Outcome V) (s : Flights K V)
      → find dec key s.inflight ≡ none
      → complete_inflight dec key outcome (record {
        inflight = assign dec key (length s.futures) s.inflight;
        futures = s.futures ++ none ∷ [];
      })
        ≡ ok (record { inflight = s.inflight; futures = s.futures ++ some outcome ∷ [] })
  unfolding complete_inflight pop_inflight complete
  complete_inflight_last key outcome s free = rw (
    find-assign,
    get_elem?_last,
    set_at_last,
    without-assign,
    without-find-none dec key s.inflight free,
  )

  -- When the leader's computation gives a value, the flight's future is completed with it, the flight
  -- is over, and the value is cached: it is read until `ttl_seconds` after.
  pub finish-begin :
      (key : K) (value : V) (now done later : ℕ) (c : CandidateResultCache K V)
      → IsValid dec c.cache
      → (get dec key now c.cache).0 ≡ none
      → find dec key c.flights.inflight ≡ none
      → (after : CandidateResultCache K V) × (finish dec key
            (length c.flights.futures)
            (success value)
            done
            (begin dec key now c).1
          ≡ ok after)
        × (after.flights.inflight ≡ c.flights.inflight)
        × (after.flights.futures ≡ c.flights.futures ++ some (success value) ∷ [])
        × ((get dec key later after.cache).0
            ≡ (if leb (done + c.cache.ttl_seconds) later then none else some value))
  unfolding finish set_candidates
  finish-begin key value now done later c valid miss free =
      let lead = begin_lead key now c miss free in
      let over = complete_inflight_last key (success value) c.flights free in
      let read =
        get-set dec key value done later (get dec key now c.cache).1
          (get-IsValid dec key now c.cache valid) in
      (_, rw (lead, over), refl, refl, rw get-ttl at read)
