-- ===== src/Cache/Single.antt =====
-- The single flights of runtime/canonical_cache.py under interleaving threads. The flight lock makes
-- `_start_or_join` and each `pop` one step, and a popped flight's future is completed in a later step
-- of its thread, outside the lock.
use andnp_searchkernel.Prelude.{
  ℕ, zero, suc, ◌+◌, ◌≡◌, ◌==◌, refl, Bool, true, false, Option, none, some, List, [], ◌∷◌, ◌++◌,
  length, get_elem?, arith,
}
use andnp_searchkernel.Exec.{ok}
use andnp_searchkernel.Dict.{find, without, assign}
use andnp_searchkernel.Cache.Flights.{
  Outcome, Flights, no_flights, set_at, settle, complete, start_unless, start_or_join, pop_inflight,
}

abbrev one_if : Bool → ℕ
one_if true = 1
one_if false = 0

-- How many keys have the flight.
abbrev pub held : {K : Type 0} → ℕ → List (K × ℕ) → ℕ
held i [] = 0
held i ((k, j) ∷ d) = one_if (j == i) + held i d

-- 0 for a future that waits, and 1 for one that is completed or was never made.
abbrev pub settled : {V : Type 0} → Option (Option (Outcome V)) → ℕ
settled none = 1
settled (some none) = 0
settled (some (some o)) = 1

-- How many threads have popped the flight and have yet to complete it.
abbrev pub owed : {V : Type 0} → ℕ → List (ℕ × Outcome V) → ℕ
owed i [] = 0
owed i ((j, o) ∷ p) = one_if (j == i) + owed i p

pub record Threads (K V : Type 0) : Type 0 where
  pub flights : Flights K V
  pub popped : List (ℕ × Outcome V)

module _ {K V : Type 0} (dec : Discrete K) where
  -- A thread starts or joins a flight; a thread pops the flight of a key, to complete it with an
  -- outcome; a thread completes a flight that it popped.
  pub data Step (s : Threads K V) : Threads K V → Type 0 where
    started : (key : K) → Step s (record s { flights = (start_or_join dec key s.flights).1 })
    popped_one :
        (key : K) (flight : ℕ) (outcome : Outcome V)
        → (pop_inflight dec key s.flights).0 ≡ some flight
        → Step s (record {
          flights = (pop_inflight dec key s.flights).1;
          popped = (flight, outcome) ∷ s.popped;
        })
    completed :
        (before after : List (ℕ × Outcome V)) (flight : ℕ) (outcome : Outcome V)
        (flights : Flights K V)
        → s.popped ≡ before ++ (flight, outcome) ∷ after
        → complete flight outcome s.flights ≡ ok flights
        → Step s (record { flights = flights; popped = before ++ after })

  pub data Reachable : Threads K V → Type 0 where
    at_start : Reachable (record { flights = no_flights; popped = [] })
    later : {s t : Threads K V} → Reachable s → Step s t → Reachable t

  -- Each future is completed, or is held by one key, or is owed by one thread.
  abbrev Owned : Threads K V → Type 0
  Owned s =
      (i : ℕ)
      → held i s.flights.inflight + owed i s.popped + settled (get_elem? s.flights.futures i) ≡ 1

module _ {K : Type 0} (dec : Discrete K) where
  held-assign :
      (i : ℕ) (key : K) (n : ℕ) (d : List (K × ℕ))
      → find dec key d ≡ none
      → held i (assign dec key n d) ≡ held i d + one_if (n == i)
  unfolding find assign
  held-assign i key n [] e = omega arith
  held-assign i key n ((k, j) ∷ d) e = ground (arith, held-assign i key n d)

  held-without :
      (i : ℕ) (key : K) (n : ℕ) (d : List (K × ℕ))
      → find dec key d ≡ some n
      → held i (without dec key d) + one_if (n == i) ≡ held i d
  unfolding find without
  held-without i key n [] e = cc
  held-without i key n ((k, j) ∷ d) e = ground (arith, held-without i key n d)

owed-append :
    {V : Type 0} (i : ℕ) (p q : List (ℕ × Outcome V)) → owed i (p ++ q) ≡ owed i p + owed i q
owed-append i [] q = omega arith
owed-append i ((j, o) ∷ p) q = omega (arith, owed-append i p q)

settled-append :
    {V : Type 0} (i : ℕ) (fs : List (Option (Outcome V)))
    → settled (get_elem? (fs ++ none ∷ []) i) + one_if (length fs == i) ≡ settled (get_elem? fs i)
settled-append zero [] = refl
settled-append (suc i) [] = ground arith
settled-append zero (f ∷ fs) = ground arith
settled-append (suc i) (f ∷ fs) = ground (arith, settled-append i fs)

settled-set_at :
    {V : Type 0} (i n : ℕ) (o : Outcome V) (fs : List (Option (Outcome V)))
    → get_elem? fs n ≡ some none
    → settled (get_elem? (set_at n (some o) fs) i) ≡ settled (get_elem? fs i) + one_if (n == i)
settled-set_at i n o [] e = ground arith
settled-set_at zero zero o (f ∷ fs) e = ground arith
settled-set_at (suc i) zero o (f ∷ fs) e = ground arith
settled-set_at zero (suc n) o (f ∷ fs) e = ground arith
settled-set_at (suc i) (suc n) o (f ∷ fs) e = ground (arith, settled-set_at i n o fs e)

module _ {K V : Type 0} (dec : Discrete K) where
  Owned-start :
      (key : K) (s : Threads K V) (found : Option ℕ) (i : ℕ)
      → find dec key s.flights.inflight ≡ found
      → Owned dec s
      → held i (start_unless dec key s.flights found).1.inflight
          + owed i s.popped
          + settled (get_elem? (start_unless dec key s.flights found).1.futures i)
        ≡ 1
  Owned-start key s (some flight) i e h = h i
  Owned-start key s none i e h =
      let a = held-assign dec i key (length s.flights.futures) s.flights.inflight e in
      let b = settled-append i s.flights.futures in let c = h i in omega arith

  complete-ok :
      (flight : ℕ) (outcome : Outcome V) (s t : Flights K V) (future : Option (Option (Outcome V)))
      → settle flight outcome s future ≡ ok t
      → (future ≡ some none) × (t ≡ record s { futures = set_at flight (some outcome) s.futures })
  complete-ok flight outcome s t none e = cc
  complete-ok flight outcome s t (some none) e = (refl, cc)
  complete-ok flight outcome s t (some (some done)) e = cc

  Owned-step : {s t : Threads K V} → Owned dec s → Step dec s t → Owned dec t
  unfolding start_or_join pop_inflight complete
  Owned-step {s} h (started key) i = Owned-start key s _ i refl h
  Owned-step {s} h (popped_one key flight outcome e) i =
      let a = held-without dec i key flight s.flights.inflight e in let c = h i in omega arith
  Owned-step {s} h (completed before after flight outcome flights e f) i =
      let d = complete-ok flight outcome s.flights flights _ f in
      let a = settled-set_at i flight outcome s.flights.futures d.0 in
      let b = owed-append i before after in
      let b2 = owed-append i before ((flight, outcome) ∷ after) in
      let c = rw e at (h i) in rw d.1 (omega arith)

  Owned-Reachable : {s : Threads K V} → Reachable dec s → Owned dec s
  Owned-Reachable at_start = λ i. refl
  Owned-Reachable (later hr hs) = Owned-step (Owned-Reachable hr) hs

  unsettled : (future : Option (Option (Outcome V))) → settled future ≡ 0 → future ≡ some none
  unsettled none e = absurd (omega arith)
  unsettled (some none) e = refl
  unsettled (some (some o)) e = absurd (omega arith)

  -- Whatever threads start, join, pop and complete flights, in any order of their steps: a thread that
  -- popped a flight can complete it. So no future is completed twice, and `set_result` and
  -- `set_exception` never raise `InvalidStateError`.
  pub complete-Reachable :
      (s : Threads K V) (before after : List (ℕ × Outcome V)) (flight : ℕ) (outcome : Outcome V)
      → Reachable dec s
      → s.popped ≡ before ++ (flight, outcome) ∷ after
      → complete flight outcome s.flights
        ≡ ok (record s.flights { futures = set_at flight (some outcome) s.flights.futures })
  unfolding complete
  complete-Reachable s before after flight outcome hr e =
      let c = rw e at (Owned-Reachable hr flight) in
      let b = owed-append flight before ((flight, outcome) ∷ after) in
      let same : (flight == flight) ≡ true = ground arith in
      let z : settled (get_elem? s.flights.futures flight) ≡ 0 = ground arith in rw (unsettled _ z)

  -- A future that waits is held by exactly one key or owed by exactly one thread, so that a waiter is
  -- released once the flights are popped and the threads that popped them go on: where no flight is
  -- left in `_inflight` and no thread has one to complete, no future waits.
  pub waiting-Reachable :
      (s : Threads K V) (flight : ℕ)
      → Reachable dec s
      → get_elem? s.flights.futures flight ≡ some none
      → held flight s.flights.inflight + owed flight s.popped ≡ 1
  waiting-Reachable s flight hr e = let c = rw e at (Owned-Reachable hr flight) in omega arith
