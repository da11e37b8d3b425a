-- ===== src/ReadThrough/Waiters.antt =====
-- What the waiters of a flight get from `ValidatedReadThroughCache` (runtime/validated_read_cache.py).
use andnp_searchkernel.Prelude.{
  arith, ℕ, zero, suc, ◌+◌, ◌≡◌, refl, ap, true, false, Option, none, some, List, [], ◌∷◌,
  get_elem?,
}
use andnp_searchkernel.Exec.{
  Result, ok, err, Exec, pure, raise, reads, handle, try_catch, finally, unless_raised, modify,
  carry_on, ◌>>=◌,
}
use andnp_searchkernel.Exec.Triple.{
  Triple, Any, Returned, Triple-pure, Triple-raise, Triple-if, Triple-try, Triple-modify, ◌⨾◌,
}
use andnp_searchkernel.Cache.Flights.{set_at}
use andnp_searchkernel.ReadThrough.Parts.{
  Error, exception, interrupt, ValidatedCacheEntry, Answer, answered, failed, Metrics, State, Parts,
  call, count, on_exception,
}
use andnp_searchkernel.ReadThrough.Load.{
  write_entry, set_result, complete, handle_load_failure, load_failed, load_or_fall_back,
  load_and_write, lead, finish, finish_waiter,
}

get_elem?-set_at :
    {A : Type 0} (i : ℕ) (a b : A) (xs : List A)
    → get_elem? xs i ≡ some b
    → get_elem? (set_at i a xs) i ≡ some a
get_elem?-set_at i a b [] e = cc
get_elem?-set_at zero a b (x ∷ xs) e = refl
get_elem?-set_at (suc i) a b (x ∷ xs) e = get_elem?-set_at i a b xs e

-- The clock answers, and a clone is the value that it was made of.
pub record Answers {W K V T : Type 0} (parts : Parts W K V T) : Type 0 where
  pub answers : (w : W) → (at : ℕ) × ((parts.now w).0 ≡ ok at)
  pub copies : (v : V) (w : W) → (parts.clone v w).0 ≡ ok v

-- What a flight's answer says of its leader's result.
abbrev pub Agrees : {V : Type 0} → Answer V → Result Error V → Type 0
Agrees (answered v stale) r = r ≡ ok v
Agrees (failed e) r = r ≡ err e

-- The flight has been completed, with this result.
abbrev pub Ended : {W K V : Type 0} → ℕ → Result Error V → State W K V → Type 0
Ended {V = V} flight r s =
    (a : Answer V) × (get_elem? s.results flight ≡ some (some a)) × Agrees a r

abbrev IsCopy : {V : Type 0} → Result Error (V × V) → Type 0
IsCopy (ok (v, copy)) = copy ≡ v
IsCopy (err e) = Unit

Returned-Any : {E A : Type 0} (r : Result E A) → Returned Any r
Returned-Any (ok a) = tt
Returned-Any (err e) = tt

module _ {W K V : Type 0} (rs : List (Option (Answer V))) where
  abbrev Keeps : State W K V → Type 0
  Keeps s = s.results ≡ rs

  Triple-call : {A : Type 0} (m : Exec Error W A) → Triple Keeps (call m) Any
  unfolding call
  Triple-call m = record { at = λ s p. (Returned-Any (m s.world).0, p) }

  Triple-count : (f : Metrics → Metrics) → Triple Keeps (count f) Any
  unfolding count
  Triple-count f = Triple-modify _ (λ s p. p)

  Triple-on_exception :
      {A : Type 0} (h : Exec Error (State W K V) A)
      → Triple Keeps h Any
      → (e : Error) → Triple Keeps (on_exception h e) Any
  unfolding on_exception
  Triple-on_exception h k (exception m) = k
  Triple-on_exception h k (interrupt m) = Triple-raise _

module _ {W K V T : Type 0} (dec : Discrete K) (parts : Parts W K V T) (h : Answers parts) where
  write_entry-Keeps :
      (rs : List (Option (Answer V))) (key : K) (entry : ValidatedCacheEntry V T)
      → Triple (Keeps {W = W} {K = K} rs) (write_entry dec parts key entry) Any
  unfolding write_entry
  write_entry-Keeps rs key entry =
      Triple-try _ _ (Triple-call rs _ ⨾ λ _ _. Triple-pure true tt)
        (Triple-on_exception rs _ (Triple-count rs _ ⨾ λ _ _. Triple-pure false tt))
      ⨾ λ stored _. Triple-if stored _ _ (λ _. Triple-count rs _) (λ _. Triple-pure tt tt)

  copy_of : (v : V) (w : W) (r : Result Error V) → (parts.clone v w).0 ≡ r → Returned (λ c. c ≡ v) r
  copy_of v w (err e) q = tt
  copy_of v w (ok c) q = ground (arith, q, h.copies v w)

  Triple-clone :
      (rs : List (Option (Answer V))) (v : V)
      → Triple (Keeps {W = W} {K = K} rs) (call (parts.clone v)) (λ c. c ≡ v)
  unfolding call
  Triple-clone rs v = record { at = λ s p. (copy_of v s.world _ refl, p) }

  load_and_write-Keeps :
      (rs : List (Option (Answer V))) (key : K) (load : Exec Error W (V × T))
      → Triple (Keeps {W = W} {K = K} rs) (load_and_write dec parts key load) (λ p. p.1 ≡ p.0)
  unfolding load_and_write
  load_and_write-Keeps rs key load = Triple-call rs load ⨾ λ loaded _.
      Triple-call rs (parts.clone loaded.0) ⨾ λ kept _. Triple-call rs parts.now ⨾ λ at _.
      write_entry-Keeps rs key _ ⨾ λ _ _.
      Triple-clone rs loaded.0 ⨾ λ c q. Triple-pure (loaded.0, c) q

  is_copy : (r : Result Error (V × V)) → Returned (λ p. p.1 ≡ p.0) r → IsCopy r
  is_copy (ok p) q = q
  is_copy (err e) q = tt

  ended :
      (key : K) (flight : ℕ) (stale : Option (ValidatedCacheEntry V T))
      (load : Exec Error W (V × T)) (s t : State W K V) (r : Result Error (V × V))
      → load_and_write dec parts key load s ≡ (r, t)
      → get_elem? t.results flight ≡ some none
      → IsCopy r
      → Ended flight
          (load_or_fall_back dec parts key flight stale load s).0
          (load_or_fall_back dec parts key flight stale load s).1
  unfolding load_or_fall_back load_failed handle_load_failure complete set_result count call pure
      raise reads handle try_catch modify carry_on ◌>>=◌
  ended key flight stale load s t (ok (v, copy)) e p c =
      rw (e, p)
        (
          answered v false,
          get_elem?-set_at flight (some (answered v false)) none t.results p,
          ap ok c,
        )
  ended key flight none load s t (err (exception m)) e p c =
      rw (e, p)
        (
          failed (exception m),
          get_elem?-set_at flight (some (failed (exception m))) none t.results p,
          refl,
        )
  ended key flight (some old) load s t (err (exception m)) e p c =
      rw (e, h.copies old.value t.world, p)
        (
          answered old.value true,
          get_elem?-set_at flight (some (answered old.value true)) none t.results p,
          refl,
        )
  ended key flight stale load s t (err (interrupt m)) e p c =
      rw (e, p)
        (
          failed (interrupt m),
          get_elem?-set_at flight (some (failed (interrupt m))) none t.results p,
          refl,
        )

  timed :
      (flight : ℕ) (body : Exec Error (State W K V) V) (s : State W K V)
      → Ended flight (body s).0 (body s).1
      → Ended flight (finally body (call parts.now) s).0 (finally body (call parts.now) s).1
  unfolding finally unless_raised call
  timed flight body s e = rw ((h.answers (body s).1.world).1) e

  lead-Ended :
      (key : K) (flight : ℕ) (stale : Option (ValidatedCacheEntry V T))
      (load : Exec Error W (V × T)) (s : State W K V)
      → get_elem? s.results flight ≡ some none
      → Ended flight
          (lead dec parts key flight stale load s).0
          (lead dec parts key flight stale load s).1
  unfolding lead count call modify carry_on ◌>>=◌
  lead-Ended key flight stale load s p =
      let start = record s {
        world = (parts.now s.world).1;
        metrics = record s.metrics { loads = s.metrics.loads + 1 };
      } in
      let after = load_and_write dec parts key load start in
      let kept = (load_and_write-Keeps s.results key load).at start refl in
      rw ((h.answers s.world).1) (
        timed flight (load_or_fall_back dec parts key flight stale load) start
          (ended key flight stale load start after.1 after.0 refl (rw kept.1 p) (is_copy _ kept.0)))

  finish_waiter-Ended :
      (flight : ℕ) (r : Result Error V) (s : State W K V)
      → Ended flight r s
      → (finish_waiter dec parts flight s).0 ≡ r
  unfolding finish_waiter finish count call raise reads modify carry_on ◌>>=◌
  finish_waiter-Ended flight r s (answered v true, p, q) = rw (p, h.copies v s.world, q)
  finish_waiter-Ended flight r s (answered v false, p, q) = rw (p, h.copies v s.world, q)
  finish_waiter-Ended flight r s (failed e, p, q) = rw (p, q)

  -- Whatever the load, the store and the validation do, with a clock that answers and clones that are
  -- copies: a leader that ends, returning or raising, has completed its waiting flight, and a waiter gets
  -- what the leader gets, which is the loaded value, the stale value if the load failed and there is one,
  -- or the same error.
  pub finish_waiter-lead :
      (key : K) (flight : ℕ) (stale : Option (ValidatedCacheEntry V T))
      (load : Exec Error W (V × T)) (s : State W K V)
      → get_elem? s.results flight ≡ some none
      → Ended flight
          (lead dec parts key flight stale load s).0
          (lead dec parts key flight stale load s).1
        × ((finish_waiter dec parts flight (lead dec parts key flight stale load s).1).0
            ≡ (lead dec parts key flight stale load s).0)
  finish_waiter-lead key flight stale load s p =
      let e = lead-Ended key flight stale load s p in (e, finish_waiter-Ended flight _ _ e)
