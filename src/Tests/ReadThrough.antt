-- ===== src/Tests/ReadThrough.antt =====
-- A load that fails, with a stale entry at hand.
use andnp_searchkernel.Prelude.{ℕ, true, ◌≡◌, refl, none, some, [], ◌∷◌, ℕ_discrete}
use andnp_searchkernel.Exec.{
  Exec, pure, raise, reads, handle, try_catch, finally, unless_raised, modify, carry_on, ◌>>=◌,
}
use andnp_searchkernel.ReadThrough.Parts.{
  Error, exception, ValidatedCacheEntry, State, Parts, call, count, copied, read_entry, is_expired,
  validated, validated_or_failed, inspect_unless, inspect_cached_entry,
}
use andnp_searchkernel.ReadThrough.Load.{
  take_turn, begin, handle_load_failure, load_failed, load_and_write, load_or_fall_back, lead,
  finish_waiter,
}
use andnp_searchkernel.ReadThrough.Served.{IsServed, begin-IsServed}
use andnp_searchkernel.ReadThrough.Waiters.{Answers, Ended, finish_waiter-lead}

-- A store that keeps nothing, under a clock that shows the world, which is the time.
abbrev no_store : Parts ℕ ℕ ℕ ℕ
no_store = record {
  ttl_seconds = 5;
  now = reads (λ w. w);
  clone = pure;
  store_get = λ key. pure none;
  store_set = λ key entry. pure tt;
}

abbrev old : ValidatedCacheEntry ℕ ℕ
old = record { value = 70; validation_token = 1; cached_at = 0 }

abbrev failing : Exec Error ℕ (ℕ × ℕ)
failing = raise (exception "down")

abbrev waiting : State ℕ ℕ ℕ
waiting = record {
  world = 9;
  metrics = record {
    requests = 2;
    fresh_hits = 0;
    misses = 2;
    validation_mismatches = 0;
    validation_failures = 0;
    stale_fallbacks = 0;
    coalesced_waiters = 1;
    loads = 0;
    load_failures = 0;
    writes = 0;
    write_failures = 0;
    cache_read_failures = 0;
  };
  inflight = (7, 0) ∷ [];
  results = none ∷ [];
}

no_store-Answers : Answers no_store
unfolding pure reads
no_store-Answers = record { answers = λ w. (w, refl); copies = λ v w. refl }

finish_waiter-lead_example :
    Ended 0
      (lead ℕ_discrete no_store 7 0 (some old) failing waiting).0
      (lead ℕ_discrete no_store 7 0 (some old) failing waiting).1
    × ((finish_waiter ℕ_discrete no_store 0
          (lead ℕ_discrete no_store 7 0 (some old) failing waiting).1).0
        ≡ (lead ℕ_discrete no_store 7 0 (some old) failing waiting).0)
finish_waiter-lead_example =
    finish_waiter-lead ℕ_discrete no_store no_store-Answers 7 0 (some old) failing waiting refl

-- A store that keeps `old` under every key.
abbrev one_entry : Parts ℕ ℕ ℕ ℕ
one_entry = record no_store { store_get = λ key. pure (some old) }

-- At the time 3 the entry is served.
begin-IsServed_example : IsServed ℕ_discrete one_entry (λ token. pure true) 7 3 70
unfolding begin read_entry copied inspect_cached_entry inspect_unless is_expired validated_or_failed
    validated take_turn count call pure reads handle try_catch modify carry_on ◌>>=◌
begin-IsServed_example =
    begin-IsServed ℕ_discrete one_entry (λ token. pure true) 7 (record waiting { world = 3 })

-- A clone that raises, as the one of a stale value does here, leaves the flight without a result.
abbrev no_clone : Parts ℕ ℕ ℕ ℕ
no_clone = record no_store { clone = λ v. raise (exception "no copy") }

stuck_waiters : (lead ℕ_discrete no_clone 7 0 (some old) failing waiting).1.results ≡ none ∷ []
unfolding lead finally unless_raised load_or_fall_back load_and_write load_failed
    handle_load_failure count call pure raise reads handle try_catch modify carry_on ◌>>=◌
stuck_waiters = refl
