-- ===== src/Cache/Bounded.antt =====
-- `_BoundedCache` of runtime/canonical_cache.py. Its clock is the argument `now`, in the clock's own
-- unit; its `clone` copies a value, and values here are never changed in place; its lock makes each
-- method one step.
use andnp_searchkernel.Prelude.{
  ℕ, zero, suc, ◌+◌, ◌≤◌, ◌<◌, Option, none, some, List, [], ◌∷◌, length, leb, ltb, ◌==◌,
  if◌then◌else◌,
}
use andnp_searchkernel.Exec.{Result, ok, err}
use andnp_searchkernel.Dict.{find, without, assign, move_to_end, Distinct}

-- An integer counter, which `_start_or_join` also counts down.
pub data Counter : Type 0 where
  above : ℕ → Counter
  below : ℕ → Counter

abbrev pub count_up : Counter → Counter
count_up (above n) = above (suc n)
count_up (below zero) = above 0
count_up (below (suc n)) = below n

abbrev pub count_down : Counter → Counter
count_down (above zero) = below 0
count_down (above (suc n)) = above n
count_down (below n) = below (suc n)

pub data BoundsError : Type 0 where
  max_entries_not_positive ttl_not_positive : BoundsError

pub record BoundedCache (K V : Type 0) : Type 0 where
  pub max_entries : ℕ
  pub ttl_seconds : ℕ
  -- Expiry and value of each key, oldest use first.
  pub entries : List (K × (ℕ × V))
  pub hits : ℕ
  pub misses : Counter
  pub evictions : ℕ
  pub coalesced_waiters : ℕ

-- `_BoundedCache.__init__`.
unfoldable pub make_bounded : {K V : Type 0} → ℕ → ℕ → Result BoundsError (BoundedCache K V)
make_bounded max ttl =
    if max == 0
    then err max_entries_not_positive
    else if ttl == 0
    then err ttl_not_positive
    else ok record {
      max_entries = max;
      ttl_seconds = ttl;
      entries = [];
      hits = 0;
      misses = above 0;
      evictions = 0;
      coalesced_waiters = 0;
    }

-- The loop of `set`: the oldest entries go until no more than `max` are left.
unfoldable pub trim : {E : Type 0} → ℕ → List E → ℕ → List E × ℕ
trim max [] evicted = ([], evicted)
trim max (e ∷ es) evicted =
    let rest = trim max es (evicted + 1) in
    if ltb max (length (e ∷ es)) then rest else (e ∷ es, evicted)

module _ {K V : Type 0} (dec : Discrete K) where
  abbrev pub get_entry : K → ℕ → BoundedCache K V → Option (ℕ × V) → Option V × BoundedCache K V
  get_entry key now cache none = (none, record cache { misses = count_up cache.misses })
  get_entry key now cache (some entry) =
      if leb entry.0 now
      then (
        none,
        record cache {
          entries = without dec key cache.entries;
          evictions = cache.evictions + 1;
          misses = count_up cache.misses;
        },
      )
      else (
        some entry.1,
        record cache { entries = move_to_end dec key cache.entries; hits = cache.hits + 1 },
      )

  -- `get`.
  unfoldable pub get : K → ℕ → BoundedCache K V → Option V × BoundedCache K V
  get key now cache = get_entry key now cache (find dec key cache.entries)

  abbrev pub assigned : K → V → ℕ → BoundedCache K V → List (K × (ℕ × V))
  assigned key value now cache =
      move_to_end dec key (assign dec key (now + cache.ttl_seconds, value) cache.entries)

  -- `set`.
  unfoldable pub set : K → V → ℕ → BoundedCache K V → BoundedCache K V
  set key value now cache =
      let trimmed = trim cache.max_entries (assigned key value now cache) cache.evictions in
      record cache { entries = trimmed.0; evictions = trimmed.1 }

  -- Within its bound, and one entry for a key.
  abbrev pub IsValid : BoundedCache K V → Type 0
  IsValid cache =
      (0 < cache.max_entries)
      × (0 < cache.ttl_seconds)
      × (length cache.entries ≤ cache.max_entries)
      × Distinct dec cache.entries
