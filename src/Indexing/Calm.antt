-- ===== src/Indexing/Calm.antt =====
-- Steps of a run of indexing/coordinator.py that touch no stored cursor and take no vector back.
use andnp_searchkernel.Prelude.{
  ◌≡◌, refl, ◌∙◌, true, false, Option, none, some, List, ◌⊎◌, inl, inr, All, String,
}
use andnp_searchkernel.Exec.{Result, ok, err, Exec, modify}
use andnp_searchkernel.Exec.Grows.{
  Grows, ReturnedAt, IsGrowth, Anything, Grows-pure, Grows-raise, Grows-try, Grows-bind,
}
use andnp_searchkernel.Indexing.Receipts.{
  Cursor, Record, IngestionFailureMode, IngestionReceipt, Exception, Error, raised, interrupt,
  on_exception,
}
use andnp_searchkernel.Indexing.Semantic.{Embedding}
use andnp_searchkernel.Indexing.Placement.{Reports, Effects, Grows-call, Grows-call_back}
use andnp_searchkernel.Indexing.Parts.{
  PreparedIndexBatch, Given, value, awaitable, foreign, settle, settle_value, RecordIngestor,
  IndexStage, Coordinator, CoordinatorProgress, BatchOutcome, Options, Run, reject, call,
  report_progress, attempt,
}
use andnp_searchkernel.Indexing.Runner.{Commit, stopped, going, unless_stopped, silent}

module _ {W F : Type 0} (Good : String → List F → W → Type 0) (stored : W → Cursor) where
  -- Vectors that are in place stay there.
  abbrev pub Later : W → W → Type 0
  Later w w' = (id : String) (vector : List F) → Good id vector w → Good id vector w'

  -- And the cursor in the checkpoint store is the same.
  abbrev pub Steady : W → W → Type 0
  Steady w w' = Later w w' × (stored w' ≡ stored w)

  pub Steady-IsGrowth : IsGrowth Steady
  Steady-IsGrowth = record {
    stays = λ w. (λ id v g. g, refl);
    joins = λ w w' w'' a b. (λ id v g. b.0 id v (a.0 id v g), b.1 ∙ a.1);
  }

  -- Steady between the worlds, and a blocked checkpoint stays blocked.
  pub record Calm (s t : Run W) : Type 0 where
    pub steady : Steady s.world t.world
    pub blocked : s.checkpoint_blocked ≡ true → t.checkpoint_blocked ≡ true

  pub Calm-IsGrowth : IsGrowth Calm
  Calm-IsGrowth = record {
    stays = λ s. record { steady = Steady-IsGrowth.stays s.world; blocked = λ b. b };
    joins = λ s t u a b. record {
      steady = Steady-IsGrowth.joins s.world t.world u.world a.steady b.steady;
      blocked = λ e. b.blocked (a.blocked e);
    };
  }

  -- An awaitable keeps it too.
  abbrev pub GivenSteady : {A : Type 0} → Given W A → Type 0
  GivenSteady (awaitable m) = (w : W) → Steady w (m w).1
  GivenSteady _ = Unit

  abbrev pub IngestsSteady : Option (RecordIngestor W) → Type 0
  IngestsSteady none = Unit
  IngestsSteady (some ingestor) =
      (records : List Record) (c : Cursor) (mode : IngestionFailureMode) (w : W)
      → Steady w (ingestor records c mode w).1

  abbrev pub StageSteady : {D : Type 0} → IndexStage W D → Type 0
  StageSteady {D} stage =
      (batch : PreparedIndexBatch D) (w : W)
      → Grows Steady (stage batch) w (λ given _. GivenSteady given)

  world_returned :
      {E A : Type 0} (Q : A → W → Type 0) (r : Result E A) (t : Run W)
      → ReturnedAt Q r t.world
      → ReturnedAt (λ a u. Q a u.world) r t
  world_returned Q (ok a) t q = q
  world_returned Q (err e) t q = tt

  pub Grows-world :
      {A : Type 0} {Q : A → W → Type 0} {m : Exec Error W A} {s : Run W}
      → Grows Steady m s.world Q
      → Grows Calm (call m) s (λ a t. Q a t.world)
  unfolding call
  Grows-world {Q} {m} {s} r = record {
    before = record { steady = r.before; blocked = λ e. e };
    returned = world_returned Q (m s.world).0 (record s { world = (m s.world).1 }) r.returned;
  }

  pub Grows-modify :
      (f : Run W → Run W) (s : Run W) → Calm s (f s) → Grows {E = Error} Calm (modify f) s Anything
  unfolding modify
  Grows-modify f s c = record { before = c; returned = tt }

  pub Grows-report_progress :
      (options : Options W) (event : CoordinatorProgress) (s : Run W)
      → Reports Steady options.progress
      → Grows Calm (report_progress options event) s Anything
  unfolding report_progress
  Grows-report_progress options event s h =
      Grows-bind Calm-IsGrowth
        (Grows-modify _ s record { steady = Steady-IsGrowth.stays s.world; blocked = λ e. e })
        λ _ t _ _. Grows-world (Grows-call_back Steady-IsGrowth options.progress event t.world h)

  pub Grows-reject :
      {A : Type 0} {Q : A → Run W → Type 0} (mode : IngestionFailureMode) (r : IngestionReceipt)
      (a : A) (s : Run W)
      → Q a s
      → Grows Calm (reject mode r a) s Q
  unfolding reject
  Grows-reject IngestionFailureMode.strict r a s q = Grows-raise Calm-IsGrowth _ s
  Grows-reject IngestionFailureMode.lenient r a s q = Grows-pure Calm-IsGrowth a s q

  pub Grows-on_exception :
      {A : Type 0} {Q : A → Run W → Type 0} (handler : Exception → Exec Error (Run W) A)
      → ((e : Exception) (s : Run W) → Grows Calm (handler e) s Q)
      → (e : Error) (s : Run W) → Grows Calm (on_exception handler e) s Q
  unfolding on_exception
  Grows-on_exception handler h (raised e) s = h e s
  Grows-on_exception handler h interrupt s = Grows-raise Calm-IsGrowth _ s

  -- Not a success.
  abbrev pub Unsuccessful : BatchOutcome → Run W → Type 0
  Unsuccessful outcome t = outcome.successful ≡ false

  abbrev pub Attempted : {A : Type 0} → (A → W → Type 0) → A ⊎ BatchOutcome → Run W → Type 0
  Attempted Q (inl a) t = Q a t.world
  Attempted Q (inr outcome) t = Unsuccessful outcome t

  pub Grows-attempt :
      {A : Type 0} {Q : A → W → Type 0} (m : Exec Error W A)
      (handler : Exception → Exec Error (Run W) BatchOutcome) (s : Run W)
      → Grows Steady m s.world Q
      → ((e : Exception) (t : Run W) → Grows Calm (handler e) t Unsuccessful)
      → Grows Calm (attempt m handler) s (Attempted Q)
  unfolding attempt
  Grows-attempt m handler s r h =
      Grows-try Calm-IsGrowth
        (Grows-bind Calm-IsGrowth (Grows-world r) λ a t _ q. Grows-pure Calm-IsGrowth (inl a) t q)
        λ e t _.
          Grows-on_exception _
            (λ x u.
              Grows-bind Calm-IsGrowth (h x u) λ o v _ q. Grows-pure Calm-IsGrowth (inr o) v q)
            e t

  abbrev pub Stopped : Commit → Run W → Type 0
  Stopped (stopped outcome) t = Unsuccessful outcome t
  Stopped (going outcome) t = Unit

  pub Grows-unless_stopped :
      {A : Type 0} (Q : A → W → Type 0) (next : A → Exec Error (Run W) Commit)
      (x : A ⊎ BatchOutcome) (s : Run W)
      → Attempted Q x s
      → ((a : A) → Q a s.world → Grows Calm (next a) s Stopped)
      → Grows Calm (unless_stopped next x) s Stopped
  Grows-unless_stopped Q next (inl a) s q h = h a q
  Grows-unless_stopped Q next (inr outcome) s q h = Grows-pure Calm-IsGrowth _ s q

  Grows-settle_value :
      {A : Type 0} (message : String) (o : Option A) (w : W)
      → Grows Steady (settle_value message o) w Anything
  Grows-settle_value message none w = Grows-raise Steady-IsGrowth _ w
  Grows-settle_value message (some a) w = Grows-pure Steady-IsGrowth a w tt

  pub Grows-settle :
      {A : Type 0} (message : String) (given : Given W A) (w : W)
      → GivenSteady given
      → Grows Steady (settle message given) w Anything
  unfolding settle
  Grows-settle message (value a) w g = Grows-pure Steady-IsGrowth a w tt
  Grows-settle message (awaitable m) w g =
      Grows-bind Steady-IsGrowth (Grows-call m w (g w)) λ o t _ _. Grows-settle_value message o t
  Grows-settle message foreign w g = Grows-raise Steady-IsGrowth _ w

  -- What the coordinator calls touches no stored cursor, and takes no vector back.
  pub record Collaborates {D : Type 0} (parts : Coordinator W F D) (options : Options W)
      : Type 0 where
    pub embeds : Effects parts.embedding Steady Good
    pub ingests : IngestsSteady parts.record_ingestor
    pub staging : All StageSteady parts.stages
    pub reports : Reports Steady options.progress

  pub silent_effects :
      (parts : Embedding W F) → Effects parts Steady Good → Effects (silent parts) Steady Good
  silent_effects parts h = record {
    growth = h.growth;
    lasts = h.lasts;
    gets = h.gets;
    puts = h.puts;
    encodes = h.encodes;
    materializes = h.materializes;
    reports = tt;
  }
