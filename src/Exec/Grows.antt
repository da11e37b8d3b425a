-- ===== src/Exec/Grows.antt =====
-- What a method leaves behind from a given state on, whether it returns or raises: the state grows, by a
-- relation `Before` between states, and what is returned satisfies `Q` in the state that is left.
use andnp_searchkernel.Prelude.{◌≡◌, refl, Bool, true, false, if◌then◌else◌}
use andnp_searchkernel.Exec.{
  Result, ok, err, Exec, pure, raise, reads, handle, try_catch, carry_on, ◌>>=◌,
}

abbrev pub ReturnedAt : {E S A : Type 0} → (A → S → Type 0) → Result E A → S → Type 0
ReturnedAt Q (ok a) s = Q a s
ReturnedAt Q (err e) s = Unit

pub record Grows {E S A : Type 0} (Before : S → S → Type 0) (m : Exec E S A) (s : S)
    (Q : A → S → Type 0) : Type 0 where
  pub before : Before s (m s).1
  pub returned : ReturnedAt Q (m s).0 (m s).1

-- Nothing is said of what is returned.
abbrev pub Anything : {S A : Type 0} → A → S → Type 0
Anything a s = Unit

pub record IsGrowth {S : Type 0} (Before : S → S → Type 0) : Type 0 where
  pub stays : (s : S) → Before s s
  pub joins : (s t u : S) → Before s t → Before t u → Before s u

ReturnedAt-weaken :
    {E S A : Type 0} (Q R : A → S → Type 0) (s : S)
    → ((a : A) → Q a s → R a s)
    → (r : Result E A) → ReturnedAt Q r s
    → ReturnedAt R r s
ReturnedAt-weaken Q R s h (ok a) q = h a q
ReturnedAt-weaken Q R s h (err e) q = tt

module _ {E S : Type 0} {Before : S → S → Type 0} (g : IsGrowth Before) where
  module _ {A : Type 0} where
    pub Grows-pure :
        {Q : A → S → Type 0} (a : A) (s : S) → Q a s → Grows {E = E} Before (pure a) s Q
    unfolding pure
    Grows-pure a s q = record { before = g.stays s; returned = q }

    pub Grows-raise : {Q : A → S → Type 0} (e : E) (s : S) → Grows Before (raise e) s Q
    unfolding raise
    Grows-raise e s = record { before = g.stays s; returned = tt }

    pub Grows-reads : (f : S → A) (s : S) → Grows {E = E} Before (reads f) s (λ a t. a ≡ f t)
    unfolding reads
    Grows-reads f s = record { before = g.stays s; returned = refl }

    pub Grows-if :
        {Q : A → S → Type 0} (b : Bool) (m n : Exec E S A) (s : S)
        → (b ≡ true → Grows Before m s Q)
        → (b ≡ false → Grows Before n s Q)
        → Grows Before (if b then m else n) s Q
    Grows-if true m n s hm hn = hm refl
    Grows-if false m n s hm hn = hn refl

    pub Grows-weaken :
        {Q R : A → S → Type 0} {m : Exec E S A} {s : S}
        → Grows Before m s Q
        → ((a : A) (t : S) → Before s t → Q a t → R a t)
        → Grows Before m s R
    Grows-weaken {Q} {R} {m} {s} r h = record {
      before = r.before;
      returned = ReturnedAt-weaken Q R (m s).1 (λ a q. h a (m s).1 r.before q) (m s).0 r.returned;
    }

    handle_lem :
        {Q : A → S → Type 0} (h : E → Exec E S A) (s : S)
        → ((e : E) (t : S) → Before s t → Grows Before (h e) t Q)
        → (r : Result E A) (t : S) → Before s t
        → ReturnedAt Q r t
        → Before s (handle h r t).1 × ReturnedAt Q (handle h r t).0 (handle h r t).1
    unfolding handle
    handle_lem h s k (ok a) t b q = (b, q)
    handle_lem h s k (err e) t b q =
        let n = k e t b in (g.joins s t (h e t).1 b n.before, n.returned)

    pub Grows-try :
        {Q : A → S → Type 0} {m : Exec E S A} {h : E → Exec E S A} {s : S}
        → Grows Before m s Q
        → ((e : E) (t : S) → Before s t → Grows Before (h e) t Q)
        → Grows Before (try_catch m h) s Q
    unfolding try_catch
    Grows-try {m} {h} {s} r k =
        let n = handle_lem h s k (m s).0 (m s).1 r.before r.returned in
        record { before = n.0; returned = n.1 }

  module _ {A B : Type 0} where
    carry_on_lem :
        {Q : A → S → Type 0} {R : B → S → Type 0} (f : A → Exec E S B) (s : S)
        → ((a : A) (t : S) → Before s t → Q a t → Grows Before (f a) t R)
        → (r : Result E A) (t : S) → Before s t
        → ReturnedAt Q r t
        → Before s (carry_on f r t).1 × ReturnedAt R (carry_on f r t).0 (carry_on f r t).1
    unfolding carry_on
    carry_on_lem f s k (ok a) t b q =
        let n = k a t b q in (g.joins s t (f a t).1 b n.before, n.returned)
    carry_on_lem f s k (err e) t b q = (b, tt)

    pub Grows-bind :
        {Q : A → S → Type 0} {R : B → S → Type 0} {m : Exec E S A} {f : A → Exec E S B} {s : S}
        → Grows Before m s Q
        → ((a : A) (t : S) → Before s t → Q a t → Grows Before (f a) t R)
        → Grows Before (m >>= f) s R
    unfolding ◌>>=◌
    Grows-bind {m} {f} {s} r k =
        let n = carry_on_lem f s k (m s).0 (m s).1 r.before r.returned in
        record { before = n.0; returned = n.1 }

module _ {E S A : Type 0} where
  -- From one relation into another, along the state that the method begins in.
  pub Grows-into :
      {R B : S → S → Type 0} {Q : A → S → Type 0} {m : Exec E S A} {s : S}
      → Grows R m s Q
      → ((t : S) → R s t → B s t)
      → Grows B m s Q
  Grows-into {m} {s} r h = record { before = h (m s).1 r.before; returned = r.returned }

module _ {E S A C : Type 0} where
  then_lem :
      (R B : S → S → Type 0) {Q : A → S → Type 0} {T : C → S → Type 0} (f : A → Exec E S C) (s : S)
      → ((t : S) → R s t → B s t)
      → ((a : A) (t : S) → R s t → Q a t → Grows (λ _ u. B s u) (f a) t T)
      → (r : Result E A) (t : S) → R s t
      → ReturnedAt Q r t
      → B s (carry_on f r t).1 × ReturnedAt T (carry_on f r t).0 (carry_on f r t).1
  unfolding carry_on
  then_lem R B f s h k (ok a) t b q = let n = k a t b q in (n.before, n.returned)
  then_lem R B f s h k (err e) t b q = (h t b, tt)

  -- Two steps, each with a relation of its own.
  pub Grows-then :
      {R B : S → S → Type 0} {Q : A → S → Type 0} {T : C → S → Type 0} {m : Exec E S A}
      {f : A → Exec E S C} {s : S}
      → Grows R m s Q
      → ((t : S) → R s t → B s t)
      → ((a : A) (t : S) → R s t → Q a t → Grows (λ _ u. B s u) (f a) t T)
      → Grows B (m >>= f) s T
  unfolding ◌>>=◌
  Grows-then {R} {B} {m} {f} {s} r h k =
      let n = then_lem R B f s h k (m s).0 (m s).1 r.before r.returned in
      record { before = n.0; returned = n.1 }
