-- ===== src/Exec/Runs.antt =====
-- Total correctness: a method returns, and what it returns with the state it leaves satisfies `Q`.
use andnp_searchkernel.Prelude.{◌≡◌, refl, Bool, true, false, if◌then◌else◌}
use andnp_searchkernel.Exec.Grows.{IsGrowth}
use andnp_searchkernel.Exec.{ok, Exec, pure, handle, try_catch, modify, carry_on, ◌>>=◌}

pub record Runs {E S A : Type 0} (m : Exec E S A) (s : S) (Q : A → S → Type 0) : Type 0 where
  pub value : A
  pub state : S
  pub result : m s ≡ (ok value, state)
  pub holds : Q value state

module _ {E S A : Type 0} where
  pub Runs-pure : {Q : A → S → Type 0} (a : A) (s : S) → Q a s → Runs {E = E} (pure a) s Q
  unfolding pure
  Runs-pure a s q = record { value = a; state = s; result = refl; holds = q }

  pub Runs-try :
      {Q : A → S → Type 0} (m : Exec E S A) (h : E → Exec E S A) (s : S)
      → Runs m s Q
      → Runs (try_catch m h) s Q
  unfolding try_catch handle
  Runs-try m h s r = record {
    value = r.value;
    state = r.state;
    result = rw r.result;
    holds = r.holds;
  }

  pub Runs-if_true :
      {Q : A → S → Type 0} (b : Bool) (m n : Exec E S A) (s : S)
      → b ≡ true
      → Runs m s Q
      → Runs (if b then m else n) s Q
  Runs-if_true true m n s e r = r
  Runs-if_true false m n s e r = cc

  pub Runs-if_false :
      {Q : A → S → Type 0} (b : Bool) (m n : Exec E S A) (s : S)
      → b ≡ false
      → Runs n s Q
      → Runs (if b then m else n) s Q
  Runs-if_false true m n s e r = cc
  Runs-if_false false m n s e r = r

  pub Runs-weaken :
      {Q R : A → S → Type 0} (m : Exec E S A) (s : S)
      → Runs m s Q
      → ((a : A) (t : S) → Q a t → R a t)
      → Runs m s R
  Runs-weaken m s r h = record {
    value = r.value;
    state = r.state;
    result = r.result;
    holds = h r.value r.state r.holds;
  }

pub Runs-modify :
    {E S : Type 0} {Q : Unit {0} → S → Type 0} (f : S → S) (s : S)
    → Q tt (f s)
    → Runs {E = E} (modify f) s Q
unfolding modify
Runs-modify f s q = record { value = tt; state = f s; result = refl; holds = q }

pub Runs-bind :
    {E S A B : Type 0} {Q : A → S → Type 0} {R : B → S → Type 0} {m : Exec E S A}
    {f : A → Exec E S B} {s : S}
    → Runs m s Q
    → ((a : A) (t : S) → Q a t → Runs (f a) t R)
    → Runs (m >>= f) s R
unfolding ◌>>=◌ carry_on
Runs-bind {m} {f} {s} r k =
    let next = k r.value r.state r.holds in
    record {
      value = next.value;
      state = next.state;
      result = rw r.result next.result;
      holds = next.holds;
    }

-- A method that returns, with a value that has `Q`, in a state that `R` relates to the one before.
abbrev pub Returns : {E S A : Type 0} → (S → S → Type 0) → Exec E S A → S → (A → Type 0) → Type 0
Returns R m s Q = Runs m s (λ a t. R s t × Q a)

module _ {E S : Type 0} {R : S → S → Type 0} (g : IsGrowth R) where
  pub Returns-pure :
      {A : Type 0} {Q : A → Type 0} (a : A) (s : S) → Q a → Returns {E = E} R (pure a) s Q
  Returns-pure a s q = Runs-pure a s (g.stays s, q)

  pub Returns-bind :
      {A B : Type 0} {Q : A → Type 0} {T : B → Type 0} {m : Exec E S A} {f : A → Exec E S B} {s : S}
      → Returns R m s Q
      → ((a : A) (t : S) → Q a → Returns R (f a) t T)
      → Returns R (m >>= f) s T
  Returns-bind {m} {f} {s} r k =
      Runs-bind r λ a t q. Runs-weaken (f a) t (k a t q.1) λ b u q'. (g.joins s t u q.0 q'.0, q'.1)
