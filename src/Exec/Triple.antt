-- ===== src/Exec/Triple.antt =====
-- What a method keeps and what it returns: one rule for each way to build a method.
use andnp_searchkernel.Prelude.{◌≡◌, refl, Bool, true, false, if◌then◌else◌}
use andnp_searchkernel.Exec.{
  Result, ok, err, Exec, pure, raise, reads, handle, try_catch, unless_raised, finally, modify,
  carry_on, ◌>>=◌,
}

-- The postcondition of a method that returned; a method that raised promises nothing here.
abbrev pub Returned : {E A : Type 0} → (A → Type 0) → Result E A → Type 0
Returned Q (ok a) = Q a
Returned Q (err e) = Unit

-- From any state with `P`, `m` ends in a state with `P`, and what it returns satisfies `Q`.
pub record Triple {E S A : Type 0} (P : S → Type 0) (m : Exec E S A) (Q : A → Type 0) : Type 0 where
  pub at : (s : S) → P s → Returned Q (m s).0 × P (m s).1

Returned-weaken :
    {E A : Type 0} (Q R : A → Type 0)
    → ((a : A) → Q a → R a)
    → (r : Result E A) → Returned Q r
    → Returned R r
Returned-weaken Q R h (ok a) q = h a q
Returned-weaken Q R h (err e) q = tt

-- Nothing is said of the value.
abbrev pub Any : {A : Type 0} → A → Type 0
Any a = Unit

module _ {E S A : Type 0} {P : S → Type 0} where
  pub Triple-pure : {Q : A → Type 0} (a : A) → Q a → Triple {E = E} P (pure a) Q
  unfolding pure
  Triple-pure a q = record { at = λ s p. (q, p) }

  pub Triple-raise : {Q : A → Type 0} (e : E) → Triple P (raise e) Q
  unfolding raise
  Triple-raise e = record { at = λ s p. (tt, p) }

  pub Triple-reads : (f : S → A) → Triple {E = E} P (reads f) Any
  unfolding reads
  Triple-reads f = record { at = λ s p. (tt, p) }

  pub Triple-if :
      {Q : A → Type 0} (b : Bool) (m n : Exec E S A)
      → (b ≡ true → Triple P m Q)
      → (b ≡ false → Triple P n Q)
      → Triple P (if b then m else n) Q
  Triple-if true m n hm hn = hm refl
  Triple-if false m n hm hn = hn refl

  handle_lem :
      {Q : A → Type 0} (h : E → Exec E S A)
      → ((e : E) → Triple P (h e) Q)
      → (r : Result E A) (s : S) → Returned Q r
      → P s
      → Returned Q (handle h r s).0 × P (handle h r s).1
  unfolding handle
  handle_lem h hh (ok a) s q p = (q, p)
  handle_lem h hh (err e) s q p = (hh e).at s p

  pub Triple-try :
      {Q : A → Type 0} (m : Exec E S A) (h : E → Exec E S A)
      → Triple P m Q
      → ((e : E) → Triple P (h e) Q)
      → Triple P (try_catch m h) Q
  unfolding try_catch
  Triple-try m h hm hh = record {
    at = λ s p. handle_lem h hh (m s).0 (m s).1 (hm.at s p).0 (hm.at s p).1;
  }

  pub Triple-weaken :
      {Q R : A → Type 0} (m : Exec E S A) → Triple P m Q → ((a : A) → Q a → R a) → Triple P m R
  Triple-weaken {Q} {R} m hm h = record {
    at = λ s p. (Returned-weaken Q R h (m s).0 (hm.at s p).0, (hm.at s p).1);
  }

  pub Triple-any : {Q : A → Type 0} (m : Exec E S A) → Triple P m Q → Triple P m Any
  Triple-any m hm = Triple-weaken m hm (λ a q. tt)

pub Triple-modify :
    {E S : Type 0} {P : S → Type 0} (f : S → S)
    → ((s : S) → P s → P (f s))
    → Triple {E = E} P (modify f) Any
unfolding modify
Triple-modify f h = record { at = λ s p. (tt, h s p) }

module _ {E S A B : Type 0} {P : S → Type 0} where
  carry_on_lem :
      {Q : A → Type 0} {R : B → Type 0} (f : A → Exec E S B)
      → ((a : A) → Q a → Triple P (f a) R)
      → (r : Result E A) (s : S) → Returned Q r
      → P s
      → Returned R (carry_on f r s).0 × P (carry_on f r s).1
  unfolding carry_on
  carry_on_lem f hf (ok a) s q p = (hf a q).at s p
  carry_on_lem f hf (err e) s q p = (tt, p)

  pub Triple-bind :
      {Q : A → Type 0} {R : B → Type 0} (m : Exec E S A) (f : A → Exec E S B)
      → Triple P m Q
      → ((a : A) → Q a → Triple P (f a) R)
      → Triple P (m >>= f) R
  unfolding ◌>>=◌
  Triple-bind m f hm hf = record {
    at = λ s p. carry_on_lem f hf (m s).0 (m s).1 (hm.at s p).0 (hm.at s p).1;
  }

  infixr 6 ◌⨾◌
  -- The rule for `>>=`, written as the methods are: a proof for each step.
  pub ◌⨾◌ :
      {m : Exec E S A} {f : A → Exec E S B} {Q : A → Type 0} {R : B → Type 0}
      → Triple P m Q
      → ((a : A) → Q a → Triple P (f a) R)
      → Triple P (m >>= f) R
  ◌⨾◌ {m} {f} hm hf = Triple-bind m f hm hf

unless_raised_lem :
    {E A B : Type 0} (Q : A → Type 0) (ended : Result E B) (r : Result E A)
    → Returned Q r
    → Returned Q (unless_raised ended r)
unfolding unless_raised
unless_raised_lem Q (ok b) r q = q
unless_raised_lem Q (err e) r q = tt

module _ {E S A B : Type 0} {P : S → Type 0} where
  pub Triple-finally :
      {Q : A → Type 0} (m : Exec E S A) (exit : Exec E S B)
      → Triple P m Q
      → Triple P exit Any
      → Triple P (finally m exit) Q
  unfolding finally
  Triple-finally m exit hm he = record {
    at = λ s p.
        let body = hm.at s p in
        (unless_raised_lem _ (exit (m s).1).0 (m s).0 body.0, (he.at (m s).1 body.1).1);
  }
