-- ===== src/Exec.antt =====
-- Methods that change state and may raise. What was written before a raise stays written, so the
-- state comes back beside the error too; `try_catch` is `try: … except Exception as exc: …`.
pub mod Triple
pub mod Runs
pub mod Grows

pub data Result (E A : Type 0) : Type 0 where
  ok : A → Result E A
  err : E → Result E A

abbrev pub Exec : Type 0 → Type 0 → Type 0 → Type 0
Exec E S A = S → Result E A × S

module _ {E S A : Type 0} where
  unfoldable pub pure : A → Exec E S A
  pure a s = (ok a, s)

  unfoldable pub raise : E → Exec E S A
  raise e s = (err e, s)

  -- The state as the rest of a method finds it.
  unfoldable pub reads : (S → A) → Exec E S A
  reads f s = (ok (f s), s)

  -- A handler runs in the state that the raise left behind.
  unfoldable pub handle : (E → Exec E S A) → Result E A → Exec E S A
  handle h (ok a) s = (ok a, s)
  handle h (err e) s = h e s

  unfoldable pub try_catch : Exec E S A → (E → Exec E S A) → Exec E S A
  unfolding handle
  try_catch m h s = let (r, s') = m s in handle h r s'

module _ {E S : Type 0} where
  unfoldable pub modify : (S → S) → Exec E S (Unit {0})
  modify f s = (ok tt, f s)

-- What a body gave, or what its exit raised.
unfoldable pub unless_raised : {E A B : Type 0} → Result E B → Result E A → Result E A
unless_raised (ok b) result = result
unless_raised (err e) result = err e

module _ {E S A B : Type 0} where
  -- Code that runs on the way out, whether or not the body raised: a clause `finally`, or a `with` block's
  -- exit. If it raises, then so does the statement.
  unfoldable pub finally : Exec E S A → Exec E S B → Exec E S A
  unfolding unless_raised
  finally m exit s = let (r, t) = m s in let (ended, u) = exit t in (unless_raised ended r, u)

module _ {E S A B : Type 0} where
  unfoldable pub carry_on : (A → Exec E S B) → Result E A → Exec E S B
  carry_on f (ok a) s = f a s
  carry_on f (err e) s = (err e, s)

  infixl 10 ◌>>=◌ ◌>>◌
  unfoldable pub ◌>>=◌ : Exec E S A → (A → Exec E S B) → Exec E S B
  unfolding carry_on
  ◌>>=◌ m f s = let (r, s') = m s in carry_on f r s'

  abbrev pub ◌>>◌ : Exec E S A → Exec E S B → Exec E S B
  m >> n = m >>= λ _. n
