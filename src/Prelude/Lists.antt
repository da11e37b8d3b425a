-- ===== src/Prelude/Lists.antt =====
-- Lists measured and indexed by native numbers, under the library's names.
use Prim.Native.Nat.{ℕ, zero, suc, ◌+◌, ◌-◌, ◌≤◌, min}
use mathlib.Core.Path.{◌≡◌, refl, sym, ap}
use mathlib.Core.List.{List, [], ◌∷◌, ◌++◌}
use mathlib.Core.Option.{Option, none, some}
use native.Mathlib.Omega.{arith}
use native.Mathlib.Nat.{suc-add, zero-add}

module _ {ℓ} {A : Type ℓ} where
  abbrev pub length : List A → ℕ
  length [] = 0
  length (x ∷ xs) = suc (length xs)

  abbrev pub get_elem? : List A → ℕ → Option A
  get_elem? [] i = none
  get_elem? (x ∷ xs) zero = some x
  get_elem? (x ∷ xs) (suc i) = get_elem? xs i

  abbrev pub take : ℕ → List A → List A
  take zero xs = []
  take (suc n) [] = []
  take (suc n) (x ∷ xs) = x ∷ take n xs

  abbrev pub drop : ℕ → List A → List A
  drop zero xs = xs
  drop (suc n) [] = []
  drop (suc n) (x ∷ xs) = drop n xs

  pub length-append : (xs ys : List A) → length (xs ++ ys) ≡ length xs + length ys
  length-append [] ys = omega arith
  length-append (x ∷ xs) ys = omega (arith, length-append xs ys)

  pub length-take : (n : ℕ) (xs : List A) → length (take n xs) ≡ min n (length xs)
  length-take zero xs = omega arith
  length-take (suc n) [] = omega arith
  length-take (suc n) (x ∷ xs) = omega (arith, length-take n xs)

  pub length-drop : (n : ℕ) (xs : List A) → length (drop n xs) ≡ length xs - n
  length-drop zero xs = omega arith
  length-drop (suc n) [] = omega arith
  length-drop (suc n) (x ∷ xs) = omega (arith, length-drop n xs)

  pub take-append-drop : (n : ℕ) (xs : List A) → take n xs ++ drop n xs ≡ xs
  take-append-drop zero xs = refl
  take-append-drop (suc n) [] = refl
  take-append-drop (suc n) (x ∷ xs) = ap (◌∷◌ x) (take-append-drop n xs)

-- A property of every element, by recursion.
abbrev pub All {ℓ κ} : {A : Type ℓ} (Q : A → Type κ) → List A → Type κ
All Q (y ∷ ys) = Q y × All Q ys
All Q [] = Unit

pub All-append {ℓ κ} :
    {A : Type ℓ} (Q : A → Type κ) (ys zs : List A) → All Q ys → All Q zs → All Q (ys ++ zs)
All-append Q [] zs h k = k
All-append Q (y ∷ ys) zs h k = (h.0, All-append Q ys zs h.1 k)

module _ {ℓ} {A : Type ℓ} where
  take-nil : (n : ℕ) → take {A = A} n [] ≡ []
  take-nil zero = refl
  take-nil (suc n) = refl

  drop-nil : (n : ℕ) → drop {A = A} n [] ≡ []
  drop-nil zero = refl
  drop-nil (suc n) = refl

  pub take-add : (m n : ℕ) (xs : List A) → take (m + n) xs ≡ take m xs ++ take n (drop m xs)
  take-add zero n xs = rw zero-add
  take-add (suc m) n [] = rw suc-add (sym (take-nil n))
  take-add (suc m) n (x ∷ xs) = rw suc-add (ap (◌∷◌ x) (take-add m n xs))

  pub drop-add : (m n : ℕ) (xs : List A) → drop (m + n) xs ≡ drop n (drop m xs)
  drop-add zero n xs = rw zero-add
  drop-add (suc m) n [] = rw suc-add (sym (drop-nil n))
  drop-add (suc m) n (x ∷ xs) = rw suc-add (drop-add m n xs)

  pub drop-take : (m n : ℕ) (xs : List A) → drop m (take n xs) ≡ take (n - m) (drop m xs)
  drop-take zero n xs = let e : n - zero ≡ n = omega arith in rw e
  drop-take (suc m) zero xs = let e : zero - suc m ≡ zero = omega arith in rw e
  drop-take (suc m) (suc n) [] = sym (take-nil (suc n - suc m))
  drop-take (suc m) (suc n) (x ∷ xs) =
      let e : suc n - suc m ≡ n - m = omega arith in rw e (drop-take m n xs)

  -- To take as many as there are, or more, is to take all; to drop as many is to drop all.
  pub take_of_length-le : (k : ℕ) (ys : List A) → length ys ≤ k → take k ys ≡ ys
  take_of_length-le k [] le = take-nil k
  take_of_length-le zero (y ∷ ys) le = absurd (omega arith)
  take_of_length-le (suc k) (y ∷ ys) le = let rest = take_of_length-le k ys (omega arith) in rw rest

  pub drop_of_length-le : (k : ℕ) (ys : List A) → length ys ≤ k → drop k ys ≡ []
  drop_of_length-le k [] le = drop-nil k
  drop_of_length-le zero (y ∷ ys) le = absurd (omega arith)
  drop_of_length-le (suc k) (y ∷ ys) le = drop_of_length-le k ys (omega arith)
