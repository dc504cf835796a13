-- ===== src/Base/Lists.antt =====
-- Lists measured and indexed by native numbers, under the library's names.
use Prim.Native.Nat.{ℕ, zero, suc, ◌+◌, ◌≤◌, ◌<◌}
use mathlib.Core.Path.{◌≡◌, refl, ap}
use mathlib.Core.Logic.{◌≢◌, ◌⊎◌, inl, inr}
use mathlib.Core.List.{List, [], ◌∷◌, ◌++◌}
use mathlib.Core.Option.{Option, none, some}
use native.Mathlib.Omega.{arith}

module _ {ℓ} {A : Type ℓ} where
  abbrev pub length : List A → ℕ
  length [] = 0
  length (x ∷ xs) = suc (length xs)

  abbrev pub get_elem? : List A → ℕ → Option A
  get_elem? [] i = none
  get_elem? (x ∷ xs) zero = some x
  get_elem? (x ∷ xs) (suc i) = get_elem? xs i

  -- A write out of bounds changes nothing.
  abbrev pub set : List A → ℕ → A → List A
  set [] i v = []
  set (x ∷ xs) zero v = v ∷ xs
  set (x ∷ xs) (suc i) v = x ∷ set xs i v

  abbrev pub replicate : ℕ → A → List A
  replicate zero a = []
  replicate (suc n) a = a ∷ replicate n a

  abbrev pub take : ℕ → List A → List A
  take zero xs = []
  take (suc n) [] = []
  take (suc n) (x ∷ xs) = x ∷ take n xs

  -- The sum of a measure over a list.
  abbrev pub sum_by : (A → ℕ) → List A → ℕ
  sum_by f [] = 0
  sum_by f (x ∷ xs) = f x + sum_by f xs

  abbrev pub All {κ} : (A → Type κ) → List A → Type κ
  All P [] = Unit
  All P (x ∷ xs) = P x × All P xs

module _ {ℓ} {A : Type ℓ} where
  pub length-append : (xs ys : List A) → length (xs ++ ys) ≡ length xs + length ys
  length-append [] ys = omega arith
  length-append (x ∷ xs) ys = omega (arith, length-append xs ys)

  pub length-set : (xs : List A) (i : ℕ) (v : A) → length (set xs i v) ≡ length xs
  length-set [] i v = refl
  length-set (x ∷ xs) zero v = refl
  length-set (x ∷ xs) (suc i) v = ap suc (length-set xs i v)

  pub length-take : (n : ℕ) (xs : List A) → n ≤ length xs → length (take n xs) ≡ n
  length-take zero xs h = refl
  length-take (suc n) [] h = absurd (omega arith)
  length-take (suc n) (x ∷ xs) h = ap suc (length-take n xs (omega arith))

  pub length-replicate : (n : ℕ) (a : A) → length (replicate n a) ≡ n
  length-replicate zero a = refl
  length-replicate (suc n) a = ap suc (length-replicate n a)

  -- The sum over all places but one.
  abbrev pub others : (A → ℕ) → List A → ℕ → ℕ
  others f [] i = 0
  others f (x ∷ xs) zero = sum_by f xs
  others f (x ∷ xs) (suc i) = f x + others f xs i

  pub sum_by-others :
      (f : A → ℕ) (xs : List A) (i : ℕ) (a : A)
      → get_elem? xs i ≡ some a
      → sum_by f xs ≡ f a + others f xs i
  sum_by-others f [] i a h = ground arith
  sum_by-others f (x ∷ xs) zero a h = ground arith
  sum_by-others f (x ∷ xs) (suc i) a h = omega (arith, sum_by-others f xs i a h)

  -- Writing one place leaves the sum over the others.
  pub sum_by-set :
      (f : A → ℕ) (xs : List A) (i : ℕ) (a v : A)
      → get_elem? xs i ≡ some a
      → sum_by f (set xs i v) ≡ f v + others f xs i
  sum_by-set f [] i a v h = ground arith
  sum_by-set f (x ∷ xs) zero a v h = ground arith
  sum_by-set f (x ∷ xs) (suc i) a v h = omega (arith, sum_by-set f xs i a v h)

  pub sum_by_mono :
      (f g : A → ℕ) → ((x : A) → f x ≤ g x) → (xs : List A) → sum_by f xs ≤ sum_by g xs
  sum_by_mono f g h [] = omega arith
  sum_by_mono f g h (x ∷ xs) = omega (arith, h x, sum_by_mono f g h xs)

  pub others_mono :
      (f g : A → ℕ) → ((x : A) → f x ≤ g x) → (xs : List A) (i : ℕ) → others f xs i ≤ others g xs i
  others_mono f g h [] i = omega arith
  others_mono f g h (x ∷ xs) zero = sum_by_mono f g h xs
  others_mono f g h (x ∷ xs) (suc i) = omega (arith, h x, others_mono f g h xs i)

  pub sum_by-le-length : (f : A → ℕ) → ((x : A) → f x ≤ 1) → (xs : List A) → sum_by f xs ≤ length xs
  sum_by-le-length f h [] = omega arith
  sum_by-le-length f h (x ∷ xs) = omega (arith, h x, sum_by-le-length f h xs)

  pub others-lt-length :
      (f : A → ℕ)
      → ((x : A) → f x ≤ 1)
      → (xs : List A) (i : ℕ) (a : A) → get_elem? xs i ≡ some a
      → others f xs i < length xs
  others-lt-length f h [] i a e = ground arith
  others-lt-length f h (x ∷ xs) zero a e = omega (arith, sum_by-le-length f h xs)
  others-lt-length f h (x ∷ xs) (suc i) a e = omega (arith, h x, others-lt-length f h xs i a e)

  pub sum_by-replicate : (f : A → ℕ) (n : ℕ) (a : A) → f a ≡ 0 → sum_by f (replicate n a) ≡ 0
  sum_by-replicate f zero a h = refl
  sum_by-replicate f (suc n) a h = omega (arith, h, sum_by-replicate f n a h)

  pub All-append {κ} : (P : A → Type κ) (xs ys : List A) → All P xs → All P ys → All P (xs ++ ys)
  All-append P [] ys hx hy = hy
  All-append P (x ∷ xs) ys hx hy = (hx.0, All-append P xs ys hx.1 hy)

  -- Two measures that agree where `P` holds have the same sum where all entries satisfy it.
  pub sum_by-agree {κ} :
      (f g : A → ℕ) (P : A → Type κ)
      → ((x : A) → P x → f x ≡ g x)
      → (xs : List A) → All P xs
      → sum_by f xs ≡ sum_by g xs
  sum_by-agree f g P h [] a = refl
  sum_by-agree f g P h (x ∷ xs) a = omega (arith, h x a.0, sum_by-agree f g P h xs a.1)

  pub sum_by-zero : (xs : List A) → sum_by (λ x. 0) xs ≡ 0
  sum_by-zero [] = refl
  sum_by-zero (x ∷ xs) = omega (arith, sum_by-zero xs)

  pub sum_by-append : (f : A → ℕ) (xs ys : List A) → sum_by f (xs ++ ys) ≡ sum_by f xs + sum_by f ys
  sum_by-append f [] ys = omega arith
  sum_by-append f (x ∷ xs) ys = omega (arith, sum_by-append f xs ys)

  pub le-others :
      (f : A → ℕ) (xs : List A) (i j : ℕ) (b : A)
      → i ≢ j
      → get_elem? xs j ≡ some b
      → f b ≤ others f xs i
  le-others f [] i j b n e = ground arith
  le-others f (x ∷ xs) zero zero b n e = absurd (n refl)
  le-others f (x ∷ xs) zero (suc j) b n e = omega (arith, le-sum_by f xs j b e)
    where
      le-sum_by :
          (g : A → ℕ) (ys : List A) (k : ℕ) (a : A) → get_elem? ys k ≡ some a → g a ≤ sum_by g ys
      le-sum_by g ys k a h = omega (arith, sum_by-others g ys k a h)
  le-others f (x ∷ xs) (suc i) zero b n e = ground arith
  le-others f (x ∷ xs) (suc i) (suc j) b n e =
      omega (arith, le-others f xs i j b (λ h. n (ap suc h)) e)

  -- An entry after a write is the one written, or an old one from another place.
  pub get_elem?-set :
      (xs : List A) (i : ℕ) (v : A) (j : ℕ) (x : A)
      → get_elem? (set xs i v) j ≡ some x
      → ((i ≡ j) × (v ≡ x)) ⊎ ((i ≢ j) × (get_elem? xs j ≡ some x))
  get_elem?-set [] i v j x h = ground arith
  get_elem?-set (y ∷ xs) zero v zero x h = inl (refl, ground arith)
  get_elem?-set (y ∷ xs) zero v (suc j) x h = inr (λ e. omega arith, h)
  get_elem?-set (y ∷ xs) (suc i) v zero x h = inr (λ e. omega arith, h)
  get_elem?-set (y ∷ xs) (suc i) v (suc j) x h = elim (get_elem?-set xs i v j x h) [
    | inl (e, same) ↦ inl (ap suc e, same)
    | inr (n, there) ↦ inr (λ e. n (omega arith), there)
  ]
