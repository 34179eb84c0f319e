-- ===== src/Common/Lists.antt =====
-- Lists measured by native numbers, under the library's names, and sums over a list.
use Prim.Native.Nat.{ℕ, zero, suc, ◌+◌, ◌-◌, ◌<◌}
use mathlib.Core.Path.{◌≡◌, refl, ap, subst}
use mathlib.Core.Logic.{◌≢◌, ◌⊎◌, inl, inr}
use mathlib.Core.Bool.{Bool, false, ◌||◌}
use mathlib.Core.Option.{Option, none, some}
use mathlib.Core.List.{List, [], ◌∷◌, ◌++◌, map}
use native.Mathlib.Omega.{arith}
use rtq_go_endpoint.Common.Tests.{◌==◌}

module _ {ℓ} {A : Type ℓ} where
  abbrev pub length : List A → ℕ
  length [] = 0
  length (_ ∷ xs) = suc (length xs)

  abbrev pub drop : ℕ → List A → List A
  drop zero xs = xs
  drop (suc n) [] = []
  drop (suc n) (_ ∷ xs) = drop n xs

  abbrev pub take : ℕ → List A → List A
  take zero xs = []
  take (suc n) [] = []
  take (suc n) (x ∷ xs) = x ∷ take n xs

  abbrev pub get_elem? : List A → ℕ → Option A
  get_elem? [] i = none
  get_elem? (x ∷ xs) zero = some x
  get_elem? (x ∷ xs) (suc i) = get_elem? xs i

  -- A write out of bounds changes nothing.
  abbrev pub set : List A → ℕ → A → List A
  set [] i v = []
  set (x ∷ xs) zero v = v ∷ xs
  set (x ∷ xs) (suc i) v = x ∷ set xs i v

  -- the element at the back, if there is one
  abbrev pub last? : List A → Option A
  last? [] = none
  last? (x ∷ []) = some x
  last? (_ ∷ y ∷ ys) = last? (y ∷ ys)

  -- the sum of a measure over a list
  abbrev pub sum_by : (A → ℕ) → List A → ℕ
  sum_by w [] = 0
  sum_by w (x ∷ xs) = w x + sum_by w xs

  -- Every element satisfies `P`.
  abbrev pub All {κ} : (A → Type κ) → List A → Type κ
  All P [] = Unit
  All P (x ∷ xs) = P x × All P xs

module _ {ℓ} {A : Type ℓ} where
  pub length-append : (xs ys : List A) → length (xs ++ ys) ≡ length xs + length ys
  length-append [] ys = omega arith
  length-append (x ∷ xs) ys = omega (arith, length-append xs ys)

  pub sum_by-append : (w : A → ℕ) (xs ys : List A) → sum_by w (xs ++ ys) ≡ sum_by w xs + sum_by w ys
  sum_by-append w [] ys = omega arith
  sum_by-append w (x ∷ xs) ys = omega (arith, sum_by-append w xs ys)

  pub drop-append : (xs ys : List A) → drop (length xs) (xs ++ ys) ≡ ys
  drop-append [] ys = refl
  drop-append (x ∷ xs) ys = drop-append xs ys

  pub length-drop : (n : ℕ) (xs : List A) → length (drop n xs) ≡ length xs - n
  length-drop zero xs = omega arith
  length-drop (suc n) [] = omega arith
  length-drop (suc n) (x ∷ xs) = omega (arith, length-drop n xs)

  pub All-append {κ} :
      (Q : A → Type κ) (front rest : List A) → All Q front → All Q rest → All Q (front ++ rest)
  All-append Q [] rest _ r = r
  All-append Q (_ ∷ front) rest (first, others) r = (first, All-append Q front rest others r)

  pub last?-append : (xs : List A) (y : A) → last? (xs ++ (y ∷ [])) ≡ some y
  last?-append [] y = refl
  last?-append (x ∷ []) y = refl
  last?-append (x ∷ x' ∷ xs) y = last?-append (x' ∷ xs) y

module _ {ℓ} {A : Type ℓ} where
  -- A write changes the place it names and no other.
  pub get_elem?-set :
      (xs : List A) (i j : ℕ) (v : A) {x : A}
      → get_elem? (set xs i v) j ≡ some x
      → ((i ≡ j) × (x ≡ v)) ⊎ ((i ≢ j) × (get_elem? xs j ≡ some x))
  get_elem?-set [] i j v h = absurd (cc)
  get_elem?-set (y ∷ ys) zero zero v h = inl (refl, ground arith)
  get_elem?-set (y ∷ ys) zero (suc j) v h = inr (omega arith, h)
  get_elem?-set (y ∷ ys) (suc i) zero v h = inr (omega arith, h)
  get_elem?-set (y ∷ ys) (suc i) (suc j) v h = elim (get_elem?-set ys i j v h) [
    | inl (e, f) ↦ inl (ap suc e, f)
    | inr (e, f) ↦ inr (omega arith, f)
  ]

  pub get_elem?-set_self :
      (xs : List A) (i : ℕ) (v : A) {x : A}
      → get_elem? xs i ≡ some x
      → get_elem? (set xs i v) i ≡ some v
  get_elem?-set_self [] i v h = absurd (cc)
  get_elem?-set_self (y ∷ ys) zero v h = refl
  get_elem?-set_self (y ∷ ys) (suc i) v h = get_elem?-set_self ys i v h

  pub get_elem?-set_ne :
      (xs : List A) (i j : ℕ) (v : A) → i ≢ j → get_elem? (set xs i v) j ≡ get_elem? xs j
  get_elem?-set_ne [] i j v h = refl
  get_elem?-set_ne (y ∷ ys) zero zero v h = absurd (h refl)
  get_elem?-set_ne (y ∷ ys) zero (suc j) v h = refl
  get_elem?-set_ne (y ∷ ys) (suc i) zero v h = refl
  get_elem?-set_ne (y ∷ ys) (suc i) (suc j) v h = get_elem?-set_ne ys i j v (λ e. h (ap suc e))

  -- What is there stays there when a list is extended, and the new element is at the end.
  pub get_elem?-append :
      (xs : List A) (i : ℕ) (v : A) {x : A}
      → get_elem? xs i ≡ some x
      → get_elem? (xs ++ (v ∷ [])) i ≡ some x
  get_elem?-append [] i v h = absurd (cc)
  get_elem?-append (y ∷ ys) zero v h = h
  get_elem?-append (y ∷ ys) (suc i) v h = get_elem?-append ys i v h

  pub get_elem?-append_new : (xs : List A) (v : A) → get_elem? (xs ++ (v ∷ [])) (length xs) ≡ some v
  get_elem?-append_new [] v = refl
  get_elem?-append_new (y ∷ ys) v = get_elem?-append_new ys v

  pub get_elem?-append_inv :
      (xs : List A) (i : ℕ) (v : A) {x : A}
      → get_elem? (xs ++ (v ∷ [])) i ≡ some x
      → ((i ≡ length xs) × (x ≡ v)) ⊎ (get_elem? xs i ≡ some x)
  get_elem?-append_inv [] zero v h = inl (refl, ground arith)
  get_elem?-append_inv [] (suc i) v h = absurd (cc)
  get_elem?-append_inv (y ∷ ys) zero v h = inr h
  get_elem?-append_inv (y ∷ ys) (suc i) v h = elim (get_elem?-append_inv ys i v h) [
    | inl (e, f) ↦ inl (ap suc e, f)
    | inr f ↦ inr f
  ]

  pub get_elem?-lt : (xs : List A) (i : ℕ) {x : A} → get_elem? xs i ≡ some x → i < length xs
  get_elem?-lt [] i h = absurd (cc)
  get_elem?-lt (y ∷ ys) zero h = omega arith
  get_elem?-lt (y ∷ ys) (suc i) h = omega (arith, get_elem?-lt ys i h)

some-eq {ℓ} : {A : Type ℓ} {x y : A} → some x ≡ some y → x ≡ y
some-eq h = cc

module _ {ℓ κ} {A : Type ℓ} (P : A → Type κ) where
  pub All-get_elem? : (xs : List A) (i : ℕ) {x : A} → All P xs → get_elem? xs i ≡ some x → P x
  All-get_elem? [] i a h = absurd (cc)
  All-get_elem? (y ∷ ys) zero a h = subst P (some-eq h) a.0
  All-get_elem? (y ∷ ys) (suc i) a h = All-get_elem? ys i a.1 h

  pub All-set : (xs : List A) (i : ℕ) (v : A) → All P xs → P v → All P (set xs i v)
  All-set [] i v a h = a
  All-set (y ∷ ys) zero v a h = (h, a.1)
  All-set (y ∷ ys) (suc i) v a h = (a.0, All-set ys i v a.1 h)

  pub All-map :
      (f : A → A) → ((x : A) → P x → P (f x)) → (xs : List A) → All P xs → All P (map f xs)
  All-map f keep [] a = a
  All-map f keep (y ∷ ys) a = (keep y a.0, All-map f keep ys a.1)

module _ {ℓ} {A : Type ℓ} where
  pub length-set : (xs : List A) (i : ℕ) (v : A) → length (set xs i v) ≡ length xs
  length-set [] i v = refl
  length-set (x ∷ xs) zero v = refl
  length-set (x ∷ xs) (suc i) v = ap suc (length-set xs i v)

  pub length-map : (f : A → A) (xs : List A) → length (map f xs) ≡ length xs
  length-map f [] = refl
  length-map f (x ∷ xs) = ap suc (length-map f xs)

  pub get_elem?-map :
      (f : A → A) (xs : List A) (i : ℕ) {x : A}
      → get_elem? xs i ≡ some x
      → get_elem? (map f xs) i ≡ some (f x)
  get_elem?-map f [] i h = absurd (cc)
  get_elem?-map f (y ∷ ys) zero h = ap some (ap f (some-eq h))
  get_elem?-map f (y ∷ ys) (suc i) h = get_elem?-map f ys i h

  pub get_elem?_of_lt : (xs : List A) (i : ℕ) → i < length xs → (x : A) × (get_elem? xs i ≡ some x)
  get_elem?_of_lt [] i h = absurd (omega arith)
  get_elem?_of_lt (x ∷ xs) zero h = (x, refl)
  get_elem?_of_lt (x ∷ xs) (suc i) h = get_elem?_of_lt xs i (omega arith)

-- Membership as a test, on numbers.
abbrev pub elem : ℕ → List ℕ → Bool
elem a [] = false
elem a (x ∷ xs) = (x == a) || elem a xs

-- A weaker predicate holds of the elements too.
pub All-mono {ℓ κ μ} :
    {A : Type ℓ} (P : A → Type κ) (Q : A → Type μ)
    → ((a : A) → P a → Q a)
    → (xs : List A) → All P xs
    → All Q xs
All-mono P Q weaken [] h = tt
All-mono P Q weaken (x ∷ xs) (first, others) = (weaken x first, All-mono P Q weaken xs others)
