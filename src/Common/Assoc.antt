-- ===== src/Common/Assoc.antt =====
-- Go maps whose keys are numbers, as association lists.
use Prim.Native.Nat.{ℕ}
use mathlib.Core.Path.{◌≡◌, refl}
use mathlib.Core.Logic.{◌≢◌, ◌⊎◌, inl, inr}
use mathlib.Core.Bool.{false}
use mathlib.Core.Option.{Option, none, some}
use mathlib.Core.List.{List, [], ◌∷◌}
use native.Mathlib.Omega.{arith}
use rtq_go_endpoint.Common.Tests.{◌==◌, ==_iff, Bool-cases, if◌then◌else◌}

ne_of_test : {k j : ℕ} → (k == j) ≡ false → k ≢ j
ne_of_test h = ground arith

module _ {ℓ} {V : Type ℓ} where
  -- `v, ok := m[k]`
  unfoldable pub lookup : ℕ → List (ℕ × V) → Option V
  lookup k [] = none
  lookup k ((j, v) ∷ m) = if j == k then some v else lookup k m

  -- `m[k] = v`
  unfoldable pub insert : ℕ → V → List (ℕ × V) → List (ℕ × V)
  insert k v [] = (k, v) ∷ []
  insert k v ((j, w) ∷ m) = if j == k then (k, v) ∷ m else (j, w) ∷ insert k v m

  -- `delete(m, k)`
  unfoldable pub erase : ℕ → List (ℕ × V) → List (ℕ × V)
  erase k [] = []
  erase k ((j, w) ∷ m) = if j == k then erase k m else (j, w) ∷ erase k m

  pub lookup-insert :
      (key other : ℕ) (value : V) (entries : List (ℕ × V))
      → lookup other (insert key value entries)
        ≡ (if key == other then some value else lookup other entries)
  unfolding lookup insert
  lookup-insert key other value [] = refl
  lookup-insert key other value ((_, _) ∷ entries) =
      ground (arith, lookup-insert key other value entries)

  pub lookup-erase :
      (k j : ℕ) (m : List (ℕ × V)) → lookup j (erase k m) ≡ (if k == j then none else lookup j m)
  unfolding lookup erase
  lookup-erase k j [] = ground arith
  lookup-erase k j ((i, w) ∷ m) = ground (arith, lookup-erase k j m)

  pub lookup-erase-some :
      (k j : ℕ) (m : List (ℕ × V)) {x : V}
      → lookup j (erase k m) ≡ some x
      → (k ≢ j) × (lookup j m ≡ some x)
  lookup-erase-some k j m h = ground (arith, lookup-erase k j m)

  pub lookup-insert-some :
      (k j : ℕ) (v : V) (m : List (ℕ × V)) {x : V}
      → lookup j (insert k v m) ≡ some x
      → ((k ≡ j) × (x ≡ v)) ⊎ ((k ≢ j) × (lookup j m ≡ some x))
  lookup-insert-some k j v m h = elim (Bool-cases (k == j)) [
    | inl same ↦ inl ((==_iff k j).0 same, cc (rw (lookup-insert k j v m, same) at h))
    | inr other ↦ inr (ne_of_test other, rw (lookup-insert k j v m, other) at h)
  ]
