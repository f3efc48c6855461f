-- ===== src/Common/Sorting.antt =====
-- Go's `sort.Sort`, which on up to 12 elements is an insertion sort.
use mathlib.Core.Bool.{Bool}
use mathlib.Core.List.{List, [], ◌∷◌, ◌++◌, reverse, append-nil, reverse_perm, perm_middle, Perm}
use mathlib.Core.List.Perm
use mathlib.Core.Logic.{inl, inr}
use nacos_sdk_go.Common.Tests.{if◌then◌else◌, Bool-cases}

module _ {ℓ} {A : Type ℓ} (less : A → A → Bool) where
  -- An element sinks to the left, past the sorted part, as long as it is less than its neighbour.
  -- The sorted part is kept reversed.
  unfoldable pub sink : A → List A → List A
  sink x [] = x ∷ []
  sink x (y ∷ sorted) = if less x y then y ∷ sink x sorted else x ∷ y ∷ sorted

  unfoldable pub sort_from : List A → List A → List A
  sort_from sorted [] = reverse sorted
  sort_from sorted (x ∷ xs) = sort_from (sink x sorted) xs

  unfoldable pub go_sort : List A → List A
  unfolding sort_from sink
  go_sort xs = sort_from [] xs

  sink-perm : (x : A) (sorted : List A) → Perm (sink x sorted) (x ∷ sorted)
  unfolding sink
  sink-perm x [] = Perm.rfl
  sink-perm x (y ∷ sorted) = elim (Bool-cases (less x y)) [
    | inl e ↦ rw e (Perm.trans (Perm.cons y (sink-perm x sorted)) (Perm.swap x y sorted))
    | inr e ↦ rw e Perm.rfl
  ]

  sort_from-perm : (sorted xs : List A) → Perm (sort_from sorted xs) (sorted ++ xs)
  unfolding sort_from
  sort_from-perm sorted [] = rw append-nil (reverse_perm sorted)
  sort_from-perm sorted (x ∷ xs) =
      Perm.trans (sort_from-perm (sink x sorted) xs)
        (Perm.trans (Perm.append_right xs (sink-perm x sorted)) (Perm.symm (perm_middle sorted xs)))

  -- Sorting keeps every element, whatever the comparison.
  pub go_sort-perm : (xs : List A) → Perm (go_sort xs) xs
  unfolding go_sort
  go_sort-perm xs = sort_from-perm [] xs
