-- ===== src/Common/Maps.antt =====
-- A Go map as an association list. The list's order stands for the arbitrary order of `range`.
use Prim.Native.Nat.{suc}
use mathlib.Core.Path.{◌≡◌, refl}
use mathlib.Core.Bool.{Bool, true, false}
use mathlib.Core.Option.{Option, none, some}
use mathlib.Core.List.{List, [], ◌∷◌, ◌++◌}
use native.Mathlib.Omega.{arith}
use nacos_sdk_go.Common.Tests.{Comparable, ◌==◌, if◌then◌else◌}
use nacos_sdk_go.Common.Lists.{length}

abbrev pub is_some {ℓ} : {A : Type ℓ} → Option A → Bool
is_some none = false
is_some (some a) = true

abbrev pub Dict {ℓ κ} : Type ℓ → Type κ → Type (ℓ ⊔ κ)
Dict K V = List (K × V)

module _ {ℓ κ} {K : Type ℓ} {V : Type κ} ⦃e : Comparable K⦄ where
  -- `value, ok := entries[key]`
  unfoldable pub lookup : (key : K) (entries : Dict K V) → Option V
  lookup key [] = none
  lookup key ((first, value) ∷ entries) = if first == key then some value else lookup key entries

  -- `delete(entries, key)`
  unfoldable pub delete : (key : K) (entries : Dict K V) → Dict K V
  delete key [] = []
  delete key ((first, value) ∷ entries) =
      let rest = delete key entries in if first == key then rest else (first, value) ∷ rest

  -- `entries[key] = new`
  unfoldable pub insert : (key : K) (new : V) (entries : Dict K V) → Dict K V
  insert key new [] = (key, new) ∷ []
  insert key new ((first, value) ∷ entries) =
      if first == key then (first, new) ∷ entries else (first, value) ∷ insert key new entries

  -- No key stands twice.
  abbrev pub Distinct : Dict K V → Type κ
  Distinct [] = Unit
  Distinct ((k, v) ∷ m) = (lookup k m ≡ none) × Distinct m

  pub lookup-nil : (k : K) → ◌≡◌ {A = Option V} (lookup k []) none
  unfolding lookup
  lookup-nil k = refl

  pub lookup-insert :
      (new_key key : K) (new : V) (entries : Dict K V)
      → lookup key (insert new_key new entries)
        ≡ (if new_key == key then some new else lookup key entries)
  unfolding insert lookup
  lookup-insert new_key key new [] = refl
  lookup-insert new_key key new ((first, value) ∷ entries) = ground (
    arith,
    lookup-insert new_key key new entries,
    e.equal_iff first key,
    e.equal_iff first new_key,
    e.equal_iff new_key key,
  )

  pub lookup-delete :
      (k j : K) (m : Dict K V) → lookup j (delete k m) ≡ (if k == j then none else lookup j m)
  unfolding lookup delete
  lookup-delete k j [] = ground arith
  lookup-delete k j ((i, w) ∷ m) =
      ground (arith, e.equal_iff k j, e.equal_iff i k, e.equal_iff i j, lookup-delete k j m)

  pub insert-Distinct : (k : K) (v : V) (m : Dict K V) → Distinct m → Distinct (insert k v m)
  unfolding lookup insert
  insert-Distinct k v [] d = (refl, tt)
  insert-Distinct k v ((i, w) ∷ m) d =
      ground
        (arith, e.equal_iff i k, e.equal_iff k i, insert-Distinct k v m d.1, lookup-insert k i v m)

  pub delete-Distinct : (k : K) (m : Dict K V) → Distinct m → Distinct (delete k m)
  unfolding lookup delete
  delete-Distinct k [] d = d
  delete-Distinct k ((i, w) ∷ m) d = ground (arith, delete-Distinct k m d.1, lookup-delete k i m)

  pub length-insert :
      (k : K) (v : V) (m : Dict K V)
      → length (insert k v m) ≡ (if is_some (lookup k m) then length m else suc (length m))
  unfolding lookup insert
  length-insert k v [] = refl
  length-insert k v ((i, w) ∷ m) = ground (arith, length-insert k v m)

  pub delete_absent : (k : K) (m : Dict K V) → lookup k m ≡ none → delete k m ≡ m
  unfolding lookup delete
  delete_absent k [] h = refl
  delete_absent k ((i, w) ∷ m) h = ground (arith, delete_absent k m)

  pub length-delete :
      (k : K) (m : Dict K V)
      → Distinct m
      → (if is_some (lookup k m) then suc (length (delete k m)) else length (delete k m)) ≡ length m
  unfolding lookup delete
  length-delete k [] d = refl
  length-delete k ((i, w) ∷ m) d =
      ground (arith, e.equal_iff i k, delete_absent k m, length-delete k m d.1)

  pub lookup-append :
      (k : K) (m n : Dict K V)
      → lookup k (m ++ n) ≡ elim (lookup k m) [ none ↦ lookup k n | some v ↦ some v ]
  unfolding lookup
  lookup-append k [] n = refl
  lookup-append k ((i, w) ∷ m) n = ground (arith, lookup-append k m n)
