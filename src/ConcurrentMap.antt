-- ===== src/ConcurrentMap.antt =====
-- The map of clients/cache/concurrent_map.go, a copy of another project's library: what the
-- clients call of it, with its documented behaviour. `FlatMap` shows that it can be met.
use nacos_sdk_go.Common.{
  ℕ, ◌≡◌, refl, Option, none, some, Bytes, Dict, lookup, insert, delete, length, bytes_eq,
  if◌then◌else◌, Distinct, ◌==◌, lookup-insert, lookup-nil, lookup-delete, insert-Distinct,
  delete-Distinct, [],
}

-- `Map V` holds the states in reach: `items` is one of the orders in which `Items` may be ranged
-- over, and holds each key once with the value that `Get` finds; `Count` is their number.
pub record ConcurrentMap : Type 1 where
  pub Map : Type 0 → Type 0
  pub new : {V : Type 0} → Map V
  pub get : {V : Type 0} → Map V → Bytes → Option V
  pub set : {V : Type 0} → Map V → Bytes → V → Map V
  pub remove : {V : Type 0} → Map V → Bytes → Map V
  pub items : {V : Type 0} → Map V → Dict Bytes V
  pub get-new : {V : Type 0} (k : Bytes) → get (new {V = V}) k ≡ none
  pub get-set :
      {V : Type 0} (m : Map V) (k : Bytes) (v : V) (j : Bytes)
      → get (set m k v) j ≡ (if k == j then some v else get m j)
  pub get-remove :
      {V : Type 0} (m : Map V) (k j : Bytes)
      → get (remove m k) j ≡ (if k == j then none else get m j)
  pub items-Distinct : {V : Type 0} (m : Map V) → Distinct (items m)
  pub lookup-items : {V : Type 0} (m : Map V) (k : Bytes) → lookup k (items m) ≡ get m k

module _ ⦃cm : ConcurrentMap⦄ where
  abbrev pub Shared : Type 0 → Type 0
  Shared = cm.Map

  abbrev pub new_map : {V : Type 0} → Shared V
  new_map = cm.new

  abbrev pub get : {V : Type 0} → Shared V → Bytes → Option V
  get m k = cm.get m k

  abbrev pub set_key : {V : Type 0} → Shared V → Bytes → V → Shared V
  set_key m k v = cm.set m k v

  abbrev pub remove : {V : Type 0} → Shared V → Bytes → Shared V
  remove m k = cm.remove m k

  abbrev pub items : {V : Type 0} → Shared V → Dict Bytes V
  items m = cm.items m

  abbrev pub count : {V : Type 0} → Shared V → ℕ
  count m = length (items m)

-- A dictionary with its keys distinct.
pub record FlatMap (V : Type 0) : Type 0 where
  pub entries : Dict Bytes V
  pub distinct : Distinct entries

-- The interface is met by a flat dictionary.
abbrev pub flat : ConcurrentMap
flat = record {
  Map = FlatMap;
  new = record { entries = []; distinct = tt };
  get = λ m k. lookup k m.entries;
  set = λ m k v. record {
    entries = insert k v m.entries;
    distinct = insert-Distinct k v m.entries m.distinct;
  };
  remove = λ m k. record {
    entries = delete k m.entries;
    distinct = delete-Distinct k m.entries m.distinct;
  };
  items = λ m. m.entries;
  get-new = λ k. lookup-nil k;
  get-set = λ m k v j. lookup-insert k j v m.entries;
  get-remove = λ m k j. lookup-delete k j m.entries;
  items-Distinct = λ m. m.distinct;
  lookup-items = λ m k. refl;
}
