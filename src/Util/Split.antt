-- ===== src/Util/Split.antt =====
-- `strings.Split` on the two-byte separator of cache keys, and on a single byte.
use nacos_sdk_go.Common.{
  ℕ, ◌≡◌, refl, ◌≢◌, true, false, ◌&&◌, List, [], ◌∷◌, ◌++◌, arith, Bytes, nat_eq, ◌==◌, All,
  if◌then◌else◌,
}

abbrev cons_head : ℕ → List Bytes → List Bytes
cons_head a [] = (a ∷ []) ∷ []
cons_head a (s ∷ ss) = (a ∷ s) ∷ ss

-- `strings.Split(s, "cc")`.
pub split_pair : ℕ → Bytes → List Bytes
split_pair c [] = [] ∷ []
split_pair c (a ∷ []) = (a ∷ []) ∷ []
split_pair c (a ∷ b ∷ s) = elim (a == c && b == c) [
  | true ↦ [] ∷ split_pair c s
  | false ↦ cons_head a (split_pair c (b ∷ s))
]

-- `strings.Split(s, "c")`.
unfoldable pub split_byte : ℕ → Bytes → List Bytes
split_byte c [] = [] ∷ []
split_byte c (a ∷ s) = let rest = split_byte c s in if a == c then [] ∷ rest else cons_head a rest

-- The byte does not occur.
abbrev pub Lacks : ℕ → Bytes → Type 0
Lacks c = All (λ b. b ≢ c)

pub split_pair-plain : (c : ℕ) (s : Bytes) → Lacks c s → split_pair c s ≡ s ∷ []
unfolding split_pair
split_pair-plain c [] h = refl
split_pair-plain c (a ∷ []) h = refl
split_pair-plain c (a ∷ b ∷ s) h = ground (arith, split_pair-plain c (b ∷ s) h.1)

-- A part with no `c` ends at the first separator.
pub split_pair-append :
    (c : ℕ) (s t : Bytes) → Lacks c s → split_pair c (s ++ (c ∷ c ∷ t)) ≡ s ∷ split_pair c t
unfolding split_pair
split_pair-append c [] t h = ground arith
split_pair-append c (a ∷ []) t h = ground (arith, split_pair-append c [] t tt)
split_pair-append c (a ∷ b ∷ s) t h = ground (arith, split_pair-append c (b ∷ s) t h.1)
