-- ===== src/Util/Trim.antt =====
-- `strings.TrimSpace`, on ASCII text, and the search for a text in another.
use nacos_sdk_go.Common.{
  ℕ, ◌≡◌, refl, Bool, true, false, ◌||◌, ◌&&◌, [], ◌∷◌, Bytes, nat_beq, leb, if◌then◌else◌, All, ap,
  ◌∙◌, arith,
}

abbrev pub is_space : ℕ → Bool
is_space c = nat_beq c 32 || (leb 9 c && leb c 13)

abbrev trim_left : Bytes → Bytes
trim_left [] = []
trim_left (c ∷ s) = let rest = trim_left s in if is_space c then rest else c ∷ s

abbrev trim_right : Bytes → Bytes
trim_right [] = []
trim_right (c ∷ s) =
    let rest = trim_right s in
    elim rest [ [] ↦ if is_space c then [] else c ∷ [] | (d ∷ t) ↦ c ∷ d ∷ t ]

unfoldable pub trim_space : Bytes → Bytes
trim_space s = trim_left (trim_right s)

-- No byte of the text is white space.
abbrev pub IsSolid : Bytes → Type 0
IsSolid = All (λ c. is_space c ≡ false)

trim_left_solid : (s : Bytes) → IsSolid s → trim_left s ≡ s
trim_left_solid [] h = refl
trim_left_solid (c ∷ s) h = ground (arith, h.0)

trim_right_solid : (s : Bytes) → IsSolid s → trim_right s ≡ s
trim_right_solid [] h = refl
trim_right_solid (c ∷ []) h = ground (arith, h.0)
trim_right_solid (c ∷ d ∷ s) h = ground (arith, trim_right_solid (d ∷ s) h.1)

pub trim_space_solid : (s : Bytes) → IsSolid s → trim_space s ≡ s
unfolding trim_space
trim_space_solid s h = ap trim_left (trim_right_solid s h) ∙ trim_left_solid s h

-- `strings.HasPrefix(s, p)`.
abbrev pub has_prefix : Bytes → Bytes → Bool
has_prefix [] s = true
has_prefix (c ∷ p) [] = false
has_prefix (c ∷ p) (d ∷ s) = nat_beq c d && has_prefix p s

-- `strings.Contains(s, p)`, or `strings.Index(s, p) >= 0`.
abbrev pub has_substring : Bytes → Bytes → Bool
has_substring p [] = has_prefix p []
has_substring p (c ∷ s) = has_prefix p (c ∷ s) || has_substring p s
