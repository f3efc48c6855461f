-- ===== src/Util/Decimal.antt =====
-- `strconv.Atoi` and `strconv.Itoa` on numbers that are not negative.
use Prim.Native.Nat.{◌*◌, ◌/◌, ◌%◌, ◌^◌}
use nacos_sdk_go.Common.{
  ℕ, zero, suc, ◌+◌, ◌-◌, ◌≡◌, refl, ◌||◌, [], ◌∷◌, Option, none, some, arith, Bytes, ltb, nat_beq,
  if◌then◌else◌, codes, ◌<◌, length,
}

-- `none` is an error: no digit, another byte, or a value out of range.
scan : Bytes → ℕ → Option ℕ
scan [] n = some n
scan (c ∷ s) n = if ltb c b'0' || ltb b'9' c then none else scan s (n * 10 + (c - b'0'))

in_range : ℕ → Option ℕ
in_range n = if ltb n (2 ^ 63) then some n else none

digits_of : Bytes → Option ℕ
digits_of [] = none
digits_of (c ∷ s) = elim (scan (c ∷ s) 0) [ none ↦ none | some n ↦ in_range n ]

-- A sign + is read over; a negative number, which is no port and no length of time, counts as an error.
unfoldable pub atoi : Bytes → Option ℕ
unfolding scan in_range digits_of
atoi [] = none
atoi (c ∷ s) = if nat_beq c b'+' then digits_of s else digits_of (c ∷ s)

-- `n, _ := strconv.Atoi(s)`.
abbrev pub atoi_or_zero : Bytes → ℕ
atoi_or_zero s = elim (atoi s) [ none ↦ 0 | some n ↦ n ]

-- `strconv.Itoa`; the fuel is above the number of digits.
itoa_from : ℕ → ℕ → Bytes → Bytes
itoa_from zero n out = out
itoa_from (suc fuel) n out =
    let rest = itoa_from fuel (n / 10) ((b'0' + n % 10) ∷ out) in
    if ltb n 10 then (b'0' + n) ∷ out else rest

unfoldable pub itoa : ℕ → Bytes
unfolding itoa_from
itoa n = itoa_from (suc n) n []

length-itoa_from : (fuel n : ℕ) (out : Bytes) → 0 < length out → 0 < length (itoa_from fuel n out)
unfolding itoa_from
length-itoa_from zero n out h = h
length-itoa_from (suc fuel) n out h =
    ground (arith, length-itoa_from fuel (n / 10) ((b'0' + n % 10) ∷ out))

-- A number has a digit.
pub length-itoa : (n : ℕ) → 0 < length (itoa n)
unfolding itoa itoa_from
length-itoa n = ground (arith, length-itoa_from n (n / 10) ((b'0' + n % 10) ∷ []))

itoa_test : itoa 8848 ≡ codes "8848"
unfolding itoa
itoa_test = refl

atoi_test :
    (atoi (codes "8848") ≡ some 8848) × (atoi (codes "+80") ≡ some 80) × (atoi (codes "80a") ≡ none)
unfolding atoi
atoi_test = (refl, refl, refl)
