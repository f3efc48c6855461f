-- ===== src/Naming/Chooser.antt =====
-- clients/naming_client/naming_instance_chooser.go: one instance, drawn by weight.
use mathlib.Core.List.{Mem, mem-append_right, mem-cons_self}
use mathlib.Core.List.Perm
use nacos_sdk_go.Common.{
  ℕ, suc, ◌+◌, ◌/◌, ◌≤◌, ◌<◌, ◌≡◌, refl, ap, sym, Bool, List, [], ◌∷◌, ◌++◌, Option, none, some,
  arith, subst, get_elem?, if◌then◌else◌, ltb, leb, go_sort, go_sort-perm, dec_lt,
}
use nacos_sdk_go.Model.{Instance}

-- `int(weight)`, for a weight in thousandths.
abbrev pub int_weight : Instance → ℕ
int_weight i = i.weight / 1000

pub record Chooser : Type 0 where
  pub instances : List Instance
  pub totals : List ℕ
  pub max : ℕ

-- `Less` of the sort by weight.
unfoldable pub lighter : Instance → Instance → Bool
lighter a b = ltb a.weight b.weight

-- The loop over the instances: the running totals.
unfoldable pub running_totals : ℕ → List Instance → List ℕ
running_totals running_total [] = []
running_totals running_total (c ∷ instances) =
    (running_total + int_weight c) ∷ running_totals (running_total + int_weight c) instances

unfoldable pub total_from : ℕ → List Instance → ℕ
total_from running_total [] = running_total
total_from running_total (c ∷ instances) = total_from (running_total + int_weight c) instances

unfoldable pub new_chooser : List Instance → Chooser
new_chooser instances =
    let sorted = go_sort lighter instances in
    record { instances = sorted; totals = running_totals 0 sorted; max = total_from 0 sorted }

-- `sort.SearchInts` on an ascending slice: the first index whose entry is at least `r`.
unfoldable pub search_ints : List ℕ → ℕ → ℕ
search_ints [] r = 0
search_ints (t ∷ totals) r = let rest = search_ints totals r in if leb r t then 0 else suc rest

-- `draw` is what `rand.Intn(max)` gives, below `max`. `none` is a panic: `rand.Intn` of 0, or an
-- index out of range.
unfoldable pub pick : Chooser → ℕ → Option Instance
pick chs draw =
    if ltb 0 chs.max then get_elem? chs.instances (search_ints chs.totals (draw + 1)) else none

total_from_ge : (running : ℕ) (xs : List Instance) → running ≤ total_from running xs
unfolding total_from
total_from_ge running [] = omega arith
total_from_ge running (x ∷ xs) = omega (arith, total_from_ge (running + int_weight x) xs)

search_totals :
    (before after : List Instance) (i : Instance) (running r : ℕ)
    → total_from running before < r
    → r ≤ total_from running before + int_weight i
    → get_elem?
        (before ++ (i ∷ after))
        (search_ints (running_totals running (before ++ (i ∷ after))) r)
      ≡ some i
unfolding running_totals total_from search_ints
search_totals [] after i running r lo hi = ground arith
search_totals (b ∷ before) after i running r lo hi = ground (
  arith,
  total_from_ge (running + int_weight b) before,
  search_totals before after i (running + int_weight b) r lo hi,
)

total_from-append :
    (running : ℕ) (xs ys : List Instance)
    → total_from running (xs ++ ys) ≡ total_from (total_from running xs) ys
unfolding total_from
total_from-append running [] ys = refl
total_from-append running (x ∷ xs) ys = total_from-append (running + int_weight x) xs ys

-- An instance is drawn by exactly as many of the draws as its weight is, counted in whole units:
-- those from the sum of the weights before it in the sorted order up to that sum and its own.
pub pick_by_weight :
    (instances before after : List Instance) (i : Instance) (draw : ℕ)
    → go_sort lighter instances ≡ before ++ (i ∷ after)
    → total_from 0 before ≤ draw
    → draw < total_from 0 before + int_weight i
    → pick (new_chooser instances) draw ≡ some i
unfolding pick new_chooser total_from
pick_by_weight instances before after i draw e lo hi = rw e (
    ground (
      arith,
      search_totals before after i 0 (draw + 1) (omega arith) (omega arith),
      total_from-append 0 before (i ∷ after),
      total_from_ge (total_from 0 before + int_weight i) after,
    ))

-- Where an instance stands whose share of the totals holds `r`.
record Share (running r : ℕ) (xs : List Instance) : Type 0 where
  before : List Instance
  chosen : Instance
  after : List Instance
  split : xs ≡ before ++ (chosen ∷ after)
  above : total_from running before < r
  within : r ≤ total_from running before + int_weight chosen

find-Share :
    (xs : List Instance) (running r : ℕ)
    → running < r
    → r ≤ total_from running xs
    → Share running r xs
unfolding total_from
find-Share [] running r lo hi = absurd (omega arith)
find-Share (x ∷ xs) running r lo hi = elim (dec_lt (running + int_weight x) r) [
  | yes p ↦
      let s = find-Share xs (running + int_weight x) r p hi in
      record {
        before = x ∷ s.before;
        chosen = s.chosen;
        after = s.after;
        split = ap (◌∷◌ x) s.split;
        above = s.above;
        within = s.within;
      }
  | no n ↦ record {
    before = [];
    chosen = x;
    after = xs;
    split = refl;
    above = lo;
    within = omega arith;
  }
]

search-Share :
    (xs : List Instance) (r : ℕ) (s : Share 0 r xs)
    → get_elem? xs (search_ints (running_totals 0 xs) r) ≡ some s.chosen
search-Share xs r s =
    subst (λ ys. get_elem? ys (search_ints (running_totals 0 ys) r) ≡ some s.chosen) (sym s.split)
      (search_totals s.before s.after s.chosen 0 r s.above s.within)

mem-share : (xs : List Instance) (r : ℕ) (s : Share 0 r xs) → Mem s.chosen xs
mem-share xs r s = subst (Mem s.chosen) (sym s.split) (mem-append_right s.before mem-cons_self)

-- Every draw below the maximum gives an instance of those given, with a whole unit of weight.
pub pick_total :
    (instances : List Instance) (draw : ℕ)
    → draw < (new_chooser instances).max
    → (i : Instance) × (pick (new_chooser instances) draw ≡ some i)
      × Mem i instances
      × (1 ≤ int_weight i)
unfolding pick new_chooser
pick_total instances draw h =
    let sorted = go_sort lighter instances in
    let s = find-Share sorted 0 (draw + 1) (omega arith) (omega arith) in
    (
      s.chosen,
      ground (arith, search-Share sorted (draw + 1) s, h),
      Perm.subset (go_sort-perm lighter instances) _ (mem-share sorted (draw + 1) s),
      omega (arith, s.above, s.within),
    )
