-- ===== src/Config/Filter.antt =====
-- common/filter/config_filter.go: the chain of filters that a configuration passes through.
use nacos_sdk_go.Common.{
  ℕ, suc, ◌≡◌, refl, false, List, [], ◌∷◌, ◌++◌, Option, none, some, arith, Bytes, bytes_beq,
  nat_beq, length, if◌then◌else◌, ltb, take, drop, set, bytes_eq, ◌<◌, All, Option-cases, inl, inr,
}

pub data UsageType : Type 0 where
  no_type request_type response_type : UsageType

-- vo.ConfigParam, with a number for the callback.
pub record ConfigParam : Type 0 where
  pub data_id : Bytes
  pub group : Bytes
  pub content : Bytes
  pub tag : Bytes
  pub config_tags : Bytes
  pub app_name : Bytes
  pub beta_ips : Bytes
  pub cas_md5 : Bytes
  pub type : Bytes
  pub src_user : Bytes
  pub encrypted_data_key : Bytes
  pub kms_key_id : Bytes
  pub usage_type : UsageType
  pub on_change : ℕ

abbrev pub empty_param : ConfigParam
empty_param = record {
  data_id = [];
  group = [];
  content = [];
  tag = [];
  config_tags = [];
  app_name = [];
  beta_ips = [];
  cas_md5 = [];
  type = [];
  src_user = [];
  encrypted_data_key = [];
  kms_key_id = [];
  usage_type = no_type;
  on_change = 0;
}

-- `DoFilter` changes the parameter, or gives an error.
pub record ConfigFilter : Type 0 where
  pub do_filter : ConfigParam → Option ConfigParam
  pub get_order : ℕ
  pub get_filter_name : Bytes

unfoldable pub do_filters : List ConfigFilter → ConfigParam → Option ConfigParam
do_filters [] param = some param
do_filters (f ∷ filters) param = elim (f.do_filter param) [
  | none ↦ none
  | some param' ↦ do_filters filters param'
]

unfoldable pub do_filter_by_name : List ConfigFilter → ConfigParam → Bytes → Option ConfigParam
do_filter_by_name [] param name = none
do_filter_by_name (f ∷ filters) param name =
    let rest = do_filter_by_name filters param name in
    if bytes_beq f.get_filter_name name then f.do_filter param else rest

-- What the loop of `addFilter` finds: a filter of the same name, or the position.
pub data Place : Type 0 where
  registered : Place
  at_position : ℕ → Place

abbrev after_one : Place → Place
after_one registered = registered
after_one (at_position pos) = at_position (suc pos)

unfoldable pub place_of : List ConfigFilter → ConfigFilter → Place
place_of [] filter = at_position 0
place_of (f ∷ filters) filter =
    let rest = after_one (place_of filters filter) in
    if bytes_beq filter.get_filter_name f.get_filter_name
    then registered
    else if ltb filter.get_order f.get_order
    then at_position 0
    else rest

-- `addFilter`. Inside the queue, the first `append` writes into the array that the queue still
-- has, so that the second one copies the new filter again.
unfoldable pub add_filter : List ConfigFilter → ConfigFilter → List ConfigFilter
add_filter c filter = elim (place_of c filter) [
  | registered ↦ c
  | at_position pos ↦
      if nat_beq pos (length c)
      then c ++ (filter ∷ [])
      else take pos c ++ (filter ∷ drop pos (set c pos filter))
]

place_of_last :
    (c : List ConfigFilter) (filter : ConfigFilter)
    → All (λ f. bytes_beq filter.get_filter_name f.get_filter_name ≡ false) c
    → All (λ f. ltb filter.get_order f.get_order ≡ false) c
    → place_of c filter ≡ at_position (length c)
unfolding place_of
place_of_last [] filter n o = refl
place_of_last (f ∷ c) filter n o = ground (arith, n.0, o.0, place_of_last c filter n.1 o.1)

do_filters-append :
    (c : List ConfigFilter) (filter : ConfigFilter) (param : ConfigParam)
    → do_filters (c ++ (filter ∷ [])) param
      ≡ elim (do_filters c param) [ none ↦ none | some param' ↦ filter.do_filter param' ]
unfolding do_filters
do_filters-append [] filter param = ground arith
do_filters-append (f ∷ c) filter param = elim (Option-cases (f.do_filter param)) [
  | inl e ↦ ground (arith, e)
  | inr (param', e) ↦ ground (arith, e, do_filters-append c filter param')
]

-- A filter with a new name, whose order is not below that of any other, runs after all the others.
pub do_filters-add_filter :
    (c : List ConfigFilter) (filter : ConfigFilter) (param : ConfigParam)
    → All (λ f. bytes_beq filter.get_filter_name f.get_filter_name ≡ false) c
    → All (λ f. ltb filter.get_order f.get_order ≡ false) c
    → do_filters (add_filter c filter) param
      ≡ elim (do_filters c param) [ none ↦ none | some param' ↦ filter.do_filter param' ]
unfolding add_filter
do_filters-add_filter c filter param n o =
    let e : add_filter c filter ≡ c ++ (filter ∷ []) = ground (arith, place_of_last c filter n o) in
    rw e (do_filters-append c filter param)

-- A filter that goes before the first one takes its place: the first filter is lost, and the new
-- one runs twice.
add_filter_overwrites :
    (f g : ConfigFilter) (c : List ConfigFilter)
    → bytes_beq g.get_filter_name f.get_filter_name ≡ false
    → g.get_order < f.get_order
    → add_filter (f ∷ c) g ≡ g ∷ g ∷ c
unfolding add_filter place_of
add_filter_overwrites f g c n o = ground (arith, n)
