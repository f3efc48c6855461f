-- ===== src/Naming/Selector.antt =====
-- clients/naming_client/naming_cache/subscribe_callback_wrapper.go.
use nacos_sdk_go.Common.{
  ℕ, Bool, true, false, ◌&&◌, List, [], ◌∷◌, ◌++◌, Option, none, some, Bytes, ltb, Dict, insert,
  map, bytes_eq, ◌==◌, if◌then◌else◌, filter_by, nat_beq,
}
use nacos_sdk_go.Util.{contains}
use nacos_sdk_go.Model.{Instance, Service}

-- `<` on strings: byte by byte, a prefix first.
pub text_lt : Bytes → Bytes → Bool
text_lt s [] = false
text_lt [] (b ∷ t) = true
text_lt (a ∷ s) (b ∷ t) = if ltb a b then true else nat_beq a b && text_lt s t

-- `sort.Strings`: on strings without a repetition there is one sorted order.
insert_string : Bytes → List Bytes → List Bytes
insert_string s [] = s ∷ []
insert_string s (t ∷ ts) = if text_lt t s then t ∷ insert_string s ts else s ∷ t ∷ ts

pub sort_strings : List Bytes → List Bytes
unfolding insert_string
sort_strings [] = []
sort_strings (s ∷ ss) = insert_string s (sort_strings ss)

-- `strings.Join(ss, ",")`.
unfoldable pub join_comma : List Bytes → Bytes
join_comma [] = []
join_comma (s ∷ []) = s
join_comma (s ∷ t ∷ ss) = s ++ (b',' ∷ join_comma (t ∷ ss))

-- The first loop of `joinCluster`: the set of the names that are not empty.
pub unique_set : List Bytes → Dict Bytes (Unit {0}) → Dict Bytes (Unit {0})
unique_set [] seen = seen
unique_set (item ∷ cluster) seen =
    unique_set cluster (if item == [] then seen else insert item tt seen)

unfoldable pub join_cluster : List Bytes → Bytes
unfolding sort_strings unique_set join_comma text_lt
join_cluster cluster = join_comma (sort_strings (map (λ e. e.0) (unique_set cluster [])))

pub record ClusterSelector : Type 0 where
  pub cluster_names : Bytes
  pub clusters : List Bytes

unfoldable pub new_cluster_selector : List Bytes → ClusterSelector
new_cluster_selector [] = record { cluster_names = []; clusters = [] }
new_cluster_selector (c ∷ cs) = record { cluster_names = join_cluster (c ∷ cs); clusters = c ∷ cs }

-- `SelectInstance` of a selector.
unfoldable pub select_instance : ClusterSelector → Service → List Instance
select_instance cs service =
    if cs.cluster_names == []
    then service.hosts
    else filter_by (λ instance. contains cs.clusters instance.cluster_name) service.hosts

-- `Equals`; `none` is nil. A `ClusterSelector` is the only implementation of `Selector`.
unfoldable pub selector_equals : ClusterSelector → Option ClusterSelector → Bool
selector_equals cs none = false
selector_equals cs (some o) = cs.cluster_names == o.cluster_names

-- `callback_func` is the pointer to the subscriber's function.
pub record Wrapper : Type 0 where
  pub selector : ClusterSelector
  pub callback_func : ℕ

-- `NewSubscribeCallbackFuncWrapper`; `none` is its panic on a nil argument.
unfoldable pub new_wrapper : Option ClusterSelector → Option ℕ → Option Wrapper
new_wrapper none callback = none
new_wrapper (some selector) none = none
new_wrapper (some selector) (some callback) =
    some (record { selector = selector; callback_func = callback })

-- One call of a subscriber's function.
pub record Notification : Type 0 where
  pub callback : ℕ
  pub instances : List Instance

unfoldable pub notify_listener : Wrapper → Service → Notification
notify_listener ed service = record {
  callback = ed.callback_func;
  instances = select_instance ed.selector service;
}
