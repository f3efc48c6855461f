-- ===== src/Naming/Choice.antt =====
-- clients/naming_client/naming_client.go: the parameters and results of the operations, and the
-- choice among the instances of a service.
use nacos_sdk_go.Common.{
  ℕ, Bool, true, ◌&&◌, List, [], ◌∷◌, Option, none, some, Bytes, Dict, length, nat_beq,
  if◌then◌else◌, ltb, filter_by, lookup, bytes_eq, codes,
}
use nacos_sdk_go.Util.{default_group}
use nacos_sdk_go.Util.Decimal.{atoi}
use nacos_sdk_go.Model.{Instance, Service, bool_beq}
use nacos_sdk_go.Naming.Chooser.{new_chooser, pick}

pub data Error : Type 0 where
  empty_service_name empty_instances persistent_instance : Error
  empty_instance_list empty_healthy_list request_failed : Error

-- `panics` is a panic of the Go program.
pub data Result {ℓ} (A : Type ℓ) : Type ℓ where
  ok : A → Result A
  err : Error → Result A
  panics : Result A

abbrev pub or_failed {ℓ} : {A : Type ℓ} → Option A → Result A
or_failed none = err request_failed
or_failed (some a) = ok a

-- The fields of vo.RegisterInstanceParam, which vo.UpdateInstanceParam has too.
pub record RegisterInstanceParam : Type 0 where
  pub ip : Bytes
  pub port : ℕ
  pub weight : ℕ
  pub enable : Bool
  pub healthy : Bool
  pub metadata : Dict Bytes Bytes
  pub cluster_name : Bytes
  pub service_name : Bytes
  pub group_name : Bytes
  pub ephemeral : Bool

abbrev pub or_default_group : Bytes → Bytes
or_default_group [] = default_group
or_default_group (b ∷ group) = b ∷ group

-- The instance that a registration builds; the other fields keep their zero values.
abbrev pub instance_of : RegisterInstanceParam → Instance
instance_of param = record {
  instance_id = [];
  ip = param.ip;
  port = param.port;
  weight = param.weight;
  healthy = param.healthy;
  enable = param.enable;
  ephemeral = param.ephemeral;
  cluster_name = param.cluster_name;
  service_name = [];
  metadata = param.metadata;
  instance_heart_beat_interval = 0;
  ip_delete_timeout = 0;
  instance_heart_beat_time_out = 0;
}

-- `GetDurationWithDefault(metadata, HEART_BEAT_INTERVAL, 5s)`, in nanoseconds.
unfoldable pub beat_period : Dict Bytes Bytes → ℕ
beat_period metadata = elim (lookup (codes "preserved.heart.beat.interval") metadata) [
  | none ↦ 5_000_000_000
  | some data' ↦ elim (atoi data') [ none ↦ 5_000_000_000 | some value ↦ value ]
]

-- The loop of `BatchRegisterInstance`: the instances, or nothing at the first persistent one.
unfoldable pub batch_instances : List RegisterInstanceParam → Option (List Instance)
batch_instances [] = some []
batch_instances (param ∷ params) =
    let rest : Option (List Instance) = elim (batch_instances params) [
      | none ↦ none
      | some instances ↦ some (instance_of param ∷ instances)
    ] in
    if param.ephemeral then rest else none

-- The test in `selectInstances`.
abbrev pub selectable : Bool → Instance → Bool
selectable healthy host = bool_beq host.healthy healthy && (host.enable && ltb 0 host.weight)

unfoldable pub select_healthy : Service → Bool → Result (List Instance)
select_healthy service healthy =
    if nat_beq (length service.hosts) 0
    then err empty_instance_list
    else ok (filter_by (selectable healthy) service.hosts)

-- `selectOneHealthyInstances`; `draw` is what `rand.Intn` gives. The maximal weight that the loop
-- also computes is not used.
unfoldable pub select_one_healthy : Service → ℕ → Result Instance
select_one_healthy service draw =
    if nat_beq (length service.hosts) 0
    then err empty_instance_list
    else let result = filter_by (selectable true) service.hosts in
      if nat_beq (length result) 0
      then err empty_healthy_list
      else elim (pick (new_chooser result) draw) [ none ↦ panics | some i ↦ ok i ]
