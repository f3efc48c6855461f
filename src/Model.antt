-- ===== src/Model.antt =====
-- model/service.go: instances and services.
use nacos_sdk_go.Common.{
  ℕ, ◌≡◌, Bool, true, false, ◌&&◌, List, [], ◌∷◌, Bytes, Dict, lookup, length, nat_eq, bytes_eq,
  ◌==◌, Option, none, some, arith, bytes_beq_iff,
}

-- `weight` counts thousandths, and a negative weight is 0: every use first asks for a weight
-- above 0. The three intervals are `int`s that the code only compares.
pub record Instance : Type 0 where
  pub instance_id : Bytes
  pub ip : Bytes
  pub port : ℕ
  pub weight : ℕ
  pub healthy : Bool
  pub enable : Bool
  pub ephemeral : Bool
  pub cluster_name : Bytes
  pub service_name : Bytes
  pub metadata : Dict Bytes Bytes
  pub instance_heart_beat_interval : ℕ
  pub ip_delete_timeout : ℕ
  pub instance_heart_beat_time_out : ℕ

pub record Service : Type 0 where
  pub cache_millis : ℕ
  pub hosts : List Instance
  pub checksum : Bytes
  pub last_ref_time : ℕ
  pub clusters : Bytes
  pub name : Bytes
  pub group_name : Bytes
  pub valid : Bool
  pub all_ips : Bool
  pub reach_protection_threshold : Bool

-- `model.Service{}` and `model.Instance{}`.
abbrev pub empty_service : Service
empty_service = record {
  cache_millis = 0;
  hosts = [];
  checksum = [];
  last_ref_time = 0;
  clusters = [];
  name = [];
  group_name = [];
  valid = false;
  all_ips = false;
  reach_protection_threshold = false;
}

abbrev pub empty_instance : Instance
empty_instance = record {
  instance_id = [];
  ip = [];
  port = 0;
  weight = 0;
  healthy = false;
  enable = false;
  ephemeral = false;
  cluster_name = [];
  service_name = [];
  metadata = [];
  instance_heart_beat_interval = 0;
  ip_delete_timeout = 0;
  instance_heart_beat_time_out = 0;
}

abbrev pub bool_beq : Bool → Bool → Bool
bool_beq true b = b
bool_beq false true = false
bool_beq false false = true

unfoldable pub entry_beq : Option Bytes → Bytes → Bool
entry_beq none v = false
entry_beq (some w) v = w == v

unfoldable pub entries_in : Dict Bytes Bytes → Dict Bytes Bytes → Bool
unfolding entry_beq
entries_in [] m = true
entries_in ((k, v) ∷ n) m = entry_beq (lookup k m) v && entries_in n m

-- `reflect.DeepEqual` on maps: as many keys, and the same values, in whatever order.
unfoldable pub metadata_equal : Dict Bytes Bytes → Dict Bytes Bytes → Bool
unfolding entries_in
metadata_equal m n = length m == length n && entries_in m n

-- `reflect.DeepEqual` on two instances, field by field.
unfoldable pub instance_equal : Instance → Instance → Bool
unfolding metadata_equal
instance_equal a b =
    (a.instance_id == b.instance_id)
    && (a.ip == b.ip)
    && (a.port == b.port)
    && (a.weight == b.weight)
    && bool_beq a.healthy b.healthy
    && bool_beq a.enable b.enable
    && bool_beq a.ephemeral b.ephemeral
    && (a.cluster_name == b.cluster_name)
    && (a.service_name == b.service_name)
    && metadata_equal a.metadata b.metadata
    && (a.instance_heart_beat_interval == b.instance_heart_beat_interval)
    && (a.ip_delete_timeout == b.ip_delete_timeout)
    && (a.instance_heart_beat_time_out == b.instance_heart_beat_time_out)

-- `reflect.DeepEqual` on two slices of instances.
unfoldable pub instances_equal : List Instance → List Instance → Bool
instances_equal [] [] = true
instances_equal [] (b ∷ bs) = false
instances_equal (a ∷ as') [] = false
instances_equal (a ∷ as') (b ∷ bs) = instance_equal a b && instances_equal as' bs

-- Equal slices hold the same addresses in the same order.
pub instances_equal-ip_port :
    (a b : Instance) (as' bs : List Instance)
    → instances_equal (a ∷ as') (b ∷ bs) ≡ true
    → (a.ip ≡ b.ip) × (a.port ≡ b.port)
unfolding instances_equal instance_equal
instances_equal-ip_port a b as' bs h = ground (arith, bytes_beq_iff a.ip b.ip)
