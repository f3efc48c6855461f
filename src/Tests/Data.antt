-- ===== src/Tests/Data.antt =====
-- The services, servers and clients of the tests.
use nacos_sdk_go.Common.{ℕ, true, false, List, [], Bytes, codes}
use nacos_sdk_go.ConcurrentMap.{ConcurrentMap, flat, new_map}
use nacos_sdk_go.Model.{Instance, Service, empty_instance, empty_service}
use nacos_sdk_go.Naming.Selector.{Wrapper}
use nacos_sdk_go.Naming.Holder.{Holder}
use nacos_sdk_go.Naming.Grpc.{GrpcProxy, Request, Reply, failed}
use nacos_sdk_go.Naming.Beat.{BeatReactor}
use nacos_sdk_go.Naming.Client.{NamingClient}

instance abbrev pub concrete : ConcurrentMap
concrete = flat

abbrev pub orders : Bytes
orders = codes "orders"

abbrev pub shop : Bytes
shop = codes "shop"

abbrev pub host_a : Instance
host_a = record empty_instance {
  ip = codes "10.0.0.1";
  port = 8848;
  weight = 2000;
  healthy = true;
  enable = true;
  ephemeral = true;
}

abbrev pub host_b : Instance
host_b = record host_a { ip = codes "10.0.0.2"; weight = 1000 }

abbrev pub light_host : Instance
light_host = record host_a { weight = 500 }

abbrev pub service_at : ℕ → List Instance → Service
service_at time hosts = record empty_service {
  name = orders;
  group_name = shop;
  last_ref_time = time;
  hosts = hosts;
}

abbrev pub holder : Holder
holder = record {
  service_info_map = [];
  update_cache_when_empty = false;
  cache_dir = [];
  not_load_cache_at_start = true;
  sub_callback = record { callback_func_map = new_map };
  update_time_map = [];
}

abbrev pub wrapper : Wrapper
wrapper = record { selector = record { cluster_names = []; clusters = [] }; callback_func = 7 }

abbrev pub proxy : GrpcProxy
proxy = record {
  registered_instance_cached = new_map;
  subscribes = new_map;
  service_info_holder = holder;
  sent = [];
  effects = [];
}

abbrev pub reactor : BeatReactor
reactor = record { beat_map = new_map; heap = []; threads = []; beat_record_map = new_map }

abbrev pub client : NamingClient
client = record { grpc = proxy; http = reactor; is_closed = false }

abbrev pub silent : Request → Reply
silent request = failed
