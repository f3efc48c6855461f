-- ===== src/Tests/Closing.antt =====
-- Closing, searching and signing of HTTP requests, at concrete inputs.
use nacos_sdk_go.Common.{ℕ, ◌≡◌, ◌≢◌, refl, [], ◌++◌, Option, none, Bytes, Dict, codes, bytes_eq}
use nacos_sdk_go.Util.{get_group_name, spliter}
use nacos_sdk_go.Config.Search.{
  SearchConfigParam, GoError, nacos_error, config_not_found, config_forbidden, search_config_inner,
  search_code_lost,
}
use nacos_sdk_go.Security.Injector.{get_grouped_service_name}
use nacos_sdk_go.Security.Resources.{
  build_naming_resource_by_request, instance_request, naming_api_resource, register_params,
  http_resource_swapped,
}
use nacos_sdk_go.Tests.Data.{concrete, orders, shop}
use nacos_sdk_go.Tests.Rpc.{one_server}

-- Every server answers with the code 404.
abbrev missing : Bytes → Dict Bytes Bytes → Dict Bytes Bytes × Option Bytes × GoError
missing path params = (params, none, nacos_error (codes "404"))

abbrev no_page : Bytes → Option ℕ
no_page text = none

abbrev accurate : SearchConfigParam
accurate = record {
  search = codes "accurate";
  data_id = codes "app";
  group = shop;
  tag = [];
  app_name = [];
  page_no = 1;
  page_size = 10;
}

search_code_lost_example :
    (search_config_inner one_server.server_list missing no_page no_page accurate []
      ≢ config_not_found)
    × (search_config_inner one_server.server_list missing no_page no_page accurate []
        ≢ config_forbidden)
search_code_lost_example =
    search_code_lost one_server.server_list missing no_page no_page accurate []

http_resource_swapped_example :
    (get_grouped_service_name (build_naming_resource_by_request (instance_request [] shop orders))
      ≡ get_group_name orders shop)
    × (get_grouped_service_name (naming_api_resource (register_params [] orders shop))
        ≡ get_group_name orders shop ++ (spliter ++ shop))
http_resource_swapped_example = http_resource_swapped [] orders shop refl refl refl
