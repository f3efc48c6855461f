-- ===== src/Config/Search.antt =====
-- clients/config_client: the search for configurations, and the headers of a request;
-- util/object2param.go.
use nacos_sdk_go.Common.{
  ℕ, ◌≡◌, ◌≢◌, arith, refl, Bool, true, false, ◌&&◌, not, List, [], ◌∷◌, ◌++◌, Option, none, some,
  Bytes, Dict, lookup, insert, codes, length, nat_beq, is_some, ◌==◌, bytes_eq, if◌then◌else◌, ltb,
}
use nacos_sdk_go.Util.Decimal.{itoa}
use nacos_sdk_go.Server.{ServerConfig}

-- vo.SearchConfigParam; the numbers are not negative.
pub record SearchConfigParam : Type 0 where
  pub search : Bytes
  pub data_id : Bytes
  pub group : Bytes
  pub tag : Bytes
  pub app_name : Bytes
  pub page_no : ℕ
  pub page_size : ℕ

-- The pages that `searchConfigInner` fills in.
abbrev pub with_pages : SearchConfigParam → SearchConfigParam
with_pages param = record param {
  page_no = if nat_beq param.page_no 0 then 1 else param.page_no;
  page_size = if nat_beq param.page_size 0 then 10 else param.page_size;
}

-- A string field goes into the parameters unless it is empty.
abbrev pub put_string : Bytes → Bytes → Dict Bytes Bytes → Dict Bytes Bytes
put_string name text params = if ltb 0 (length text) then insert name text params else params

-- `TransformObject2Param` on the fields of a SearchConfigParam.
unfoldable pub transform_object2param : SearchConfigParam → Dict Bytes Bytes
transform_object2param param = insert (codes "pageSize") (itoa param.page_size) (
    insert (codes "pageNo") (itoa param.page_no) (
      put_string (codes "appName") param.app_name (
        put_string (codes "tag") param.tag (
          put_string (codes "group") param.group (
            put_string (codes "dataId") param.data_id
              (put_string (codes "search") param.search []))))))

abbrev pub put_if_absent : Bytes → Dict Bytes Bytes → Dict Bytes Bytes
put_if_absent name params = if is_some (lookup name params) then params else insert name [] params

abbrev pub value_of : Bytes → Dict Bytes Bytes → Bytes
value_of name params = elim (lookup name params) [ none ↦ [] | some v ↦ v ]

-- The errors of Go that matter here: a NacosError with its code, another error, and one that
-- `errors.Wrapf` has wrapped.
pub data GoError : Type 0 where
  nacos_error : Bytes → GoError
  other_error : GoError
  wrapped : GoError → GoError

pub data Asked : Type 0 where
  got : Bytes → Asked
  asked_err : GoError → Asked

-- What `ReqConfigApi` returns when its loops over the servers leave a result, or none and the last
-- error.
unfoldable pub req_config_result : List ServerConfig → Option Bytes × GoError → Asked
req_config_result [] tried = asked_err other_error
req_config_result (server ∷ servers) (none, last) = asked_err (wrapped last)
req_config_result (server ∷ servers) (some result, last) = got result

-- The result of a search.
pub data Searched (A : Type 0) : Type 0 where
  page : A → Searched A
  wrong_search config_not_found config_forbidden search_failed : Searched A

-- The requests for the two versions, with their parameters.
abbrev pub v2_params : SearchConfigParam → Bytes → Dict Bytes Bytes
v2_params param tenant =
    let params = transform_object2param param in
    put_if_absent (codes "dataId") (
      put_if_absent (codes "group")
        (if ltb 0 (length tenant) then insert (codes "tenant") tenant params else params))

abbrev pub v3_params : Bytes → Dict Bytes Bytes → Dict Bytes Bytes
v3_params tenant params =
    let named =
      if ltb 0 (length tenant)
      then insert (codes "namespaceId") (value_of (codes "tenant") params) params
      else params in
    insert (codes "groupName") (value_of (codes "group") named) named

abbrev pub config_path : Bytes
config_path = codes "/v1/cs/configs"

abbrev pub v3_path : Bytes
v3_path = codes "/v3/admin/cs/config/list"

module _ {A : Type 0} where
  abbrev pub read_page : Option A → Searched A
  read_page none = search_failed
  read_page (some p) = page p

  -- `err.(*nacos_error.NacosError)` holds of a NacosError itself, not of a wrapped one.
  abbrev pub failed_with : GoError → Searched A
  failed_with (nacos_error code) =
      if code == codes "404"
      then config_not_found
      else if code == codes "403"
      then config_forbidden
      else search_failed
  failed_with other_error = search_failed
  failed_with (wrapped error) = search_failed

  -- `tried` is what the loops of `ReqConfigApi` come to for a path and parameters, with the
  -- parameters, into which the security headers are put; `page_of` and `page_of_result` read the two
  -- kinds of answer.
  module _ (servers : List ServerConfig)
      (tried : Bytes → Dict Bytes Bytes → Dict Bytes Bytes × Option Bytes × GoError)
      (page_of page_of_result : Bytes → Option A) where
    abbrev pub req_config_api : Bytes → Dict Bytes Bytes → Dict Bytes Bytes × Asked
    req_config_api path params =
        let (params', result, last) = tried path params in
        (params', req_config_result servers (result, last))

    abbrev pub second_answer : Asked → Searched A
    second_answer (got text) = read_page (page_of_result text)
    second_answer (asked_err error) = failed_with error

    -- The page of the first answer, or what the second one gives.
    abbrev pub searched : Asked → Searched A → Searched A
    searched (got text) again = read_page (page_of text)
    searched (asked_err error) again = again

    -- `searchConfigProxy`, with the errors of `searchConfigInner`.
    unfoldable pub search_config_proxy : SearchConfigParam → Bytes → Searched A
    unfolding req_config_result
    search_config_proxy param tenant =
        let (params, answer) = req_config_api config_path (v2_params param tenant) in
        let again = second_answer (req_config_api v3_path (v3_params tenant params)).1 in
        searched answer again

    -- `searchConfigInner`.
    unfoldable pub search_config_inner : SearchConfigParam → Bytes → Searched A
    unfolding search_config_proxy
    search_config_inner param tenant =
        if not (param.search == codes "accurate") && not (param.search == codes "blur")
        then wrong_search
        else search_config_proxy (with_pages param) tenant

-- `injectCommHeader`, at the time `now` in milliseconds.
unfoldable pub inject_comm_header :
    (Bytes → Bytes) → Bytes → Bytes → ℕ → Dict Bytes Bytes → Dict Bytes Bytes
inject_comm_header md5 app_name app_key now param = insert (codes "charset") (codes "utf-8") (
    insert (codes "exConfigInfo") (codes "true") (
      insert (codes "Client-RequestToken") (md5 (itoa now ++ app_key)) (
        insert (codes "Client-RequestTS") (itoa now)
          (insert (codes "Client-AppName") app_name param))))

module _ {A : Type 0} where
  -- A result that tells the code of the server's error.
  abbrev tells_code : Searched A → Bool
  tells_code (page p) = false
  tells_code wrong_search = false
  tells_code config_not_found = true
  tells_code config_forbidden = true
  tells_code search_failed = false

  read_page_silent : (o : Option A) → tells_code (read_page o) ≡ false
  read_page_silent none = refl
  read_page_silent (some p) = refl

  module _ (servers : List ServerConfig)
      (tried : Bytes → Dict Bytes Bytes → Dict Bytes Bytes × Option Bytes × GoError)
      (page_of page_of_result : Bytes → Option A) where
    second_silent :
        (ss : List ServerConfig) (r : Option Bytes × GoError)
        → tells_code (second_answer servers tried page_of page_of_result (req_config_result ss r))
          ≡ false
    unfolding req_config_result
    second_silent [] r = refl
    second_silent (server ∷ ss) (none, last) = refl
    second_silent (server ∷ ss) (some text, last) = read_page_silent (page_of_result text)

    searched_silent :
        (a : Asked) (again : Searched A)
        → tells_code again ≡ false
        → tells_code (searched servers tried page_of page_of_result a again) ≡ false
    searched_silent (got text) again h = read_page_silent (page_of text)
    searched_silent (asked_err error) again h = h

    proxy_silent :
        (param : SearchConfigParam) (tenant : Bytes)
        → tells_code (search_config_proxy servers tried page_of page_of_result param tenant) ≡ false
    unfolding search_config_proxy
    proxy_silent param tenant =
        let (params, answer) =
          req_config_api servers tried page_of page_of_result config_path
            (v2_params param tenant) in
        let (ignored, result, last) = tried v3_path (v3_params tenant params) in
        searched_silent answer _ (second_silent servers (result, last))

    -- A search never says that a configuration is not found or forbidden, whatever the servers answer:
    -- the code of their error is lost in the wrapping.
    pub search_code_lost :
        (param : SearchConfigParam) (tenant : Bytes)
        → (search_config_inner servers tried page_of page_of_result param tenant ≢ config_not_found)
          × (search_config_inner servers tried page_of page_of_result param tenant
              ≢ config_forbidden)
    unfolding search_config_inner
    search_code_lost param tenant =
        let silent : tells_code
              (search_config_inner servers tried page_of page_of_result param tenant)
            ≡ false =
          ground (arith, proxy_silent (with_pages param) tenant) in
        (λ e. ground (arith, silent, e), λ e. ground (arith, silent, e))
