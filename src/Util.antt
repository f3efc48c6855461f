-- ===== src/Util.antt =====
-- util/common.go and util/semaphore.go: cache keys, and the counting semaphore.
pub mod Split
pub mod Decimal
pub mod Trim
use nacos_sdk_go.Common.{
  ℕ, suc, zero, ◌+◌, ◌-◌, ◌≤◌, ◌<◌, ◌≡◌, refl, Bool, true, false, List, [], ◌∷◌, ◌++◌, Option, none,
  some, arith, Bytes, codes, ltb, bytes_eq, ◌==◌, if◌then◌else◌,
}

abbrev pub at_sign : ℕ
at_sign = b'@'

-- `SERVICE_INFO_SPLITER` and `CONFIG_INFO_SPLITER` of common/constant/const.go.
abbrev pub spliter : Bytes
spliter = codes "@@"

abbrev pub default_group : Bytes
default_group = codes "DEFAULT_GROUP"

unfoldable pub get_group_name : Bytes → Bytes → Bytes
get_group_name service_name group_name = group_name ++ (spliter ++ service_name)

unfoldable pub get_service_cache_key : Bytes → Bytes → Bytes
get_service_cache_key service_name [] = service_name
get_service_cache_key service_name (c ∷ clusters) = service_name ++ (spliter ++ (c ∷ clusters))

unfoldable pub get_config_cache_key : Bytes → Bytes → Bytes → Bytes
get_config_cache_key data_id group tenant = data_id ++ (spliter ++ (group ++ (spliter ++ tenant)))

unfoldable pub contains : List Bytes → Bytes → Bool
contains [] item = false
contains (s ∷ slice) item = if s == item then true else contains slice item

-- `used` is the number of tokens in the buffered channel.
pub record Semaphore : Type 0 where
  pub buf_size : ℕ
  pub used : ℕ

unfoldable pub new_semaphore : ℕ → Semaphore
new_semaphore concurrency_num = record { buf_size = concurrency_num; used = 0 }

unfoldable pub try_acquire : Semaphore → Semaphore × Bool
try_acquire s = if ltb s.used s.buf_size then (record s { used = s.used + 1 }, true) else (s, false)

-- A send blocks while the channel is full: `none` means that the caller waits.
unfoldable pub acquire : Semaphore → Option Semaphore
acquire s = if ltb s.used s.buf_size then some (record s { used = s.used + 1 }) else none

-- A receive blocks while the channel is empty.
unfoldable pub release : Semaphore → Option Semaphore
release s = if ltb 0 s.used then some (record s { used = s.used - 1 }) else none

pub available_permits : Semaphore → ℕ
available_permits s = s.buf_size - s.used
