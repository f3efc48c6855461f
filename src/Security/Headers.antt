-- ===== src/Security/Headers.antt =====
-- The headers of a request, with the token of the login with a user name.
use nacos_sdk_go.Common.{◌≡◌, false, Bytes, Dict, All, bytes_beq, bytes_eq, codes}
use nacos_sdk_go.Auth

-- No entry has the key.
abbrev Lacks : Bytes → Dict Bytes Bytes → Type 0
Lacks key = All (λ entry. bytes_beq entry.0 key ≡ false)

token_key : Bytes
token_key = codes "accessToken"
