-- ===== src/Security.antt =====
-- common/security: the credentials of a cloud account, the signatures made with them, and the proxy
-- over
-- the two clients that log in. The login with a user name is in Auth.
pub mod Ram
pub mod Signature
pub mod Injector
pub mod Client
pub mod Proxy
pub mod Resources
pub mod Providers
pub mod Headers
pub mod Signed
