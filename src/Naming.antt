-- ===== src/Naming.antt =====
-- clients/naming_client: the cache of services and its subscribers, the proxies, and the client.
pub mod Choice
pub mod Selector
pub mod Callbacks
pub mod Holder
pub mod Grpc
pub mod Beat
pub mod Push
pub mod Closing
pub mod Chooser
pub mod Updater
pub mod Client
