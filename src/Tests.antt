-- ===== src/Tests.antt =====
-- The theorems of the development at concrete inputs.
mod Data
mod Cache
mod Selecting
mod Updating
mod Ordering
mod Signing
mod Sealing
mod Subscribing
mod Streams
mod Closing
mod Pushing
mod Servers
mod Rpc
mod Config
