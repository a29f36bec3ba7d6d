-- ===== src/Tests.antt =====
-- The theorems at concrete inputs, and runs of the definitions.
mod Limits
mod Caching
mod Refreshing
mod Sockets
mod Serving
mod Settings
mod Streams
mod Tokens
mod Pages
mod Files
mod Logins
mod Work
mod Starting
mod Tracing
mod Sharing
mod Storing
