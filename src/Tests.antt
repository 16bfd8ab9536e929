-- ===== src/Tests.antt =====
-- Examples: each theorem applied to a small concrete input.
mod Lengths
pub mod Modules
pub mod Legacy
pub mod Rings
pub mod Requests
pub mod Data
pub mod Chains
pub mod Strings
pub mod Timers
pub mod Digests
pub mod Directives
pub mod Filters
pub mod Lists
pub mod Buffers
pub mod Echo
pub mod Sessions
pub mod Proxy
pub mod Clocks
pub mod Variables
