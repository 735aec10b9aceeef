-- ===== src/Examples.antt =====
-- A world to try the program in: an API server with one host, and the machine behind that host.
pub mod World
pub mod Objects
mod Pool
mod Recovered
mod Reconciled
mod Plain
mod Configured
mod Rendered
mod Bootstrapped
pub mod Disk
pub mod Registered
mod Manifests
mod Ejected
