-- ===== src/Tests.antt =====
-- The theorems at concrete inputs, and runs of the definitions.
mod Machine
mod Messages
mod Sessions
mod Servers
mod Programs
mod Endings
mod Startup
mod Running
mod System
mod Connections
