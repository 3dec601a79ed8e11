-- ===== src/Tests.antt =====
-- The code and the theorems at concrete inputs.
mod Protocol
mod Payload
mod Routes
mod Arena
mod Scheduler
mod Client
mod Lifetime
mod Stream
mod Server
