-- ===== src/Scheduling.antt =====
-- The scheduling engine (src/server/threading) and the channel updater (src/server/channel): `System`
-- has the threads' steps, `Invariant` what every run keeps, `Progress` what follows.
pub mod System
pub mod Invariant
pub mod Progress
