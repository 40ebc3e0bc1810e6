-- ===== src/DroneLogService.antt =====
-- src/DroneLogService.cpp: the state machine that turns flights and companion requests into archive
-- cycles and erasures. Its parts are children: `Model` the state and the handlers, `Process` the main
-- loop's step, `Companion` the requests of the companion thread, `World` all of these interleaved.
pub mod CalmSteps
pub mod Model
pub mod Process
pub mod Companion
pub mod World
pub mod Calm
pub mod Outcome
pub mod Safety
pub mod Unasked
pub mod Erase
pub mod Retained
pub mod Jobs
pub mod Listings
pub mod Pending
pub mod Disarm
pub mod Forgotten
mod Examples
