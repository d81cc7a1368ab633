-- ===== src/RunLoop.antt =====
-- The run loop of the ESP port, platform/esp/components/homekit_adk/port/src/HAPPlatformRunLoop.c.
--
-- RunLoop/Timers are the timers, RunLoop/Loopback the callbacks that are scheduled through the
-- loopback socket, RunLoop/Handles the file handles. RunLoop/Loop is the loop that waits for events
-- and serves timers and file handles, RunLoop/Life the creation and the release.
pub mod Timers
pub mod Loopback
pub mod Handles
pub mod Loop
pub mod Life
mod Tests
mod LoopTests
