-- ===== src/Event.antt =====
-- The event loop and its sources: src/hev-event-source-fd.h, src/hev-event-source.c and
-- src/hev-event-loop.c.
pub mod World
pub mod Fd
pub mod Source
pub mod Loop
pub mod Devices
pub mod Dispatching
pub mod Draining
pub mod Arming
pub mod Making
pub mod Order
pub mod Changing
pub mod Gathering
pub mod Joining
pub mod Leaving
pub mod Dismissing
pub mod Misuse
mod DeviceTests
mod Tests
