-- ===== src/Watch.antt =====
-- The watch thread of the FIEMAP backend (src/xal_be_fiemap_inotify.c): how it is started and reaped, what
-- it does with events, and its loop.
mod Tests
pub mod Lifecycle
pub mod Events
pub mod Loop
