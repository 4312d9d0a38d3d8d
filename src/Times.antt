-- ===== src/Times.antt =====
-- times.h and times.c: the calendar date of a time, and the cached time in its slots.
pub mod Calendar
pub mod Clock
mod Tests
