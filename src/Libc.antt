-- ===== src/Libc.antt =====
-- partikle/core/libc: the strings, the numbers and the calendar of the C library of PaRTiKle.
pub mod Str
pub mod Move
pub mod Find
pub mod Number
pub mod Digits
pub mod Parse
pub mod Time
pub mod Calendar
