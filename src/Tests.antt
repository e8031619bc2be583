-- ===== src/Tests.antt =====
-- Concrete runs of the components.
mod Heap
mod Libc
mod Fs
mod Pthread
mod Rtfifo
mod Xmdev
mod Domain
mod Sched
mod Xmtrace
mod Shm
mod Tlsf
mod Allocator
