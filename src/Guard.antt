-- ===== src/Guard.antt =====
-- runtime/xiom_runtime.c, lines 411 to 775: the guard heap, an arena that serves the allocations of an
-- `unsafe` block and is discarded as a whole when the block ends.
pub mod Memory
pub mod Arena
pub mod Lists
pub mod Calls
pub mod Place
pub mod Alloc
pub mod Room
pub mod Request
pub mod Move
pub mod Free
pub mod Nesting
pub mod Tests
