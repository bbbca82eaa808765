-- ===== src/Pool.antt =====
-- src/core/ngx_palloc.c: the pool allocator. `State` has its data and the C library that it rests on,
-- `Small`, `Large` and `Life` its functions, the other modules what is proved of them.
pub mod State
pub mod Small
pub mod Large
pub mod Life
pub mod Blocks
pub mod Chain
pub mod Wf
pub mod Total
pub mod Ends
pub mod Free
pub mod Apart
pub mod Whole
pub mod Reset
pub mod Keep
pub mod Grow
pub mod Entries
pub mod Freed
pub mod History
pub mod Destroy
pub mod Lifetime
pub mod Cleanups
pub mod Memalign
pub mod Example
mod Tests
