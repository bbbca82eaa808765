-- ===== src/Lib.antt =====
-- nginx-inside-out: the core library of an nginx that is built up with commentary. The parts that are
-- modelled here, with the file of each:
--
--   Str       src/core/ngx_string.c. `Str/Num` is ngx_sprintf_num, `Str/Copy` ngx_cpystrn and
--             ngx_sprintf_str, `Str/Format` ngx_vslprintf, which calls both.
--   Pool      src/core/ngx_palloc.c and .h, and the allocation functions of src/os/unix/ngx_alloc.c
--             that it calls. `Pool/State` has the structs and the C library, `Pool/Small` small
--             allocations, `Pool/Large` large ones, freeing and cleanup entries, `Pool/Life` creation,
--             reset and destruction. `Pool/Wf` has the invariant of the blocks, `Pool/Whole` that of the
--             pool with its large allocations, `Pool/History` calls in any order,
--             `Pool/Lifetime` a pool from its creation to its destruction, `Pool/Cleanups` calls that give
--             nothing back.
--   Queue     src/core/ngx_queue.h, the ring of intrusive links; `Queue/Refine` is about one operation,
--             `Queue/History` about any sequence of them.
--   Array     src/core/ngx_array.c and .h, the array that lives in a pool; `Array/Slots` is about the memory
--             of an array that grows, `Array/Overrun` about ngx_array_push_n.
--   PartList  src/core/ngx_list.c and .h, the list of parts that lives in a pool; `PartList/Iterate` is the
--             iteration that the header gives in a comment, `PartList/Pushes` a list from its creation on.
--   Shmtx     src/core/ngx_shmtx.c and .h, the mutex between processes, with atomic words and a semaphore.
--             `Shmtx` is one process, `Shmtx/Steps` all of them in any order, `Shmtx/Progress` one that
--             goes on alone.
--   Log       src/core/ngx_log.c. `Log/Text` prints a line into a buffer, with ngx_strerror of
--             src/os/unix/ngx_errno.c and by ngx_vslprintf; `Log/Start` is ngx_log_init, which opens the
--             log and reports on the standard error stream where it cannot. `Log/Core` is
--             ngx_log_error_core and the macros of src/core/ngx_log.h that call it, by the level.
--   Slab      src/core/ngx_slab.c and .h: `Slab` is ngx_slab_sizes_init and ngx_slab_init, `Slab/Pages`
--             ngx_slab_alloc_pages, `Slab/Alloc` ngx_slab_alloc_locked, as far as the source has them: an
--             empty branch does nothing.
--   Files     src/os/unix/ngx_files.c, ngx_read_file.
--   Shmem     src/os/unix/ngx_shmem.c and .h, anonymous shared memory; `Shmem/DevZero` is the variant
--             with /dev/zero.
--   ErrorTable  src/os/unix/ngx_errno.c, the variant with a table of messages: the search of
--             ngx_strerror_init for the range of error numbers.
--   Config    src/core/ngx_config.h, ngx_align_ptr, which the pool and the slab allocator call.
--   Prelude   Boolean tests, lists and options that the others share.
--
-- An operation has the name of its C function without the prefix `ngx_`, in small letters:
-- `palloc_small` is ngx_palloc_small. Pointers are addresses, NULL is 0, and unsigned arithmetic that
-- can wrap around has its `% 2 ^ 64` written out. A function that writes from `buf` on returns the
-- bytes that it writes, and the pointer that it returns is `buf` plus their number. A chain of structs
-- is a list, in the order of its links; the queue, whose point is its links, is a store of them. What
-- the C library provides (posix_memalign, malloc) is a record of functions with what the manual pages
-- promise as hypotheses; the floating-point operations of `%f` are a record too. The outcome of a read
-- behind what may be read, of a missing argument and of `free` on an address that is not live is a
-- fault, a value of its own; an Option whose `none` is such a fault stands around the result.
--
-- A cleanup entry of a pool stands in the pool's memory, which ngx_reset_pool gives back while the list
-- goes on to point to it. An entry therefore says whether its memory is still its own, and ngx_destroy_pool
-- ends with a stale read where it comes to one whose memory is not, whatever has been written there
-- since. Where posix_memalign fails, ngx_memalign returns the value that an uninitialised variable holds;
-- the theorems about pools are about the case that this value is NULL, as one of their hypotheses says.
-- The calls of ngx_log_error in the pool, the wrappers of the allocation functions, the files and the
-- shared memory have no part in the model: it is that of a log whose level is 0 (NGX_LOG_STDERR), with
-- which the macro does nothing.
--
-- The loop of ngx_vslprintf runs on fuel, one more than the length of the format: each round takes at
-- least one byte from the format, so that it never runs out. The padding loop has `width` rounds, the
-- most that it can have. The loop over the free list of pages and the one over size classes run on a
-- number of rounds that the caller names, since nothing in the code bounds them, and so does the
-- iteration of a list, for which one round more than there are elements is enough. All other loops run
-- over a list or over a number that gets smaller.
--
-- The model is that of 64-bit Linux with glibc, without NGX_DEBUG: strerrordesc_np, posix_memalign,
-- anonymous mappings and pread are there. `ErrorTable`, `Shmem/DevZero` and `Pool/Memalign` are the
-- variants for other systems, and `queue_remove_debug` is the one with NGX_DEBUG. System calls (open,
-- close, mmap, munmap, pread), strerror and strerrordesc_np are parameters.
--
-- Not modelled: the table of messages that ngx_strerror_init fills and the ngx_strerror that reads it,
-- which do not compile as they stand (`mxg`, `mgs` and `len` are not declared); the macros that only
-- name system calls, platform headers, the shared memory of System V, which the source leaves empty, and
-- the stubs of processes, times, modules and events.
pub mod Prelude
pub mod Config
pub mod Str
pub mod Pool
pub mod Queue
pub mod Array
pub mod PartList
pub mod Shmtx
pub mod Log
pub mod Slab
pub mod Files
pub mod Shmem
pub mod ErrorTable
