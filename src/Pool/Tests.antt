-- ===== src/Pool/Tests.antt =====
-- src/core/ngx_palloc.c: runs on concrete pools.
use nginx_inside_out.Prelude.{
  ◌≡◌, refl, inl, inr, true, false, List, [], ◌∷◌, Option, none, some, arith,
}
use nginx_inside_out.Pool.State.{Pool, ngx_memalign}
use nginx_inside_out.Pool.Small.{palloc_small, serve, serve_from}
use nginx_inside_out.Pool.Large.{palloc, pool_cleanup_add}
use nginx_inside_out.Pool.Life.{
  create_pool, reset_pool, free_large, run_cleanup, Destroyed, stale_read, destroy_pool,
}
use nginx_inside_out.Pool.Apart.{AllApartRanges, allocate_each, allocate_each-AllApartRanges}
use nginx_inside_out.Pool.Wf.{SmallResult, palloc_small-Result}
use nginx_inside_out.Pool.Whole.{IsWhole}
use nginx_inside_out.Pool.Reset.{Resets, reset_pool-Resets}
use nginx_inside_out.Pool.Lifetime.{Ends, destroy_pool-Ends, Lives, create_pool-Lives}
use nginx_inside_out.Pool.History.{
  Operation, take, take_aligned, give, add_cleanup, reset, call_all, AllWhole, call_all-AllWhole,
}
use nginx_inside_out.Pool.Example.{libc, libc-IsLibc, main_block, one_block, one_block-IsPool}

create_pool_run : create_pool libc 4096 200 [] ≡ some one_block
unfolding create_pool ngx_memalign
create_pool_run = refl

-- 150 bytes do not fit behind the header: a second block is made.
palloc_small-Result_example : SmallResult one_block 150 true (palloc_small libc one_block 150 true)
palloc_small-Result_example =
    palloc_small-Result libc libc-IsLibc refl one_block 150 one_block-IsPool (omega arith) true

allocate_each-AllApartRanges_example :
    AllApartRanges (allocate_each libc true one_block (100 ∷ 50 ∷ 3 ∷ []))
allocate_each-AllApartRanges_example =
    allocate_each-AllApartRanges libc libc-IsLibc refl true one_block (100 ∷ 50 ∷ 3 ∷ [])
      one_block-IsPool (ground arith)

one_block-IsWhole : IsWhole one_block
one_block-IsWhole = record { pool = one_block-IsPool; distinct = (tt, tt); large = tt }

-- Small, large, aligned and cleanup memory, and addresses that are freed whether they are listed or not.
abbrev calls : List Operation
calls =
    take true 0 100
    ∷ take false 0 500
    ∷ take_aligned 64 16
    ∷ add_cleanup 0 8
    ∷ give 5
    ∷ give 0
    ∷ take true 0 90
    ∷ reset
    ∷ take true 9 700
    ∷ []

call_all-AllWhole_example : AllWhole (call_all libc calls one_block)
call_all-AllWhole_example =
    call_all-AllWhole libc libc-IsLibc refl calls one_block (ground arith) one_block-IsWhole

-- a pool with a large allocation and an empty entry
abbrev with_large : Pool
with_large = record one_block {
  blocks = record main_block { last = 128 } ∷ [];
  large = record { addr = 112; alloc = 416 } ∷ record { addr = 96; alloc = 0 } ∷ [];
  heap = record { base = 416; size = 500 } ∷ record { base = 16; size = 200 } ∷ [];
}

with_large-IsWhole : IsWhole with_large
with_large-IsWhole = record {
  pool = record {
    blocks = (omega arith, tt);
    apart = (tt, tt);
    live = ground arith;
    current = omega arith;
    limit = omega arith;
  };
  distinct = ground arith;
  large = (inr (inl refl, (λ e. ground arith, tt), (λ e. ground arith, tt)), (inl refl, tt));
}

reset_pool-Resets_example : Resets with_large (reset_pool with_large)
reset_pool-Resets_example = reset_pool-Resets with_large with_large-IsWhole

destroy_pool-Ends_example : Ends with_large (destroy_pool with_large)
destroy_pool-Ends_example = destroy_pool-Ends with_large with_large-IsWhole

create_pool-Lives_example : Lives libc calls 200 [] (create_pool libc 4096 200 [])
create_pool-Lives_example =
    create_pool-Lives libc libc-IsLibc refl 4096 200 [] calls (omega arith) refl tt (ground arith)

-- A cleanup entry that was added before ngx_reset_pool is read from memory that has been given back.
abbrev stale_calls : List Operation
stale_calls = add_cleanup 0 0 ∷ reset ∷ []

abbrev ended : Option Pool → Option Destroyed
ended none = none
ended (some p) = some (destroy_pool p)

stale : ended (call_all libc stale_calls one_block) ≡ some (stale_read [])
unfolding call_all destroy_pool run_cleanup reset_pool pool_cleanup_add palloc palloc_small
    serve_from serve free_large
stale = refl

abbrev taking_calls : List Operation
taking_calls = add_cleanup 0 8 ∷ take true 0 20 ∷ take_aligned 64 16 ∷ add_cleanup 0 0 ∷ []
