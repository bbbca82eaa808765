-- ===== src/Pool/Life.antt =====
-- src/core/ngx_palloc.c: ngx_create_pool, ngx_destroy_pool and ngx_reset_pool.
use nginx_inside_out.Prelude.{
  ℕ, ◌+◌, ◌-◌, List, [], ◌∷◌, Option, none, some, ltb, ◌==◌, if◌then◌else◌, map,
}
use nginx_inside_out.Pool.State.{
  Block, Large, Cleanup, given_back, Pool, Heap, Libc, null, sizeof_pool, pool_alignment, distance,
  ngx_memalign, ngx_free,
}

-- NGX_MAX_ALLOC_FROM_POOL
abbrev pub max_alloc : (pagesize : ℕ) → ℕ
max_alloc pagesize = pagesize - 1

abbrev pub fresh_block : (p size : ℕ) → Block
fresh_block p size = record { addr = p; last = p + sizeof_pool; end = p + size; failed = 0 }

abbrev pub fresh_pool : (pagesize p size : ℕ) → Heap → Pool
fresh_pool pagesize p size heap =
    let room = distance size sizeof_pool in
    record {
      blocks = fresh_block p size ∷ [];
      current = 0;
      max = if ltb room (max_alloc pagesize) then room else max_alloc pagesize;
      large = [];
      cleanup = [];
      heap = heap;
    }

-- ngx_create_pool; `none` is NULL
unfoldable pub create_pool : Libc → (pagesize size : ℕ) → Heap → Option Pool
create_pool lib pagesize size h =
    let (p, heap) = ngx_memalign lib pool_alignment size h in
    if p == null then none else some (fresh_pool pagesize p size heap)

-- `for (l = pool->large; l; l = l->next) { if (l->alloc) { ngx_free(l->alloc); } }`
unfoldable pub free_large : List Large → Heap → Option Heap
free_large [] h = some h
free_large (l ∷ ls) h = elim (ngx_free l.alloc h) [ none ↦ none | some h' ↦ free_large ls h' ]

-- ngx_reset_pool
abbrev pub rewind : Block → Block
rewind b = record b { last = b.addr + sizeof_pool; failed = 0 }

unfoldable pub reset_pool : Pool → Option Pool
reset_pool pool = elim (free_large pool.large pool.heap) [
  | none ↦ none
  | some heap ↦ some (record pool {
    blocks = map rewind pool.blocks;
    current = 0;
    large = [];
    cleanup = map given_back pool.cleanup;
    heap = heap;
  })
]

-- The calls of `c->handler(c->data)`, in order.
abbrev pub Call : Type 0
Call = ℕ × ℕ

-- The calls that are made, up to the end of the list or to an entry whose memory has been given back:
-- what is read there is what somebody else may have written.
pub data Cleaned : Type 0 where
  ran : List Call → Cleaned
  astray : List Call → Cleaned

abbrev pub with_call : Cleanup → List Call → List Call
with_call c calls = if c.handler == null then calls else (c.handler, c.arg) ∷ calls

abbrev pub cleaned : Cleanup → Cleaned → Cleaned
cleaned c (ran calls) = ran (with_call c calls)
cleaned c (astray calls) = astray (with_call c calls)

unfoldable pub run_cleanup : List Cleanup → Cleaned
run_cleanup [] = ran []
run_cleanup (c ∷ cs) = let rest = cleaned c (run_cleanup cs) in if c.kept then rest else astray []

-- `for (p = pool, n = pool->d.next; ; p = n, n = n->d.next) { ngx_free(pool); … }`: one call for
-- each block, and each frees the address `pool`.
unfoldable pub free_blocks : (pool : ℕ) → List Block → Heap → Option Heap
free_blocks pool [] h = some h
free_blocks pool (b ∷ bs) h = elim (ngx_free pool h) [
  | none ↦ none
  | some h' ↦ free_blocks pool bs h'
]

abbrev pub main_addr : List Block → ℕ
main_addr [] = null
main_addr (b ∷ bs) = b.addr

-- from the loop over the large allocations on; `none` is a fault of `free`
unfoldable pub free_all : Pool → Option Heap
free_all pool = elim (free_large pool.large pool.heap) [
  | none ↦ none
  | some h ↦ free_blocks (main_addr pool.blocks) pool.blocks h
]

-- What a call leaves: the cleanup calls with the heap, or with `free` on an address that is not live,
-- or with a cleanup entry read from memory that has been given back, behind which nothing is certain.
pub data Destroyed : Type 0 where
  destroyed : List Call → Heap → Destroyed
  dead_free : List Call → Destroyed
  stale_read : List Call → Destroyed

abbrev pub after_cleanup : List Call → Option Heap → Destroyed
after_cleanup calls none = dead_free calls
after_cleanup calls (some h) = destroyed calls h

-- ngx_destroy_pool
unfoldable pub destroy_pool : Pool → Destroyed
destroy_pool pool = elim (run_cleanup pool.cleanup) [
  | ran calls ↦ after_cleanup calls (free_all pool)
  | astray calls ↦ stale_read calls
]
