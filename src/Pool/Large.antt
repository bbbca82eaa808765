-- ===== src/Pool/Large.antt =====
-- src/core/ngx_palloc.c: ngx_palloc and what it is made of beside small allocations, ngx_pmemalign,
-- ngx_pfree, ngx_pcalloc and ngx_pool_cleanup_add.
use nginx_inside_out.Prelude.{
  ℕ, ◌+◌, ◌%◌, ◌^◌, Bool, true, ◌&&◌, List, [], ◌∷◌, Option, none, some, ltb, leb, ◌==◌,
  if◌then◌else◌, map,
}
use nginx_inside_out.Pool.State.{
  Large, Cleanup, given_back, Pool, Heap, Libc, null, sizeof_large, sizeof_cleanup, ngx_memalign,
  ngx_alloc, ngx_free,
}
use nginx_inside_out.Pool.Small.{palloc_small}

-- `for (large = pool->large; large; large = large->next)` of ngx_palloc_large: the list with `p` in
-- the free entry that was found, if one was.
unfoldable pub reuse_entry : (n p : ℕ) → List Large → Option (List Large)
reuse_entry n p [] = none
reuse_entry n p (l ∷ ls) =
    if l.alloc == null
    then some (record l { alloc = p } ∷ ls)
    else if ltb 3 n
    then none
    else elim (reuse_entry ((n + 1) % 2 ^ 64) p ls) [ none ↦ none | some ls' ↦ some (l ∷ ls') ]

abbrev pub with_heap : Pool → Heap → Pool
with_heap p h = record p { heap = h }

-- `ngx_free(p); return NULL;`: `none` is a fault of `free`.
abbrev pub give_back : (p : ℕ) → Pool → Option (ℕ × Pool)
give_back p pool = elim (ngx_free p pool.heap) [
  | none ↦ none
  | some h ↦ some (null, with_heap pool h)
]

-- The end of ngx_palloc_large and ngx_pmemalign: a new entry at the head of the list, itself a small
-- allocation.
unfoldable pub add_large : Libc → Pool → (p : ℕ) → Option (ℕ × Pool)
add_large lib pool p =
    let (entry, pool') = palloc_small lib pool sizeof_large true in
    if entry == null
    then give_back p pool'
    else some (p, record pool' { large = record { addr = entry; alloc = p } ∷ pool'.large })

-- ngx_palloc_large; `n` is what the uninitialised counter happens to hold
unfoldable pub palloc_large : Libc → Pool → (n size : ℕ) → Option (ℕ × Pool)
palloc_large lib pool n size =
    let (p, heap) = ngx_alloc lib size pool.heap in
    if p == null then some (null, pool) else elim (reuse_entry n p pool.large) [
      | some large ↦ some (p, record pool { large = large; heap = heap })
      | none ↦ add_large lib (with_heap pool heap) p
    ]

-- ngx_palloc with `align` set, ngx_pnalloc without
unfoldable pub palloc : Libc → (align : Bool) → Pool → (n size : ℕ) → Option (ℕ × Pool)
palloc lib align pool n size =
    if leb size pool.max
    then some (palloc_small lib pool size align)
    else palloc_large lib pool n size

-- ngx_pmemalign
unfoldable pub pmemalign : Libc → Pool → (size alignment : ℕ) → Option (ℕ × Pool)
pmemalign lib pool size alignment =
    let (p, heap) = ngx_memalign lib alignment size pool.heap in
    if p == null then some (null, with_heap pool heap) else add_large lib (with_heap pool heap) p

-- NGX_OK and NGX_DECLINED
pub data Freed : Type 0 where
  ok : Pool → Freed
  declined : Freed
  fault : Freed

-- the loop of ngx_pfree: the list with the entry of `p` emptied, if there is one
unfoldable pub empty_entry : (p : ℕ) → List Large → Option (List Large)
empty_entry p [] = none
empty_entry p (l ∷ ls) =
    if p == l.alloc
    then some (record l { alloc = null } ∷ ls)
    else elim (empty_entry p ls) [ none ↦ none | some ls' ↦ some (l ∷ ls') ]

-- the cleanup entry, if it stands at the address that is freed
abbrev pub without : (p : ℕ) → Cleanup → Cleanup
without p c = if c.addr == p then given_back c else c

-- ngx_pfree
unfoldable pub pfree : Pool → (p : ℕ) → Freed
pfree pool p = elim (empty_entry p pool.large) [
  | none ↦ declined
  | some large ↦ elim (ngx_free p pool.heap) [
    | none ↦ fault
    | some heap ↦
        ok (record pool { large = large; cleanup = map (without p) pool.cleanup; heap = heap })
  ]
]

abbrev pub Memory : Type 0
Memory = ℕ → ℕ

-- ngx_memzero
abbrev pub memzero : (p n : ℕ) → Memory → Memory
memzero p n mem a = if leb p a && ltb a (p + n) then 0 else mem a

-- ngx_calloc, over the bytes of memory
abbrev pub ngx_calloc : Libc → (size : ℕ) → Heap → Memory → ℕ × Heap × Memory
ngx_calloc lib size h mem =
    let (p, h') = ngx_alloc lib size h in (p, h', if p == null then mem else memzero p size mem)

-- ngx_pcalloc, over the bytes of memory
unfoldable pub pcalloc : Libc → Pool → Memory → (n size : ℕ) → Option (ℕ × Pool × Memory)
pcalloc lib pool mem n size = elim (palloc lib true pool n size) [
  | none ↦ none
  | some (p, pool') ↦ some (p, pool', if p == null then mem else memzero p size mem)
]

abbrev pub register : (c arg : ℕ) → Pool → Pool
register c arg pool = record pool {
  cleanup = record { addr = c; kept = true; handler = null; arg = arg } ∷ pool.cleanup;
}

-- `c->data = ngx_palloc(p, size); if (c->data == NULL) { return NULL; }` and the rest
abbrev pub register_data : (c : ℕ) → Option (ℕ × Pool) → Option (ℕ × Pool)
register_data c none = none
register_data c (some (arg, pool)) =
    if arg == null then some (null, pool) else some (c, register c arg pool)

abbrev pub register_cleanup : Libc → (n size : ℕ) → Option (ℕ × Pool) → Option (ℕ × Pool)
register_cleanup lib n size none = none
register_cleanup lib n size (some (c, pool)) =
    if c == null
    then some (null, pool)
    else if size == 0
    then some (c, register c null pool)
    else register_data c (palloc lib true pool n size)

-- ngx_pool_cleanup_add
unfoldable pub pool_cleanup_add : Libc → Pool → (n size : ℕ) → Option (ℕ × Pool)
pool_cleanup_add lib pool n size =
    register_cleanup lib n size (palloc lib true pool n sizeof_cleanup)
